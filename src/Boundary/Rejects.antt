-- ===== src/Boundary/Rejects.antt =====
-- The errors that `classify` rejects, for every chain of wraps.
use casino_transaction_syste.Prelude.{◌≡◌, ◌↔◌, true, arith}
use casino_transaction_syste.Errors.{
  GoError, repo_not_initialized, db_unavailable, amount, domain, canceled, deadline_exceeded, other,
  wrapped, non_retryable, root,
}
use casino_transaction_syste.Boundary.{classify, meta_of}
use casino_transaction_syste.Boundary.Classes.{IsAmountError}

-- Rejected are the errors that hold a sentinel of the amount parser, and no others.
pub classify_reject : (e : GoError) → ((classify e).reject ≡ true) ↔ IsAmountError e
unfolding classify meta_of root
classify_reject (wrapped e) = classify_reject e
classify_reject repo_not_initialized = ground arith
classify_reject db_unavailable = ground arith
classify_reject (amount a) = ground arith
classify_reject (domain d) = ground arith
classify_reject canceled = ground arith
classify_reject deadline_exceeded = ground arith
classify_reject (other n) = ground arith
classify_reject (non_retryable e) = ground arith
