-- ===== src/Boundary/Classes.antt =====
-- The classes of errors that `classify` makes, for every chain of wraps.
use casino_transaction_syste.Prelude.{◌≡◌, ◌⊎◌, ◌↔◌, true, arith}
use casino_transaction_syste.Money.{AmountError}
use casino_transaction_syste.Errors.{
  GoError, repo_not_initialized, db_unavailable, amount, domain, canceled, deadline_exceeded, other,
  wrapped, non_retryable, root,
}
use casino_transaction_syste.Boundary.{classify}

-- `errors.Is` finds one of the two sentinels of the repository.
abbrev pub IsUnavailable : GoError → Type 0
IsUnavailable e = (root e ≡ repo_not_initialized) ⊎ (root e ≡ db_unavailable)

-- `errors.Is` finds one of the five sentinels of the amount parser.
abbrev pub IsAmountError : GoError → Type 0
IsAmountError e = (a : AmountError) × (root e ≡ amount a)

-- Retried are the errors that hold a sentinel of the repository, and no others.
pub classify_retryable : (e : GoError) → ((classify e).retryable ≡ true) ↔ IsUnavailable e
unfolding classify
classify_retryable (wrapped e) = classify_retryable e
classify_retryable repo_not_initialized = ground arith
classify_retryable db_unavailable = ground arith
classify_retryable (amount a) = ground arith
classify_retryable (domain d) = ground arith
classify_retryable canceled = ground arith
classify_retryable deadline_exceeded = ground arith
classify_retryable (other n) = ground arith
classify_retryable (non_retryable e) = ground arith
