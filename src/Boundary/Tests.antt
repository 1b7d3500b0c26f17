-- ===== src/Boundary/Tests.antt =====
-- Errors from internal/boundary/error_mapping_test.go.
use casino_transaction_syste.Prelude.{◌≡◌, ◌↔◌, refl, true, false}
use casino_transaction_syste.Money.{amount_overflow}
use casino_transaction_syste.Errors.{
  db_unavailable, amount, deadline_exceeded, wrapped, non_retryable, root,
}
use casino_transaction_syste.Boundary.{classify, meta_of}
use casino_transaction_syste.Boundary.Classes.{IsUnavailable, classify_retryable}

classify_runs :
    ((classify (wrapped (wrapped db_unavailable))).http_status ≡ 503)
    × ((classify (wrapped (amount amount_overflow))).http_status ≡ 400)
    × ((classify deadline_exceeded).retryable ≡ false)
    × ((classify (non_retryable db_unavailable)).retryable ≡ false)
unfolding classify meta_of root
classify_runs = (refl, refl, refl, refl)

classify_retryable_example :
    ((classify (wrapped db_unavailable)).retryable ≡ true) ↔ IsUnavailable (wrapped db_unavailable)
classify_retryable_example = classify_retryable (wrapped db_unavailable)
