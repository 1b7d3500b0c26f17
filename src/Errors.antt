-- ===== src/Errors.antt =====
-- The errors that cross package borders, and how `errors.Is` and `errors.As` look into them.
use casino_transaction_syste.Prelude.{ℕ, Bool, true, false}
use casino_transaction_syste.Money.{AmountError}
use casino_transaction_syste.Domain.{DomainError}

pub data GoError : Type 0 where
  -- internal/repository/errors.go
  repo_not_initialized db_unavailable : GoError
  -- pkg/money and internal/domain
  amount : AmountError → GoError
  domain : DomainError → GoError
  -- context.Canceled and context.DeadlineExceeded
  canceled deadline_exceeded : GoError
  -- an error that wraps none of those above: of a driver, a broker, an encoder or errors.New
  other : ℕ → GoError
  -- fmt.Errorf with %w
  wrapped : GoError → GoError
  -- `nonRetryableError` of the consumer; it has no Unwrap method
  non_retryable : GoError → GoError

-- The end of the chain that `errors.Is` and `errors.As` walk.
unfoldable pub root : GoError → GoError
root (wrapped e) = root e
root e = e

abbrev is_canceled_root : GoError → Bool
is_canceled_root canceled = true
is_canceled_root e = false

abbrev is_deadline_root : GoError → Bool
is_deadline_root deadline_exceeded = true
is_deadline_root e = false

abbrev is_non_retryable_root : GoError → Bool
is_non_retryable_root (non_retryable e) = true
is_non_retryable_root e = false

-- `errors.Is(err, context.Canceled)` and `errors.Is(err, context.DeadlineExceeded)`.
abbrev pub is_canceled : GoError → Bool
is_canceled e = is_canceled_root (root e)

abbrev pub is_deadline_exceeded : GoError → Bool
is_deadline_exceeded e = is_deadline_root (root e)

-- `errors.As` into a `nonRetryableError`.
abbrev pub as_non_retryable : GoError → Bool
as_non_retryable e = is_non_retryable_root (root e)
