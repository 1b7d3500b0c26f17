-- ===== src/Kafka/Decode.antt =====
-- `parseAndValidateMsg`. What it logs is left out.
pub mod Checked
use casino_transaction_syste.Prelude.{Option, none, some, Bytes, Result, ok, err}
use casino_transaction_syste.TimeUtil.{Time, Layout}
use casino_transaction_syste.Money.{AmountError}
use casino_transaction_syste.Domain.{DomainError, Transaction, validate}
use casino_transaction_syste.Errors.{GoError, amount, domain, other, non_retryable}
use casino_transaction_syste.Kafka.Message.{Message}
use casino_transaction_syste.Kafka.Dto.{Json, TransactionDto, unmarshal, to_domain}

-- The packages that turn bytes into values.
pub record Codec : Type 0 where
  pub json : Json
  pub parse_in_utc : Layout → Bytes → Option Time

abbrev pub checked : Transaction → Option DomainError → Result GoError Transaction
checked t none = ok t
checked t (some e) = err (non_retryable (domain e))

abbrev pub converted : Result AmountError Transaction → Result GoError Transaction
converted (err e) = err (non_retryable (amount e))
converted (ok t) = checked t (validate t)

abbrev pub decoded : Codec → Option TransactionDto → Result GoError Transaction
decoded codec none = err (non_retryable (other 0))
decoded codec (some dto) = converted (to_domain codec.parse_in_utc dto)

unfoldable pub parse_and_validate : Codec → Message → Result GoError Transaction
parse_and_validate codec msg = decoded codec (unmarshal codec.json msg.value)
