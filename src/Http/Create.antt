-- ===== src/Http/Create.antt =====
-- CreateTransactionRequest of internal/transport/http/dto.go. Its JSON has the fields of the Kafka payload,
-- so that json.Unmarshal reads the local struct `aux` of both alike.
pub mod Agreement
use casino_transaction_syste.Prelude.{
  Option, none, some, [], ◌∷◌, Bytes, ◌==◌, if◌then◌else◌, Result, ok, err,
}
use casino_transaction_syste.Prelude.Int.{ℤ, pos}
use casino_transaction_syste.TimeUtil.{Time, zero_time, Layout, parse}
use casino_transaction_syste.Money.{AmountError, parse_to_minor_units}
use casino_transaction_syste.Domain.{TransactionType, Transaction}
use casino_transaction_syste.Kafka.Dto.{Json, RawTransaction}

pub record CreateTransactionRequest : Type 0 where
  pub user_id : ℤ
  pub transaction_type : TransactionType
  pub amount : Bytes
  pub timestamp : Bytes

-- `amountStr`; `none` is an error.
unfoldable pub request_amount : Json → Bytes → Option Bytes
request_amount json [] = none
request_amount json (c ∷ s) =
    if c == b'"' then json.decode_string (c ∷ s) else json.decode_number (c ∷ s)

abbrev pub filled : RawTransaction → Option Bytes → Option CreateTransactionRequest
filled aux none = none
filled aux (some amount) = some (record {
  user_id = aux.user_id;
  transaction_type = aux.type;
  amount = amount;
  timestamp = aux.timestamp;
})

abbrev pub from_aux : Json → Option RawTransaction → Option CreateTransactionRequest
from_aux json none = none
from_aux json (some aux) = filled aux (request_amount json aux.amount)

-- `UnmarshalJSON`.
unfoldable pub unmarshal_request : Json → Bytes → Option CreateTransactionRequest
unfolding request_amount
unmarshal_request json body = from_aux json (json.decode_raw body)

abbrev pub parsed_or_zero : Option Time → Time
parsed_or_zero none = zero_time
parsed_or_zero (some t) = t

abbrev pub with_units :
    CreateTransactionRequest → Time → Result AmountError ℤ → Result AmountError Transaction
with_units r time (err e) = err e
with_units r time (ok amount) = ok (record {
  id = pos 0;
  user_id = r.user_id;
  type = r.transaction_type;
  amount = amount;
  timestamp = time;
  created_at = zero_time;
})

-- `ToDomain`.
unfoldable pub request_to_domain :
    (Layout → Bytes → Option Time) → CreateTransactionRequest → Result AmountError Transaction
unfolding parse parse_to_minor_units
request_to_domain parse_in_utc r =
    with_units r (parsed_or_zero (parse parse_in_utc r.timestamp)) (parse_to_minor_units r.amount)
