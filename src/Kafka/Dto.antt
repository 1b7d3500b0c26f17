-- ===== src/Kafka/Dto.antt =====
-- dto.go: the JSON payload of a message. `encoding/json` is a parameter.
use casino_transaction_syste.Prelude.{
  Option, none, some, [], ◌∷◌, Bytes, ◌==◌, if◌then◌else◌, Result, ok, err,
}
use casino_transaction_syste.Prelude.Int.{ℤ, pos}
use casino_transaction_syste.TimeUtil.{Time, zero_time, Layout, parse}
use casino_transaction_syste.Money.{AmountError, parse_to_minor_units}
use casino_transaction_syste.Domain.{TransactionType, Transaction}

-- The local struct `aux`: the amount is raw JSON.
pub record RawTransaction : Type 0 where
  pub user_id : ℤ
  pub type : TransactionType
  pub amount : Bytes
  pub timestamp : Bytes

pub record TransactionDto : Type 0 where
  pub user_id : ℤ
  pub type : TransactionType
  pub amount : Bytes
  pub timestamp : Bytes

-- `json.Unmarshal` into the struct, into a string and into a `json.Number`.
pub record Json : Type 0 where
  pub decode_raw : Bytes → Option RawTransaction
  pub decode_string : Bytes → Option Bytes
  pub decode_number : Bytes → Option Bytes

-- The amount as a decimal text; `none` is an error.
unfoldable pub amount_text : Json → Bytes → Option Bytes
amount_text json [] = none
amount_text json (c ∷ s) =
    if c == b'"' then json.decode_string (c ∷ s) else json.decode_number (c ∷ s)

abbrev pub with_amount : RawTransaction → Option Bytes → Option TransactionDto
with_amount raw none = none
with_amount raw (some text) =
    some
      (record { user_id = raw.user_id; type = raw.type; amount = text; timestamp = raw.timestamp })

abbrev pub from_raw : Json → Option RawTransaction → Option TransactionDto
from_raw json none = none
from_raw json (some raw) = with_amount raw (amount_text json raw.amount)

-- `UnmarshalJSON`.
unfoldable pub unmarshal : Json → Bytes → Option TransactionDto
unmarshal json payload = from_raw json (json.decode_raw payload)

abbrev pub or_zero : Option Time → Time
or_zero none = zero_time
or_zero (some t) = t

abbrev pub transaction_of :
    TransactionDto → Time → Result AmountError ℤ → Result AmountError Transaction
transaction_of dto time (err e) = err e
transaction_of dto time (ok amount) = ok (record {
  id = pos 0;
  user_id = dto.user_id;
  type = dto.type;
  amount = amount;
  timestamp = time;
  created_at = zero_time;
})

-- `ToDomain`: a timestamp that cannot be read is the zero time.
unfoldable pub to_domain :
    (Layout → Bytes → Option Time) → TransactionDto → Result AmountError Transaction
to_domain parse_in_utc dto =
    transaction_of dto (or_zero (parse parse_in_utc dto.timestamp))
      (parse_to_minor_units dto.amount)
