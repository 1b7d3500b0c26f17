-- ===== src/Http/Create/Agreement.antt =====
-- The two formats that take a transaction, that of the API and that of Kafka, are one.
use casino_transaction_syste.Prelude.{
  ◌≡◌, refl, ap, Option, none, some, [], ◌∷◌, Bytes, Result, ok, err,
}
use casino_transaction_syste.Prelude.Int.{ℤ}
use casino_transaction_syste.TimeUtil.{Time, Layout, parse}
use casino_transaction_syste.Money.{AmountError, parse_to_minor_units}
use casino_transaction_syste.Domain.{Transaction}
use casino_transaction_syste.Kafka.Dto.{
  Json, RawTransaction, TransactionDto, amount_text, unmarshal, to_domain, with_amount, from_raw,
  transaction_of, or_zero,
}
use casino_transaction_syste.Http.Create.{
  CreateTransactionRequest, request_amount, filled, from_aux, unmarshal_request, with_units,
  parsed_or_zero, request_to_domain,
}

-- The same request, field by field.
abbrev pub request_of : TransactionDto → CreateTransactionRequest
request_of dto = record {
  user_id = dto.user_id;
  transaction_type = dto.type;
  amount = dto.amount;
  timestamp = dto.timestamp;
}

abbrev pub on_some : {A B : Type 0} → (A → B) → Option A → Option B
on_some f none = none
on_some f (some a) = some (f a)

same_amount : (json : Json) (raw : Bytes) → request_amount json raw ≡ amount_text json raw
unfolding request_amount amount_text
same_amount json [] = refl
same_amount json (c ∷ s) = refl

same_time : (o : Option Time) → parsed_or_zero o ≡ or_zero o
same_time none = refl
same_time (some t) = refl

same_transaction :
    (dto : TransactionDto) (time : Time) (r : Result AmountError ℤ)
    → with_units (request_of dto) time r ≡ transaction_of dto time r
same_transaction dto time (ok a) = refl
same_transaction dto time (err e) = refl

same_domain :
    (parse_in_utc : Layout → Bytes → Option Time) (dto : TransactionDto)
    → request_to_domain parse_in_utc (request_of dto) ≡ to_domain parse_in_utc dto
unfolding request_to_domain to_domain
same_domain p dto =
    rw (same_time (parse p dto.timestamp))
      (same_transaction dto (or_zero (parse p dto.timestamp)) (parse_to_minor_units dto.amount))

-- A payload through the request, and through the Kafka payload, to the transaction or its error.
abbrev pub through_request :
    Json → (Layout → Bytes → Option Time) → Bytes → Option (Result AmountError Transaction)
through_request json p payload = on_some (request_to_domain p) (unmarshal_request json payload)

abbrev pub through_message :
    Json → (Layout → Bytes → Option Time) → Bytes → Option (Result AmountError Transaction)
through_message json p payload = on_some (to_domain p) (unmarshal json payload)

same_filled :
    (p : Layout → Bytes → Option Time) (aux : RawTransaction) (a : Option Bytes)
    → on_some (request_to_domain p) (filled aux a) ≡ on_some (to_domain p) (with_amount aux a)
same_filled p aux none = refl
same_filled p aux (some text) = ap some (
    same_domain p
      (record { user_id = aux.user_id; type = aux.type; amount = text; timestamp = aux.timestamp }))

same_from :
    (json : Json) (p : Layout → Bytes → Option Time) (aux : Option RawTransaction)
    → on_some (request_to_domain p) (from_aux json aux) ≡ on_some (to_domain p) (from_raw json aux)
same_from json p none = refl
same_from json p (some aux) =
    rw (same_amount json aux.amount) (same_filled p aux (amount_text json aux.amount))

-- Every payload becomes as a CreateTransactionRequest the transaction, or the
-- error, that it becomes as a Kafka message; a payload that one refuses the other refuses.
pub through_request-through_message :
    (json : Json) (parse_in_utc : Layout → Bytes → Option Time) (payload : Bytes)
    → through_request json parse_in_utc payload ≡ through_message json parse_in_utc payload
unfolding unmarshal_request unmarshal
through_request-through_message json p payload = same_from json p (json.decode_raw payload)
