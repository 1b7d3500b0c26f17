-- ===== src/Kafka/Decode/Checked.antt =====
-- What `parseAndValidateMsg` lets through.
use casino_transaction_syste.Prelude.{◌≡◌, refl, Option, none, some, Result, ok, err}
use casino_transaction_syste.Money.{AmountError}
use casino_transaction_syste.Domain.{DomainError, Transaction, validate}
use casino_transaction_syste.Domain.Valid.{IsValid, validate-IsValid}
use casino_transaction_syste.Kafka.Message.{Message}
use casino_transaction_syste.Kafka.Dto.{TransactionDto, unmarshal, to_domain}
use casino_transaction_syste.Kafka.Decode.{Codec, checked, converted, decoded, parse_and_validate}

checked-IsValid :
    (t t' : Transaction) (v : Option DomainError)
    → validate t ≡ v
    → checked t v ≡ ok t'
    → IsValid t'
checked-IsValid t t' none p h = (validate-IsValid t').0 (cc)
checked-IsValid t t' (some e) p h = cc

converted-IsValid :
    (r : Result AmountError Transaction) (t : Transaction) → converted r ≡ ok t → IsValid t
converted-IsValid (err e) t h = cc
converted-IsValid (ok u) t h = checked-IsValid u t (validate u) refl h

decoded-IsValid :
    (codec : Codec) (dto : Option TransactionDto) (t : Transaction)
    → decoded codec dto ≡ ok t
    → IsValid t
decoded-IsValid codec none t h = cc
decoded-IsValid codec (some dto) t h = converted-IsValid (to_domain codec.parse_in_utc dto) t h

-- A message that passes decoding and validation gives a valid transaction, whatever the JSON and
-- time packages return.
pub parse_and_validate-IsValid :
    (codec : Codec) (msg : Message) (t : Transaction)
    → parse_and_validate codec msg ≡ ok t
    → IsValid t
unfolding parse_and_validate
parse_and_validate-IsValid codec msg t h =
    decoded-IsValid codec (unmarshal codec.json msg.value) t h
