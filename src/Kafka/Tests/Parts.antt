-- ===== src/Kafka/Tests/Parts.antt =====
-- The witnesses for the parts of the consumer that need no site.
use casino_transaction_syste.Prelude.{◌+◌, ◌*◌, ◌^◌, ◌≡◌, ltb, if◌then◌else◌, arith}
use casino_transaction_syste.Prelude.Int.{pos}
use casino_transaction_syste.Domain.Valid.{IsValid}
use casino_transaction_syste.Kafka.Decode.Checked.{parse_and_validate-IsValid}
use casino_transaction_syste.Kafka.Consumer.Backoff.{delay, max_retry_delay}
use casino_transaction_syste.Kafka.Bounds.{delay-exact}
use casino_transaction_syste.Kafka.Tests.{bets, paid, valid_message, valid_message-paid}

parse_and_validate-IsValid_example : IsValid paid
parse_and_validate-IsValid_example =
    parse_and_validate-IsValid bets valid_message paid valid_message-paid

delay-exact_example :
    delay (λ n. pos 0) 100 3 250000000
    ≡ pos (
        if ltb max_retry_delay (100 * 2 ^ 3 * 1000000 + 250000000)
        then max_retry_delay
        else 100 * 2 ^ 3 * 1000000 + 250000000)
delay-exact_example = delay-exact (λ n. pos 0) 100 3 250000000 (omega arith)
