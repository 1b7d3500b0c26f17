-- ===== src/Kafka/Tests/Runs.antt =====
-- A run of the worker through an outage, and the calls of one message.
use casino_transaction_syste.Prelude.{◌≡◌, refl, none, some, [], ◌∷◌}
use casino_transaction_syste.Prelude.Int.{◌*ℤ◌, ◌+ℤ◌}
use casino_transaction_syste.Go.Strings.{trim_space, contains, split}
use casino_transaction_syste.Go.Strconv.{parse_int}
use casino_transaction_syste.Go.Strconv.Itoa.{itoa}
use casino_transaction_syste.Money.{
  parse_trimmed, parse_decimal, parse_parts, combine, parse_to_minor_units,
}
use casino_transaction_syste.TimeUtil.{parse, is_zero}
use casino_transaction_syste.Domain.{validate, check_type}
use casino_transaction_syste.Errors.{db_unavailable, other, root}
use casino_transaction_syste.Boundary.{classify, meta_of}
use casino_transaction_syste.Kafka.Settings.{normalize}
use casino_transaction_syste.Kafka.Dto.{unmarshal, amount_text, to_domain}
use casino_transaction_syste.Kafka.Decode.{parse_and_validate}
use casino_transaction_syste.Kafka.Consumer.State.{Wt, stored, dead_lettered, committed}
use casino_transaction_syste.Kafka.Consumer.Backoff.{delay, sleep_backoff, pause_with_jitter}
use casino_transaction_syste.Kafka.Consumer.Process.{attempts, process_message}
use casino_transaction_syste.Kafka.Consumer.DeadLetter.{
  payload_of, route_to_dlq, trigger_fatal, dlq_loop,
}
use casino_transaction_syste.Kafka.Consumer.Handle.{
  lag_ms, observe_lag, commit, commit_loop, handle_message,
}
use casino_transaction_syste.Kafka.Consumer.Batch.{
  bulk_attempts, bulk_commit_loop, one_by_one, flush_batch,
}
use casino_transaction_syste.Kafka.Consumer.Worker.{no_messages, flush, partition_worker}
use casino_transaction_syste.Kafka.Retries.{AtMost, tries, process_message-AtMost}
use casino_transaction_syste.Kafka.Tests.{
  processor, inputs, start, valid_message, empty_message, paid,
}

-- The insert is tried twice and the commit four times; then the invalid message is dead-lettered and
-- committed, and the last message stays in the buffer.
partition_worker_run : Wt (partition_worker processor inputs no_messages start) (λ b s'.
    (b.msgs ≡ valid_message ∷ [])
    × (s'.trace
        ≡ committed (empty_message ∷ []) none
          ∷ dead_lettered empty_message none
          ∷ committed (valid_message ∷ []) none
          ∷ committed (valid_message ∷ []) (some (other 7))
          ∷ committed (valid_message ∷ []) (some (other 7))
          ∷ committed (valid_message ∷ []) (some (other 7))
          ∷ stored (paid ∷ []) none
          ∷ stored (paid ∷ []) (some db_unavailable)
          ∷ []))
unfolding partition_worker flush flush_batch one_by_one bulk_commit_loop bulk_attempts
    handle_message commit_loop commit observe_lag lag_ms dlq_loop trigger_fatal route_to_dlq
    payload_of process_message attempts pause_with_jitter sleep_backoff delay parse_and_validate
    to_domain amount_text unmarshal normalize meta_of classify root check_type validate is_zero
    parse parse_to_minor_units combine parse_parts parse_decimal parse_trimmed itoa parse_int split
    contains trim_space ◌+ℤ◌ ◌*ℤ◌
partition_worker_run = (refl, refl)

process_message-AtMost_example :
    Wt
      (process_message processor valid_message start)
      (λ r. AtMost processor (tries processor) start)
process_message-AtMost_example = process_message-AtMost processor valid_message start
