-- ===== src/Kafka/System/Tests.antt =====
-- A run of the loop with the worker of one partition.
use casino_transaction_syste.Prelude.{
  ◌≡◌, refl, ap, subst, Option, none, some, [], ◌∷◌, codes, arith,
}
use casino_transaction_syste.Prelude.Int.{◌*ℤ◌, ◌+ℤ◌}
use casino_transaction_syste.Go.Strings.{trim_space, contains, split}
use casino_transaction_syste.Go.Strconv.{parse_int}
use casino_transaction_syste.Go.Strconv.Itoa.{itoa}
use casino_transaction_syste.Money.{
  parse_trimmed, parse_decimal, parse_parts, combine, parse_to_minor_units,
}
use casino_transaction_syste.TimeUtil.{parse, is_zero}
use casino_transaction_syste.Domain.{validate, check_type}
use casino_transaction_syste.Errors.{root}
use casino_transaction_syste.Boundary.{classify, meta_of}
use casino_transaction_syste.Kafka.Dto.{unmarshal, amount_text, to_domain}
use casino_transaction_syste.Kafka.Decode.{parse_and_validate}
use casino_transaction_syste.Kafka.Consumer.Backoff.{delay, sleep_backoff, pause_with_jitter}
use casino_transaction_syste.Kafka.Consumer.Process.{attempts, process_message}
use casino_transaction_syste.Kafka.Consumer.DeadLetter.{
  payload_of, route_to_dlq, trigger_fatal, dlq_loop,
}
use casino_transaction_syste.Kafka.Consumer.Handle.{
  lag_ms, observe_lag, commit, commit_loop, handle_message,
}
use casino_transaction_syste.Kafka.Consumer.Batch.{
  bulk_attempts, bulk_commit_loop, one_by_one, flush_batch,
}
use casino_transaction_syste.Kafka.Message.{Message}
use casino_transaction_syste.Kafka.Settings.{normalize, normalize-IsUsable}
use casino_transaction_syste.Kafka.Fetch.{
  partition_worker_queue_size, Loop, on_message, load_or_store, send, receive, fetch, deliver,
}
use casino_transaction_syste.Kafka.Fetch as Fetch
use casino_transaction_syste.Kafka.Fetch.Workers.{queue_of, has_channel, push, drop_first}
use casino_transaction_syste.Kafka.Consumer.State.{State}
use casino_transaction_syste.Kafka.Consumer.Worker.{
  received, ticked, Buffer, no_messages, partition_worker, flush,
}
use casino_transaction_syste.Kafka.System.{
  System, begin, put, Reach, loops, works, ticks, here, next,
}
use casino_transaction_syste.Kafka.Delivery.Evolution.{IsCancelled}
use casino_transaction_syste.Kafka.System.Steps.{IsHarmless}
use casino_transaction_syste.Kafka.System.Bounded.{IsBounded, Reach-IsBounded}
use casino_transaction_syste.Kafka.System.Complete.{IsKept, Reach-IsKept}
use casino_transaction_syste.Kafka.Tests.{
  Site, processor, sparse, site-IsLawful, site-IsPatient, start, start-IsSound, message,
  valid_message, empty_message,
}

abbrev outcome : Option (Buffer × State Site) → Buffer × State Site
outcome none = (no_messages, start)
outcome (some r) = r

abbrev third : Message
third = message 2 (codes "7")

-- What the worker makes of the first message and of a tick.
abbrev joined : Buffer × State Site
joined = outcome (partition_worker processor (received valid_message ∷ []) no_messages start)

abbrev flushed : Buffer × State Site
flushed = outcome (partition_worker processor (ticked ∷ []) joined.0 joined.1)

-- The loop with the first message sent, with the second in the channel, and with the third at the
-- `select`.
abbrev first_sent : Loop
first_sent = send valid_message (on_message valid_message Fetch.start)

abbrev at_end : Loop
at_end =
    on_message third
      (send empty_message (on_message empty_message (receive valid_message first_sent)))

-- Nothing happens elsewhere.
abbrev Undisturbed : Site → Site → Type 0
Undisturbed v w = v ≡ w

Undisturbed-IsHarmless : IsHarmless processor (λ w. w.broker) Undisturbed
Undisturbed-IsHarmless = record {
  stays = λ v w e. subst (IsCancelled processor) e;
  less = λ v w e. omega (arith, ap (λ (x : Site). x.broker) e);
}

abbrev final : System Site
final = record {
  loop = at_end;
  buffers = put 0 flushed.0 (put 0 joined.0 (λ p. no_messages));
  shared = flushed.1;
}

runs : Reach processor Undisturbed (begin start) final
unfolding on_message send receive load_or_store queue_of has_channel push drop_first
    partition_worker flush flush_batch one_by_one bulk_commit_loop bulk_attempts handle_message
    commit_loop commit observe_lag lag_ms dlq_loop trigger_fatal route_to_dlq payload_of
    process_message attempts pause_with_jitter sleep_backoff delay parse_and_validate to_domain
    amount_text unmarshal normalize meta_of classify root check_type validate is_zero parse
    parse_to_minor_units combine parse_parts parse_decimal parse_trimmed itoa parse_int split
    contains trim_space ◌+ℤ◌ ◌*ℤ◌
runs =
    let r1 =
      next here
        (loops (on_message valid_message Fetch.start) (fetch valid_message refl) refl (λ e. cc)) in
    let r2 = next r1 (loops first_sent (deliver valid_message refl (omega arith)) refl (λ e. cc)) in
    let r3 = next r2 (works valid_message [] joined.0 joined.1 refl refl) in
    let r4 = next r3 (loops _ (fetch empty_message refl) refl (λ e. cc)) in
    let r5 = next r4 (loops _ (deliver empty_message refl (omega arith)) refl (λ e. cc)) in
    let r6 = next r5 (ticks 0 flushed.0 flushed.1 refl) in
    next r6 (loops at_end (fetch third refl) refl (λ e. cc))

Reach-IsKept_example : IsKept processor start final
Reach-IsKept_example =
    Reach-IsKept processor site-IsLawful site-IsPatient Undisturbed Undisturbed-IsHarmless
      (normalize-IsUsable sparse) start final (omega arith) (omega arith, omega arith) tt
      start-IsSound runs

Reach-IsBounded_example : IsBounded processor final
Reach-IsBounded_example =
    Reach-IsBounded processor (normalize-IsUsable sparse) Undisturbed start final runs
