-- ===== src/Kafka/Interference/Tests.antt =====
-- A worker that handles a message while others use its database and its broker.
use casino_transaction_syste.Prelude.{
  absurd, ◌-◌, ◌≡◌, refl, ap, subst, Option, none, some, [], ◌∷◌, arith,
}
use casino_transaction_syste.Prelude.Int.{◌*ℤ◌, ◌+ℤ◌}
use casino_transaction_syste.Go.Strings.{trim_space, contains, split}
use casino_transaction_syste.Go.Strconv.{parse_int}
use casino_transaction_syste.Go.Strconv.Itoa.{itoa}
use casino_transaction_syste.Money.{
  parse_trimmed, parse_decimal, parse_parts, combine, parse_to_minor_units,
}
use casino_transaction_syste.TimeUtil.{parse, is_zero}
use casino_transaction_syste.Domain.{validate, check_type}
use casino_transaction_syste.Errors.{root}
use casino_transaction_syste.Boundary.{classify, meta_of}
use casino_transaction_syste.Kafka.Dto.{unmarshal, amount_text, to_domain}
use casino_transaction_syste.Kafka.Decode.{parse_and_validate}
use casino_transaction_syste.Kafka.Consumer.Backoff.{delay, sleep_backoff, pause_with_jitter}
use casino_transaction_syste.Kafka.Consumer.Process.{attempts, process_message}
use casino_transaction_syste.Kafka.Consumer.DeadLetter.{
  payload_of, route_to_dlq, trigger_fatal, dlq_loop,
}
use casino_transaction_syste.Kafka.Consumer.Handle.{
  lag_ms, observe_lag, commit, commit_loop, handle_message,
}
use casino_transaction_syste.Kafka.Consumer.Batch.{
  bulk_attempts, bulk_commit_loop, one_by_one, flush_batch,
}
use casino_transaction_syste.Kafka.Settings.{normalize, normalize-IsUsable}
use casino_transaction_syste.Kafka.Fetch.{
  partition_worker_queue_size, Loop, on_message, load_or_store, send, receive, fetch, deliver,
}
use casino_transaction_syste.Kafka.Fetch as Fetch
use casino_transaction_syste.Kafka.Fetch.Workers.{queue_of, has_channel, push, drop_first}
use casino_transaction_syste.Kafka.Consumer.State.{State}
use casino_transaction_syste.Kafka.Consumer.Worker.{
  received, ticked, Buffer, no_messages, partition_worker, flush,
}
use casino_transaction_syste.Kafka.System.{
  System, begin, put, Reach, loops, works, ticks, here, next,
}
use casino_transaction_syste.Kafka.Delivery.Evolution.{IsSound, IsCancelled}
use casino_transaction_syste.Kafka.System.Steps.{IsHarmless}
use casino_transaction_syste.Kafka.System.Complete.{IsKept}
use casino_transaction_syste.Kafka.Interference.{
  Others, Counted, among, Lifted, IsGentle, Reach-IsKept-among,
}
use casino_transaction_syste.Kafka.Tests.{
  Site, processor, sparse, site-IsLawful, site-IsPatient, start, valid_message,
}

-- While a worker calls, others use up the failures of the database and of the broker.
abbrev busy : Others Site
busy = record {
  before = λ n w. record w { database = w.database - 1 };
  behind = λ n w. record w { broker = w.broker - 1 };
}

busy-IsGentle : IsGentle busy processor.outside (λ w. w.broker)
busy-IsGentle = record {
  before_stays = λ n w h. h;
  behind_stays = λ n w h. h;
  before_patience = λ n w. omega arith;
  behind_patience = λ n w. omega arith;
}

abbrev from : State (Counted Site)
from = record {
  world = (start.world, 0);
  inflight = start.inflight;
  fatal = start.fatal;
  trace = start.trace;
  metrics = start.metrics;
}

from-IsSound : IsSound (among busy processor) from
from-IsSound h = absurd (h refl)

abbrev outcome : Option (Buffer × State (Counted Site)) → Buffer × State (Counted Site)
outcome none = (no_messages, from)
outcome (some r) = r

-- What the worker makes of the first message and of a tick.
abbrev joined : Buffer × State (Counted Site)
joined =
    outcome (partition_worker (among busy processor) (received valid_message ∷ []) no_messages from)

abbrev flushed : Buffer × State (Counted Site)
flushed = outcome (partition_worker (among busy processor) (ticked ∷ []) joined.0 joined.1)

abbrev first_sent : Loop
first_sent = send valid_message (on_message valid_message Fetch.start)

-- Nothing happens elsewhere.
abbrev Undisturbed : Site → Site → Type 0
Undisturbed v w = v ≡ w

Undisturbed-IsHarmless : IsHarmless processor (λ w. w.broker) Undisturbed
Undisturbed-IsHarmless = record {
  stays = λ v w e. subst (IsCancelled processor) e;
  less = λ v w e. omega (arith, ap (λ (x : Site). x.broker) e);
}

abbrev final : System (Counted Site)
final = record {
  loop = receive valid_message first_sent;
  buffers = put 0 flushed.0 (put 0 joined.0 (λ p. no_messages));
  shared = flushed.1;
}

runs : Reach (among busy processor) (Lifted busy Undisturbed) (begin from) final
unfolding on_message send receive load_or_store queue_of has_channel push drop_first
    partition_worker flush flush_batch one_by_one bulk_commit_loop bulk_attempts handle_message
    commit_loop commit observe_lag lag_ms dlq_loop trigger_fatal route_to_dlq payload_of
    process_message attempts pause_with_jitter sleep_backoff delay parse_and_validate to_domain
    amount_text unmarshal normalize meta_of classify root check_type validate is_zero parse
    parse_to_minor_units combine parse_parts parse_decimal parse_trimmed itoa parse_int split
    contains trim_space ◌+ℤ◌ ◌*ℤ◌
runs =
    let r1 =
      next here
        (loops (on_message valid_message Fetch.start) (fetch valid_message refl) refl (λ e. cc)) in
    let r2 = next r1 (loops first_sent (deliver valid_message refl (omega arith)) refl (λ e. cc)) in
    let r3 = next r2 (works valid_message [] joined.0 joined.1 refl refl) in
    next r3 (ticks 0 flushed.0 flushed.1 refl)

Reach-IsKept-among_example : IsKept (among busy processor) from final
Reach-IsKept-among_example =
    Reach-IsKept-among processor site-IsLawful site-IsPatient busy busy-IsGentle Undisturbed
      Undisturbed-IsHarmless (normalize-IsUsable sparse) from final (omega arith)
      (omega arith, omega arith) tt from-IsSound runs
