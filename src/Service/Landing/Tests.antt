-- ===== src/Service/Landing/Tests.antt =====
-- A bet from Kafka to the API, over a database that keeps its rows in a list.
use casino_transaction_syste.Prelude.{
  ℕ, ◌<◌, ◌≡◌, refl, absurd, subst, false, Option, none, some, [], ◌∷◌, Bytes, codes, ok, arith,
}
use casino_transaction_syste.Prelude.Int.{pos, ◌*ℤ◌, ◌+ℤ◌}
use casino_transaction_syste.Go.Strings.{trim_space, contains, split}
use casino_transaction_syste.Go.Strconv.{parse_int}
use casino_transaction_syste.Go.Strconv.Itoa.{itoa}
use casino_transaction_syste.Money.{
  parse_trimmed, parse_decimal, parse_parts, combine, parse_to_minor_units,
}
use casino_transaction_syste.TimeUtil.{parse, is_zero}
use casino_transaction_syste.Domain.{validate, check_type}
use casino_transaction_syste.Errors.{root}
use casino_transaction_syste.Boundary.{classify, meta_of}
use casino_transaction_syste.Kafka.Dto.{unmarshal, amount_text, to_domain}
use casino_transaction_syste.Kafka.Decode.{parse_and_validate}
use casino_transaction_syste.Kafka.Consumer.Backoff.{delay, sleep_backoff, pause_with_jitter}
use casino_transaction_syste.Kafka.Consumer.Process.{attempts, process_message}
use casino_transaction_syste.Kafka.Consumer.DeadLetter.{
  payload_of, route_to_dlq, trigger_fatal, dlq_loop,
}
use casino_transaction_syste.Kafka.Consumer.Handle.{
  lag_ms, observe_lag, commit, commit_loop, handle_message,
}
use casino_transaction_syste.Kafka.Consumer.Batch.{
  bulk_attempts, bulk_commit_loop, one_by_one, flush_batch,
}
use casino_transaction_syste.Kafka.Message.{Message}
use casino_transaction_syste.Kafka.Fetch.{
  Loop, on_message, load_or_store, send, receive, fetch, deliver,
}
use casino_transaction_syste.Kafka.Fetch as Fetch
use casino_transaction_syste.Kafka.Fetch.Workers.{queue_of, has_channel, push, drop_first}
use casino_transaction_syste.Kafka.Consumer.State.{State}
use casino_transaction_syste.Kafka.Consumer.Worker.{
  received, ticked, Buffer, no_messages, partition_worker, flush,
}
use casino_transaction_syste.Kafka.System.{
  System, begin, put, Reach, loops, works, ticks, here, next,
}
use casino_transaction_syste.TimeUtil.{zero_time}
use casino_transaction_syste.Domain.{Transaction}
use casino_transaction_syste.Repository.{
  transaction_of, scan_all, save_bulk, get, get_statement, bulk_statement, collect, placeholders,
  join,
}
use casino_transaction_syste.Service.{register_transactions, get_transactions}
use casino_transaction_syste.Service.Composition.{over}
use casino_transaction_syste.Service.Table.Shop.{Shop, shop, shop-IsPostgres}
use casino_transaction_syste.Service.Landing.{HasLanded, Landed, Reach-Landed}
use casino_transaction_syste.Kafka.Message.{Message}
use casino_transaction_syste.Kafka.Settings.{normalize, normalize-IsUsable, IsUsable}
use casino_transaction_syste.Kafka.Delivery.Evolution.{IsSound}
use casino_transaction_syste.Service.Landing.Sample.{
  sparse, processor, wired, wired-IsPatient, Undisturbed, wired-IsLawful, calm_outside-IsAside,
  Undisturbed-IsHarmless,
}

abbrev message : ℕ → Bytes → Message
message offset value = record {
  topic = "transactions";
  partition = 0;
  offset = offset;
  key = codes "1";
  value = value;
  headers = [];
  time = zero_time;
}

abbrev first : Message
first = message 0 (codes "5.25")

abbrev second : Message
second = message 1 (codes "7")

abbrev start : State Shop
start = record {
  world = record { rows = []; cancelled = false };
  inflight = pos 0;
  fatal = none;
  trace = [];
  metrics = [];
}

abbrev outcome : Option (Buffer × State Shop) → Buffer × State Shop
outcome none = (no_messages, start)
outcome (some r) = r

-- The worker takes the first message, and flushes at a tick.
abbrev joined : Buffer × State Shop
joined = outcome (partition_worker wired (received first ∷ []) no_messages start)

abbrev flushed : Buffer × State Shop
flushed = outcome (partition_worker wired (ticked ∷ []) joined.0 joined.1)

abbrev first_sent : Loop
first_sent = send first (on_message first Fetch.start)

abbrev at_end : Loop
at_end = on_message second (receive first first_sent)

abbrev final : System Shop
final = record {
  loop = at_end;
  buffers = put 0 flushed.0 (put 0 joined.0 (λ p. no_messages));
  shared = flushed.1;
}

runs : Reach wired Undisturbed (begin start) final
unfolding on_message send receive load_or_store queue_of has_channel push drop_first
    partition_worker flush flush_batch one_by_one bulk_commit_loop bulk_attempts handle_message
    commit_loop commit observe_lag lag_ms dlq_loop trigger_fatal route_to_dlq payload_of
    process_message attempts pause_with_jitter sleep_backoff delay parse_and_validate to_domain
    amount_text unmarshal normalize meta_of classify root check_type validate is_zero parse
    parse_to_minor_units combine parse_parts parse_decimal parse_trimmed itoa parse_int split
    contains trim_space ◌+ℤ◌ ◌*ℤ◌ over register_transactions save_bulk
runs =
    let r1 = next here (loops (on_message first Fetch.start) (fetch first refl) refl (λ e. cc)) in
    let r2 = next r1 (loops first_sent (deliver first refl (omega arith)) refl (λ e. cc)) in
    let r3 = next r2 (works first [] joined.0 joined.1 refl refl) in
    let r4 = next r3 (ticks 0 flushed.0 flushed.1 refl) in
    next r4 (loops at_end (fetch second refl) refl (λ e. cc))

abbrev paid : Transaction
paid = record {
  id = pos 0;
  user_id = pos 1;
  type = "bet";
  amount = pos 525;
  timestamp = zero_time;
  created_at = zero_time;
}

listed : (get_transactions (some shop) (pos 0) none final.shared.world).0 ≡ ok (paid ∷ [])
unfolding on_message send receive load_or_store queue_of has_channel push drop_first
    partition_worker flush flush_batch one_by_one bulk_commit_loop bulk_attempts handle_message
    commit_loop commit observe_lag lag_ms dlq_loop trigger_fatal route_to_dlq payload_of
    process_message attempts pause_with_jitter sleep_backoff delay parse_and_validate to_domain
    amount_text unmarshal normalize meta_of classify root check_type validate is_zero parse
    parse_to_minor_units combine parse_parts parse_decimal parse_trimmed itoa parse_int split
    contains trim_space ◌+ℤ◌ ◌*ℤ◌ over register_transactions save_bulk get_transactions get scan_all
    transaction_of get_statement join bulk_statement collect placeholders
listed = refl

no_rows-HasLanded : HasLanded shop shop-IsPostgres start.world start.trace
no_rows-HasLanded t h = absurd h

start-IsSound : IsSound wired start
start-IsSound h = absurd (h refl)

wired-IsUsable : IsUsable wired.cfg
unfolding over
wired-IsUsable = normalize-IsUsable sparse

enough : wired-IsPatient.patience start.world < wired.fuel
unfolding over
enough = omega arith

not_cancelled : wired.outside.app_err final.shared.world ≡ none
unfolding on_message send receive load_or_store queue_of has_channel push drop_first
    partition_worker flush flush_batch one_by_one bulk_commit_loop bulk_attempts handle_message
    commit_loop commit observe_lag lag_ms dlq_loop trigger_fatal route_to_dlq payload_of
    process_message attempts pause_with_jitter sleep_backoff delay parse_and_validate to_domain
    amount_text unmarshal normalize meta_of classify root check_type validate is_zero parse
    parse_to_minor_units combine parse_parts parse_decimal parse_trimmed itoa parse_int split
    contains trim_space ◌+ℤ◌ ◌*ℤ◌ over register_transactions save_bulk
not_cancelled = refl

Reach-Landed_example : Landed shop shop-IsPostgres wired (paid ∷ []) final 0
Reach-Landed_example =
    Reach-Landed shop shop-IsPostgres processor wired-IsLawful wired-IsPatient Undisturbed
      Undisturbed-IsHarmless wired-IsUsable calm_outside-IsAside
      (λ v w k e h. subst (λ (x : Shop). shop-IsPostgres.IsRow k x) e h) start final (paid ∷ [])
      enough (omega arith, omega arith) tt start-IsSound no_rows-HasLanded runs not_cancelled listed
      0
