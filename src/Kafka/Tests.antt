-- ===== src/Kafka/Tests.antt =====
-- A broker with an outage that ends and a database that fails now and then, and runs against them.
mod Parts
mod Stopping
mod Runs
use casino_transaction_syste.Prelude.{
  ◌⊎◌, ℕ, ◌+◌, ◌-◌, ◌*◌, ◌^◌, ◌↔◌, ltb, ◌<◌, ◌≡◌, ◌≢◌, ◌==◌, refl, Bool, true, false, if◌then◌else◌,
  Option, none, some, List, [], ◌∷◌, Bytes, codes, ok, arith,
}
use casino_transaction_syste.Prelude.Int.{pos, negsuc, ◌≤ℤ◌}
use casino_transaction_syste.Go.Strings.{trim_space, contains, split}
use casino_transaction_syste.Go.Strconv.{parse_int}
use casino_transaction_syste.Money.{
  parse_trimmed, parse_decimal, parse_parts, combine, parse_to_minor_units,
}
use casino_transaction_syste.Config.{Kafka, default_kafka}
use casino_transaction_syste.TimeUtil.{zero_time, parse}
use casino_transaction_syste.Domain.{Transaction, validate, check_type}
use casino_transaction_syste.Domain.Valid.{IsValid, validate-IsValid}
use casino_transaction_syste.Kafka.Decode.Checked.{parse_and_validate-IsValid}
use casino_transaction_syste.Kafka.Consumer.Backoff.{delay, max_retry_delay}
use casino_transaction_syste.Kafka.Bounds.{delay-le, delay-exact}
use casino_transaction_syste.Errors.{GoError, canceled, db_unavailable, other}
use casino_transaction_syste.Kafka.Settings.{
  normalize, IsUsable, normalize-IsUsable, normalize_idem, normalize-default_kafka,
}
use casino_transaction_syste.Kafka.Message.{Message}
use casino_transaction_syste.Kafka.Dto.{RawTransaction, unmarshal, amount_text, to_domain}
use casino_transaction_syste.Kafka.Decode.{Codec, parse_and_validate}
use casino_transaction_syste.Kafka.Outside.{Outside, IsLawful, IsPatient}
use casino_transaction_syste.Kafka.Consumer.State.{State, Wt}
use casino_transaction_syste.Kafka.Consumer.Config.{Consumer, parsed}
use casino_transaction_syste.Kafka.Consumer.Handle.{handle_message}
use casino_transaction_syste.Kafka.Consumer.Batch.{flush_batch}
use casino_transaction_syste.Kafka.Consumer.Worker.{
  Input, received, closed, ticked, no_messages, partition_worker,
}
use casino_transaction_syste.Kafka.Delivery.Evolution.{IsSound, IsCancelled}
use casino_transaction_syste.Kafka.Delivery.Serving.{taken}
use casino_transaction_syste.Kafka.Trace.{Extends}
use casino_transaction_syste.Kafka.Trace.Order.{InOrder}
use casino_transaction_syste.Kafka.Correctness.{
  Delivered, Carried, handle_message_delivers, flush_batch_delivers, partition_worker_delivers,
  partition_worker-InOrder,
}

-- How often the broker and the database still fail, and whether the context is cancelled.
pub record Site : Type 0 where
  pub broker : ℕ
  pub database : ℕ
  pub cancelled : Bool

abbrev failing : ℕ → GoError → Option GoError
failing n e = if n == 0 then none else some e

abbrev broker_call : Site → Option GoError × Site
broker_call w = (failing w.broker (other 7), record w { broker = w.broker - 1 })

abbrev database_call : Site → Option GoError × Site
database_call w = (failing w.database db_unavailable, record w { database = w.database - 1 })

abbrev site : Outside Site
site = record {
  register = λ t. database_call;
  register_all = λ ts. database_call;
  write_messages = λ k v. broker_call;
  commit_messages = λ ms. broker_call;
  app_err = λ w. if w.cancelled then some canceled else none;
  cancel = λ w. record w { cancelled = true };
  now = λ w. (zero_time, w);
  random = λ n w. (0, w);
  sleep = λ d w. w;
  wait = λ w. w;
  sha256_hex = λ b. b;
  marshal = λ p. ok p.key;
  beyond_int64 = λ n. pos 0;
}

pub canceled_some : some canceled ≢ none
canceled_some p = cc

abbrev pub site-IsLawful : IsLawful site
site-IsLawful = record {
  register_cancelled = λ t w h. h;
  register_all_cancelled = λ ts w h. h;
  write_messages_cancelled = λ k v w h. h;
  commit_messages_cancelled = λ ms w h. h;
  now_cancelled = λ w h. h;
  random_cancelled = λ n w h. h;
  sleep_cancelled = λ d w h. h;
  wait_cancelled = λ w h. h;
  cancel_cancels = λ w. canceled_some;
}

pub failing_less : (n : ℕ) (e e' : GoError) → failing n e ≡ some e' → n - 1 < n
failing_less n e e' h = ground arith

abbrev pub site-IsPatient : IsPatient site
site-IsPatient = record {
  patience = λ w. w.broker;
  register_patience = λ t w. omega arith;
  register_all_patience = λ ts w. omega arith;
  write_patience = λ k v w. omega arith;
  write_fails = λ k v w e h. failing_less w.broker (other 7) e h;
  commit_patience = λ ms w. omega arith;
  commit_fails = λ ms w e h. failing_less w.broker (other 7) e h;
  now_patience = λ w. omega arith;
  random_patience = λ n w. omega arith;
  sleep_patience = λ d w. omega arith;
  wait_patience = λ w. omega arith;
  cancel_patience = λ w. omega arith;
  marshals = λ p. (p.key, refl);
}

-- Settings as they come from a file that leaves most of them out.
abbrev pub sparse : Kafka
sparse = record {
  brokers = "localhost:9092" ∷ [];
  topic = "transactions";
  group_id = "processor";
  process_timeout_ms = pos 0;
  retry_base_delay_ms = pos 0;
  retry_jitter_ms = pos 0;
  max_process_retries = negsuc 0;
  dlq_topic = "";
  metrics_flush_sec = pos 0;
  shutdown_drain_timeout_sec = pos 0;
  batch_size = pos 2;
  batch_flush_interval_sec = negsuc 4;
}

-- A decoder that takes every payload but the empty one for a bet of user 1.
abbrev bet_of : Bytes → Option RawTransaction
bet_of [] = none
bet_of (d ∷ s) = some (record { user_id = pos 1; type = "bet"; amount = d ∷ s; timestamp = [] })

abbrev pub bets : Codec
bets = record {
  json = record { decode_raw = bet_of; decode_string = λ s. some s; decode_number = λ s. some s };
  parse_in_utc = λ l s. none;
}

abbrev pub processor : Consumer Site
processor = record {
  outside = site;
  codec = bets;
  cfg = normalize sparse;
  has_writer = true;
  fuel = 4;
}

abbrev pub message : ℕ → Bytes → Message
message offset value = record {
  topic = "transactions";
  partition = 0;
  offset = offset;
  key = codes "1";
  value = value;
  headers = [];
  time = zero_time;
}

abbrev pub valid_message : Message
valid_message = message 0 (codes "5.25")

abbrev pub empty_message : Message
empty_message = message 1 []

abbrev pub paid : Transaction
paid = record {
  id = pos 0;
  user_id = pos 1;
  type = "bet";
  amount = pos 525;
  timestamp = zero_time;
  created_at = zero_time;
}

-- Three calls of the broker fail, and one of the database.
abbrev pub start : State Site
start = record {
  world = record { broker = 3; database = 1; cancelled = false };
  inflight = pos 0;
  fatal = none;
  trace = [];
  metrics = [];
}

abbrev inputs : List Input
inputs =
    received valid_message ∷ ticked ∷ received empty_message ∷ received valid_message ∷ closed ∷ []

pub start-IsSound : IsSound processor start
start-IsSound h = absurd (h refl)

pub valid_message-paid : parsed processor valid_message ≡ ok paid
unfolding parse_and_validate unmarshal amount_text to_domain parse parse_to_minor_units
    parse_trimmed parse_decimal parse_parts combine trim_space contains split parse_int validate
    check_type
valid_message-paid = refl

handle_message_delivers_example :
    Wt
      (handle_message processor valid_message start)
      (λ _ s'. Delivered processor (valid_message ∷ []) start s')
handle_message_delivers_example =
    handle_message_delivers processor site-IsLawful site-IsPatient (normalize-IsUsable sparse)
      valid_message start (omega arith) tt start-IsSound

flush_batch_delivers_example :
    Wt
      (flush_batch processor (valid_message ∷ []) (paid ∷ []) start)
      (λ _ s'. Delivered processor (valid_message ∷ []) start s')
flush_batch_delivers_example =
    flush_batch_delivers processor site-IsLawful site-IsPatient (normalize-IsUsable sparse)
      (valid_message ∷ []) (paid ∷ []) start (valid_message-paid, tt) (omega arith)
      (omega arith, omega arith) tt start-IsSound

partition_worker_delivers_example :
    Wt
      (partition_worker processor inputs no_messages start)
      (λ b' s'. Carried processor [] (taken inputs) b' start s')
partition_worker_delivers_example =
    partition_worker_delivers processor site-IsLawful site-IsPatient (normalize-IsUsable sparse)
      inputs no_messages start tt (omega arith) (omega arith, omega arith) tt start-IsSound

partition_worker-InOrder_example :
    Wt (partition_worker processor inputs no_messages start) (λ b' s'.
      IsCancelled processor s'.world
      ⊎ Extends (InOrder (parsed processor) (taken inputs)) start.trace s'.trace)
partition_worker-InOrder_example =
    partition_worker-InOrder processor site-IsLawful site-IsPatient (normalize-IsUsable sparse) []
      inputs no_messages start tt (omega arith) (omega arith, omega arith) start-IsSound tt
