-- ===== src/Service/Landing/Sample.antt =====
-- A consumer with a broker that never fails, over a database that keeps its rows in a list.
use native.Mathlib.Nat.{le_refl}
use casino_transaction_syste.Prelude.{
  ◌≤◌, ◌≡◌, refl, sym, ◌≢◌, absurd, subst, true, if◌then◌else◌, Option, none, some, List, [], ◌∷◌,
  Bytes, ok, arith,
}
use casino_transaction_syste.Prelude.Int.{pos}
use casino_transaction_syste.Kafka.Delivery.Evolution.{IsCancelled}
use casino_transaction_syste.Kafka.System.Steps.{IsHarmless}
use casino_transaction_syste.Config.{Kafka}
use casino_transaction_syste.TimeUtil.{zero_time}
use casino_transaction_syste.Domain.{Transaction}
use casino_transaction_syste.Errors.{canceled}
use casino_transaction_syste.Repository.{save, save_bulk}
use casino_transaction_syste.Service.{register_transaction, register_transactions}
use casino_transaction_syste.Service.Composition.{over}
use casino_transaction_syste.Service.Table.Shop.{Shop, shop, shop-IsPostgres}
use casino_transaction_syste.Service.Landing.{IsAside}
use casino_transaction_syste.Kafka.Dto.{RawTransaction}
use casino_transaction_syste.Kafka.Settings.{normalize}
use casino_transaction_syste.Kafka.Outside.{Outside, IsLawful, IsPatient}
use casino_transaction_syste.Kafka.Consumer.Config.{Consumer}

-- A broker that never fails.
abbrev pub calm_outside : Outside Shop
calm_outside = record {
  register = λ t w. (none, w);
  register_all = λ ts w. (none, w);
  write_messages = λ k v w. (none, w);
  commit_messages = λ ms w. (none, w);
  app_err = λ w. if w.cancelled then some canceled else none;
  cancel = λ w. record w { cancelled = true };
  now = λ w. (zero_time, w);
  random = λ n w. (0, w);
  sleep = λ d w. w;
  wait = λ w. w;
  sha256_hex = λ b. b;
  marshal = λ p. ok p.key;
  beyond_int64 = λ n. pos 0;
}

abbrev bet_of : Bytes → Option RawTransaction
bet_of payload = some (record { user_id = pos 1; type = "bet"; amount = payload; timestamp = [] })

abbrev pub sparse : Kafka
sparse = record {
  brokers = "localhost:9092" ∷ [];
  topic = "transactions";
  group_id = "processor";
  process_timeout_ms = pos 0;
  retry_base_delay_ms = pos 0;
  retry_jitter_ms = pos 0;
  max_process_retries = pos 0;
  dlq_topic = "";
  metrics_flush_sec = pos 0;
  shutdown_drain_timeout_sec = pos 0;
  batch_size = pos 2;
  batch_flush_interval_sec = pos 0;
}

abbrev pub processor : Consumer Shop
processor = record {
  outside = calm_outside;
  codec = record {
    json = record { decode_raw = bet_of; decode_string = λ s. some s; decode_number = λ s. some s };
    parse_in_utc = λ l s. none;
  };
  cfg = normalize sparse;
  has_writer = true;
  fuel = 1;
}

abbrev pub wired : Consumer Shop
wired = over shop processor

pub none-some : {A : Type 0} {a : A} → ¬ (none ≡ some a)
none-some e = cc

-- Registering cancels nothing.
still :
    (ts : List Transaction) (w : Shop)
    → (register_transactions (some shop) ts w).1.cancelled ≡ w.cancelled
unfolding register_transactions save_bulk
still [] w = refl
still (t ∷ ts) w = refl

pub wired-IsLawful : IsLawful wired.outside
unfolding over register_transaction save
wired-IsLawful = record {
  register_cancelled = λ t w h. h;
  register_all_cancelled =
      λ ts w h. subst (λ b. (if b then some canceled else none) ≢ none) (sym (still ts w)) h;
  write_messages_cancelled = λ k v w h. h;
  commit_messages_cancelled = λ ms w h. h;
  now_cancelled = λ w h. h;
  random_cancelled = λ n w h. h;
  sleep_cancelled = λ d w h. h;
  wait_cancelled = λ w h. h;
  cancel_cancels = λ w p. cc;
}

abbrev pub wired-IsPatient : IsPatient wired.outside
unfolding over
wired-IsPatient = record {
  patience = λ w. 0;
  register_patience = λ t w. omega arith;
  register_all_patience = λ ts w. omega arith;
  write_patience = λ k v w. omega arith;
  write_fails = λ k v w e h. absurd (none-some h);
  commit_patience = λ ms w. omega arith;
  commit_fails = λ ms w e h. absurd (none-some h);
  now_patience = λ w. omega arith;
  random_patience = λ n w. omega arith;
  sleep_patience = λ d w. omega arith;
  wait_patience = λ w. omega arith;
  cancel_patience = λ w. omega arith;
  marshals = λ p. (p.key, refl);
}

pub calm_outside-IsAside : IsAside shop shop-IsPostgres calm_outside
unfolding shop-IsPostgres
calm_outside-IsAside = record {
  write_messages = λ k v w j h. h;
  commit_messages = λ ms w j h. h;
  cancel = λ w j h. h;
  now = λ w j h. h;
  random = λ n w j h. h;
  sleep = λ d w j h. h;
  wait = λ w j h. h;
}

-- Nothing happens elsewhere.
abbrev pub Undisturbed : Shop → Shop → Type 0
Undisturbed v w = v ≡ w

pub Undisturbed-IsHarmless : IsHarmless wired wired-IsPatient.patience Undisturbed
Undisturbed-IsHarmless = record {
  stays = λ v w e. subst (IsCancelled wired) e;
  less =
      λ v w e. subst (λ x. wired-IsPatient.patience x ≤ wired-IsPatient.patience v) e (le_refl _);
}
