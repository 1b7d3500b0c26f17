-- ===== src/Kafka/Interference.antt =====
-- What moves the world while a method runs: the other workers, the fetch loop, signals and other users of
-- the database, before and behind every call that the method makes.
mod Tests
use casino_transaction_syste.Prelude.{ℕ, suc, ◌≤◌, ◌<◌, ◌≡◌, ◌≢◌, none, arith}
use casino_transaction_syste.Prelude.Int.{IsInt64}
use casino_transaction_syste.Kafka.Settings.{IsUsable}
use casino_transaction_syste.Kafka.Outside.{Outside, IsLawful, IsPatient}
use casino_transaction_syste.Kafka.Consumer.State.{State}
use casino_transaction_syste.Kafka.Consumer.Config.{Consumer, parsed}
use casino_transaction_syste.Kafka.Trace.{IsSafe}
use casino_transaction_syste.Kafka.Delivery.Evolution.{IsSound}
use casino_transaction_syste.Kafka.System.{System, begin, Reach}
use casino_transaction_syste.Kafka.System.Steps.{IsHarmless}
use casino_transaction_syste.Kafka.System.Complete.{IsKept, Reach-IsKept}

-- What the others do before and behind the call with this number.
pub record Others (W : Type 0) : Type 0 where
  pub before : ℕ → W → W
  pub behind : ℕ → W → W

-- The world with the number of calls so far.
abbrev pub Counted : Type 0 → Type 0
Counted W = W × ℕ

module _ {W : Type 0} (others : Others W) where
  module _ {A : Type 0} where
    abbrev around : (W → A × W) → Counted W → A × Counted W
    around f (w, n) = let (a, v) = f (others.before n w) in (a, (others.behind n v, suc n))

  abbrev between : (W → W) → Counted W → Counted W
  between f (w, n) = (others.behind n (f (others.before n w)), suc n)

  abbrev pub disturbed : Outside W → Outside (Counted W)
  disturbed o = record {
    register = λ t. around (o.register t);
    register_all = λ ts. around (o.register_all ts);
    write_messages = λ k v. around (o.write_messages k v);
    commit_messages = λ ms. around (o.commit_messages ms);
    app_err = λ w. o.app_err w.0;
    cancel = between o.cancel;
    now = around o.now;
    random = λ n. around (o.random n);
    sleep = λ d. between (o.sleep d);
    wait = between o.wait;
    sha256_hex = o.sha256_hex;
    marshal = o.marshal;
    beyond_int64 = o.beyond_int64;
  }

  abbrev pub among : Consumer W → Consumer (Counted W)
  among c = record {
    outside = disturbed c.outside;
    codec = c.codec;
    cfg = c.cfg;
    has_writer = c.has_writer;
    fuel = c.fuel;
  }

  -- The same for what happens between the steps.
  abbrev pub Lifted : (W → W → Type 0) → Counted W → Counted W → Type 0
  Lifted elsewhere v w = elsewhere v.0 w.0

  -- No move of the others ends a cancellation or adds failures to come.
  pub record IsGentle (o : Outside W) (patience : W → ℕ) : Type 0 where
    pub before_stays : (n : ℕ) (w : W) → o.app_err w ≢ none → o.app_err (others.before n w) ≢ none
    pub behind_stays : (n : ℕ) (w : W) → o.app_err w ≢ none → o.app_err (others.behind n w) ≢ none
    pub before_patience : (n : ℕ) (w : W) → patience (others.before n w) ≤ patience w
    pub behind_patience : (n : ℕ) (w : W) → patience (others.behind n w) ≤ patience w

module _ {W : Type 0} (others : Others W) (o : Outside W) (law : IsLawful o) (calm : IsPatient o)
    (gentle : IsGentle others o calm.patience) where
  module _ (f : W → W) (stays : (w : W) → o.app_err w ≢ none → o.app_err (f w) ≢ none) where
    around-stays :
        (w : W) (n : ℕ)
        → o.app_err w ≢ none
        → o.app_err (others.behind n (f (others.before n w))) ≢ none
    around-stays w n h =
        gentle.behind_stays n (f (others.before n w))
          (stays (others.before n w) (gentle.before_stays n w h))

  module _ (f : W → W) (less : (w : W) → calm.patience (f w) ≤ calm.patience w) where
    around-patience :
        (w : W) (n : ℕ) → calm.patience (others.behind n (f (others.before n w))) ≤ calm.patience w
    around-patience w n = omega (
      arith,
      gentle.behind_patience n (f (others.before n w)),
      less (others.before n w),
      gentle.before_patience n w,
    )

  -- A failure still uses up one of those to come.
  fails :
      (w v : W) (n : ℕ)
      → calm.patience v < calm.patience (others.before n w)
      → calm.patience (others.behind n v) < calm.patience w
  fails w v n h = omega (arith, gentle.behind_patience n v, h, gentle.before_patience n w)

  disturbed-IsLawful : IsLawful (disturbed others o)
  disturbed-IsLawful = record {
    register_cancelled =
        λ t w. around-stays (λ v. (o.register t v).1) (law.register_cancelled t) w.0 w.1;
    register_all_cancelled =
        λ ts w. around-stays (λ v. (o.register_all ts v).1) (law.register_all_cancelled ts) w.0 w.1;
    write_messages_cancelled = λ k x w.
        around-stays (λ v. (o.write_messages k x v).1) (law.write_messages_cancelled k x) w.0 w.1;
    commit_messages_cancelled = λ ms w.
        around-stays (λ v. (o.commit_messages ms v).1) (law.commit_messages_cancelled ms) w.0 w.1;
    now_cancelled = λ w. around-stays (λ v. (o.now v).1) law.now_cancelled w.0 w.1;
    random_cancelled = λ n w. around-stays (λ v. (o.random n v).1) (law.random_cancelled n) w.0 w.1;
    sleep_cancelled = λ d w. around-stays (o.sleep d) (law.sleep_cancelled d) w.0 w.1;
    wait_cancelled = λ w. around-stays o.wait law.wait_cancelled w.0 w.1;
    cancel_cancels = λ w.
        gentle.behind_stays w.1 (o.cancel (others.before w.1 w.0))
          (law.cancel_cancels (others.before w.1 w.0));
  }

  disturbed-IsPatient : IsPatient (disturbed others o)
  disturbed-IsPatient = record {
    patience = λ w. calm.patience w.0;
    register_patience =
        λ t w. around-patience (λ v. (o.register t v).1) (calm.register_patience t) w.0 w.1;
    register_all_patience = λ ts w.
        around-patience (λ v. (o.register_all ts v).1) (calm.register_all_patience ts) w.0 w.1;
    write_patience = λ k x w.
        around-patience (λ v. (o.write_messages k x v).1) (calm.write_patience k x) w.0 w.1;
    write_fails = λ k x w e h.
        fails w.0 (o.write_messages k x (others.before w.1 w.0)).1 w.1
          (calm.write_fails k x (others.before w.1 w.0) e h);
    commit_patience =
        λ ms w. around-patience (λ v. (o.commit_messages ms v).1) (calm.commit_patience ms) w.0 w.1;
    commit_fails = λ ms w e h.
        fails w.0 (o.commit_messages ms (others.before w.1 w.0)).1 w.1
          (calm.commit_fails ms (others.before w.1 w.0) e h);
    now_patience = λ w. around-patience (λ v. (o.now v).1) calm.now_patience w.0 w.1;
    random_patience =
        λ n w. around-patience (λ v. (o.random n v).1) (calm.random_patience n) w.0 w.1;
    sleep_patience = λ d w. around-patience (o.sleep d) (calm.sleep_patience d) w.0 w.1;
    wait_patience = λ w. around-patience o.wait calm.wait_patience w.0 w.1;
    cancel_patience = λ w. around-patience o.cancel calm.cancel_patience w.0 w.1;
    marshals = calm.marshals;
  }

-- What Kafka.System.Complete.Reach-IsKept says of the loop and the workers of Start holds as well where,
-- while a worker is within one message, the others move the world before and behind each of its calls,
-- so long as they end no cancellation and add no failures to come.
pub Reach-IsKept-among :
    {W : Type 0} (c : Consumer W) (law : IsLawful c.outside) (calm : IsPatient c.outside)
    (others : Others W) (gentle : IsGentle others c.outside calm.patience)
    (elsewhere : W → W → Type 0) (harmless : IsHarmless c calm.patience elsewhere)
    (usable : IsUsable c.cfg) (from : State (Counted W)) (s : System (Counted W))
    → calm.patience from.world.0 < c.fuel
    → IsInt64 from.inflight
    → IsSafe (parsed c) from.trace
    → IsSound (among others c) from
    → Reach (among others c) (Lifted others elsewhere) (begin from) s
    → IsKept (among others c) from s
unfolding disturbed-IsPatient
Reach-IsKept-among c law calm others gentle elsewhere harmless usable from s =
    Reach-IsKept (among others c) (disturbed-IsLawful others c.outside law calm gentle)
      (disturbed-IsPatient others c.outside law calm gentle) (Lifted others elsewhere)
      (record { stays = λ v w. harmless.stays v.0 w.0; less = λ v w. harmless.less v.0 w.0 }) usable
      from s
