-- ===== src/Kafka/Delivery/Evolution.antt =====
-- What one call leaves to the next: the trace, the context, the fatal error and the inflight counter.
use casino_transaction_syste.Prelude.{ℕ, ◌≡◌, ◌≢◌, refl, ap, ◌∙◌, none, List}
use casino_transaction_syste.Prelude.Int.{ℤ, pos, pos_part, ◌+ℤ◌, ◌*ℤ◌}
use casino_transaction_syste.Kafka.Outside.{IsLawful}
use casino_transaction_syste.Kafka.Consumer.State.{State, Action, Metric, Wp}
use casino_transaction_syste.Kafka.Consumer.Config.{Consumer, parsed, now}
use casino_transaction_syste.Kafka.Consumer.Backoff.{delay, sleep_backoff, pause_with_jitter}
use casino_transaction_syste.Kafka.Message.{Message}
use casino_transaction_syste.Kafka.Trace.Order.{CommitsAll, Extends-CommitsAll}
use casino_transaction_syste.Kafka.Trace.{
  IsQuiet, Extends, same, Extends-trans, Extends-weaken, Anything,
}

module _ {W : Type 0} (c : Consumer W) where
  abbrev pub IsCancelled : W → Type 0
  IsCancelled w = c.outside.app_err w ≢ none

  -- A fatal error has cancelled the context.
  abbrev pub IsSound : State W → Type 0
  IsSound s = s.fatal ≢ none → IsCancelled s.world

  pub record Evolves (P : List Action → Action → Type 0) (s s' : State W) : Type 0 where
    pub extends : Extends P s.trace s'.trace
    pub inflight : s'.inflight ≡ s.inflight
    pub stays : IsCancelled s.world → IsCancelled s'.world
    pub sound : IsSound s → IsSound s'

module _ {W : Type 0} {c : Consumer W} {P : List Action → Action → Type 0} where
  pub Evolves-refl : (s : State W) → Evolves c P s s
  Evolves-refl s = record { extends = same; inflight = refl; stays = λ h. h; sound = λ h. h }

  pub Evolves-trans : {s t u : State W} → Evolves c P s t → Evolves c P t u → Evolves c P s u
  Evolves-trans a b = record {
    extends = Extends-trans a.extends b.extends;
    inflight = b.inflight ∙ a.inflight;
    stays = λ h. b.stays (a.stays h);
    sound = λ h. b.sound (a.sound h);
  }

  pub Evolves-weaken : {s t : State W} → Evolves c P s t → Evolves c Anything s t
  Evolves-weaken a = record {
    extends = Extends-weaken a.extends;
    inflight = a.inflight;
    stays = a.stays;
    sound = a.sound;
  }

  -- A call of the metrics sink changes nothing else.
  pub Evolves-metrics : (s : State W) (ms : List Metric) → Evolves c P s (record s { metrics = ms })
  Evolves-metrics s ms = record { extends = same; inflight = refl; stays = λ h. h; sound = λ h. h }

  -- What runs between two changes of the inflight counter that cancel out.
  pub Evolves-bracket :
      (s u : State W) (a b : ℤ)
      → s.inflight +ℤ a +ℤ b ≡ s.inflight
      → Evolves c P (record s { inflight = s.inflight +ℤ a }) u
      → Evolves c P s (record u { inflight = u.inflight +ℤ b })
  Evolves-bracket s u a b cancel ev = record {
    extends = ev.extends;
    inflight = ap (λ (n : ℤ). n +ℤ b) ev.inflight ∙ cancel;
    stays = ev.stays;
    sound = ev.sound;
  }

module _ {W : Type 0} {c : Consumer W} where
  -- What commits nothing commits only what is asked for.
  pub Evolves-CommitsAll :
      (ms : List Message) {s t : State W}
      → Evolves c IsQuiet s t
      → Evolves c (CommitsAll (parsed c) ms) s t
  Evolves-CommitsAll ms a = record {
    extends = Extends-CommitsAll (parsed c) ms a.extends;
    inflight = a.inflight;
    stays = a.stays;
    sound = a.sound;
  }

module _ {W : Type 0} (c : Consumer W) (law : IsLawful c.outside)
    (P : List Action → Action → Type 0) where
  pub now-Evolves : (s : State W) → Wp (now c s) (λ _ s'. Evolves c P s s')
  now-Evolves s = record {
    extends = same;
    inflight = refl;
    stays = law.now_cancelled s.world;
    sound = λ h f. law.now_cancelled s.world (h f);
  }

  pub sleep_backoff-Evolves :
      (attempt : ℕ) (s : State W) → Wp (sleep_backoff c attempt s) (λ _ s'. Evolves c P s s')
  unfolding sleep_backoff
  sleep_backoff-Evolves attempt s =
      let (jitter, w) =
        c.outside.random (pos_part (c.cfg.retry_jitter_ms *ℤ pos 1000000)) s.world in
      let waited =
        delay c.outside.beyond_int64 (pos_part c.cfg.retry_base_delay_ms) attempt jitter in
      let stays : IsCancelled c s.world → IsCancelled c (c.outside.sleep waited w) =
        λ h. law.sleep_cancelled waited w (law.random_cancelled _ s.world h) in
      record { extends = same; inflight = refl; stays = stays; sound = λ h f. stays (h f) }

  pub pause_with_jitter-Evolves :
      (s : State W) → Wp (pause_with_jitter c s) (λ _ s'. Evolves c P s s')
  unfolding pause_with_jitter
  pause_with_jitter-Evolves s = sleep_backoff-Evolves 0 s
