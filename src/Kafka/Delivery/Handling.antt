-- ===== src/Kafka/Delivery/Handling.antt =====
-- `handleMessage` as a whole.
use casino_transaction_syste.Prelude.{
  ◌≤◌, ◌≡◌, refl, inl, inr, Bool, true, false, Option, none, some, [], ◌∷◌,
}
use casino_transaction_syste.Prelude.Int.{pos}
use casino_transaction_syste.TimeUtil.{Time, is_zero}
use casino_transaction_syste.Errors.{GoError}
use casino_transaction_syste.Kafka.Message.{Message}
use casino_transaction_syste.Kafka.Outside.{IsLawful}
use casino_transaction_syste.Kafka.Consumer.State.{
  State, M, ◌>>=◌, Metric, inc_counter, set_gauge, observe_duration, Wp, Wp-mono, Wp-continue,
}
use casino_transaction_syste.Kafka.Consumer.Config.{Consumer, rounds, parsed, now}
use casino_transaction_syste.Kafka.Consumer.Process.{process_message}
use casino_transaction_syste.Kafka.Consumer.DeadLetter.{DlqEnd, routed, stopped, dlq_loop}
use casino_transaction_syste.Kafka.Consumer.Handle.{
  lag_unless, observe_lag, labels_for, after_dlq, on_failure, after_processing, handle_message,
}
use casino_transaction_syste.Kafka.Trace.{IsSettled, IsQuiet, IsSafe-Extends}
use casino_transaction_syste.Kafka.Delivery.Evolution.{
  IsCancelled, IsSound, Evolves, Evolves-refl, Evolves-trans, Evolves-CommitsAll, Evolves-metrics,
  now-Evolves,
}
use casino_transaction_syste.Kafka.Delivery.Processing.{
  is_shutdown, Attempted, process_message-Attempted,
}
use casino_transaction_syste.Kafka.Delivery.Routing.{Routed, dlq_loop-Routed}
use casino_transaction_syste.Kafka.Delivery.Committing.{
  Handled, Ready, Ready-metrics, commit_loop-Handled,
}

module _ {W : Type 0} (c : Consumer W) (law : IsLawful c.outside) (msg : Message) where
  Ready-of_Evolves :
      {s s' : State W}
      → Evolves c IsQuiet s s'
      → IsSettled (parsed c) s'.trace msg
      → Ready c law msg s s'
  Ready-of_Evolves ev h = record {
    evolves = Evolves-CommitsAll (msg ∷ []) ev;
    safe = IsSafe-Extends (parsed c) ev.extends;
    settled = h;
  }

  module _ (s : State W) where
    -- A return without a commit, under a cancelled context.
    Handled-shutdown :
        {s' : State W}
        → Evolves c IsQuiet s s'
        → (IsSound c s → IsCancelled c s'.world)
        → Handled c s msg s'
    Handled-shutdown ev h = record {
      evolves = Evolves-CommitsAll (msg ∷ []) ev;
      safe = IsSafe-Extends (parsed c) ev.extends;
      complete = λ sound up. absurd (h sound up);
    }

    after_dlq-Handled :
        (s' u : State W) (end : DlqEnd)
        → Evolves c IsQuiet s s'
        → Routed c s' msg end u
        → Wp (after_dlq c msg end u) (λ _. Handled c s msg)
    after_dlq-Handled s' u stopped ev r =
        Handled-shutdown (Evolves-trans ev r.evolves) (λ h. r.shutdown refl (ev.sound h))
    after_dlq-Handled s' u routed ev r =
        let m : Metric =
          inc_counter "kafka_consumer_messages_total" (labels_for msg "dlq") (pos 1) in
        let ready : Ready c law msg s u =
          Ready-of_Evolves (Evolves-trans ev r.evolves) (inr (r.accepted refl)) in
        commit_loop-Handled c law msg s c.fuel (record u { metrics = m ∷ u.metrics })
          (Ready-metrics c law msg u (m ∷ u.metrics) ready)

    on_failure-Handled :
        (started : Time) (e : GoError) (b : Bool) (s' : State W)
        → Evolves c IsQuiet s s'
        → (b ≡ true → IsCancelled c s'.world)
        → Wp (on_failure c msg started e b s') (λ _. Handled c s msg)
    on_failure-Handled started e true s' ev h = Handled-shutdown ev (λ _. h refl)
    on_failure-Handled started e false s' ev h =
        let (t, w) = c.outside.now s'.world in
        let timed : Metric =
          observe_duration "kafka_consumer_processing_duration_ms" (("result", "failed") ∷ [])
            started t in
        let failed : Metric =
          inc_counter "kafka_consumer_messages_total" (labels_for msg "failed") (pos 1) in
        let read : State W = record s' { world = w } in
        let s'' : State W = record read { metrics = failed ∷ timed ∷ s'.metrics } in
        let ev' : Evolves c IsQuiet s s'' =
          Evolves-trans (Evolves-trans ev (now-Evolves c law IsQuiet s'))
            (Evolves-metrics read s''.metrics) in
        Wp-continue (dlq_loop c c.fuel msg e s'') (after_dlq c msg) (λ _. Handled c s msg)
          (Wp-mono (dlq_loop c c.fuel msg e s'') (λ end u r. after_dlq-Handled s'' u end ev' r)
            (dlq_loop-Routed c law s'' msg c.fuel e))

    module _ (some_round : 1 ≤ rounds c) where
      after_processing-Handled :
          (started : Time) (s' : State W) (r : Option GoError) (u : State W)
          → Evolves c IsQuiet s s'
          → Attempted c law some_round msg s' r u
          → Wp (after_processing c msg started r u) (λ _. Handled c s msg)
      after_processing-Handled started s' (some e) u ev a =
          on_failure-Handled started e (is_shutdown e) u (Evolves-trans ev a.evolves)
            (a.shutdown e refl)
      after_processing-Handled started s' none u ev a =
          let (t, w) = c.outside.now u.world in
          let gauge : Metric = set_gauge "consumer_last_success_unix" [] t.seconds in
          let read : State W = record u { world = w; metrics = gauge ∷ u.metrics } in
          let (t', w') = c.outside.now w in
          let timed : Metric =
            observe_duration "kafka_consumer_processing_duration_ms" (("result", "processed") ∷ [])
              started t' in
          let processed : Metric =
            inc_counter "kafka_consumer_messages_total" (labels_for msg "processed") (pos 1) in
          let read' : State W = record read { world = w' } in
          let v : State W = record read' { metrics = processed ∷ timed ∷ read.metrics } in
          let clock : Evolves c IsQuiet u read =
            Evolves-trans (now-Evolves c law IsQuiet u)
              (Evolves-metrics (record u { world = w }) read.metrics) in
          let clock' : Evolves c IsQuiet read v =
            Evolves-trans (now-Evolves c law IsQuiet read) (Evolves-metrics read' v.metrics) in
          commit_loop-Handled c law msg s c.fuel v (
            Ready-of_Evolves
              (Evolves-trans (Evolves-trans ev a.evolves) (Evolves-trans clock clock'))
              (inl (a.accepted refl)))

      lag_unless-Evolves :
          (b : Bool) (s' : State W) → Wp (lag_unless c b msg s') (λ _ u. Evolves c IsQuiet s' u)
      lag_unless-Evolves true s' = Evolves-refl s'
      lag_unless-Evolves false s' =
          let (t, w) = c.outside.now s'.world in
          Evolves-trans (now-Evolves c law IsQuiet s') (Evolves-metrics (record s' { world = w }) _)

      after_lag :
          (u : State W)
          → Evolves c IsQuiet s u
          → Wp
              ((now c >>= λ started. process_message c msg >>= after_processing c msg started) u)
              (λ _. Handled c s msg)
      after_lag u ev =
          let (started, w) = c.outside.now u.world in
          let v : State W = record u { world = w } in
          Wp-continue (process_message c msg v) (after_processing c msg started)
            (λ _. Handled c s msg)
            (Wp-mono (process_message c msg v)
              (λ r x a.
                after_processing-Handled started v r x
                  (Evolves-trans ev (now-Evolves c law IsQuiet u)) a)
              (process_message-Attempted c law some_round msg v))

      -- However the handling of a message ends: every commit that it adds is of a settled message; and
      -- if the context is not cancelled at the end, the message is settled and its commit accepted.
      pub handle_message-Handled : Wp (handle_message c msg s) (λ _. Handled c s msg)
      unfolding handle_message observe_lag
      handle_message-Handled =
          let rest : Unit {0} → M W (Unit {0}) =
            λ _. now c >>= λ started. process_message c msg >>= after_processing c msg started in
          Wp-continue (lag_unless c (is_zero msg.time) msg s) rest (λ _. Handled c s msg)
            (Wp-mono (lag_unless c (is_zero msg.time) msg s) (λ _ u ev. after_lag u ev)
              (lag_unless-Evolves (is_zero msg.time) s))
