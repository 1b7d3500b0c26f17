-- ===== src/Kafka/Delivery/Routing.antt =====
-- `routeToDLQ` and the loop round it.
use casino_transaction_syste.Prelude.{
  ℕ, zero, suc, ◌≡◌, refl, inl, Bool, true, false, Option, none, some, List, [], ◌∷◌, Bytes, Result,
  ok, err,
}
use casino_transaction_syste.Prelude.Int.{pos}
use casino_transaction_syste.Errors.{GoError, wrapped, as_non_retryable}
use casino_transaction_syste.Kafka.Message.{Message}
use casino_transaction_syste.Kafka.Outside.{IsLawful}
use casino_transaction_syste.Kafka.Consumer.State.{
  State, M, Action, Metric, inc_counter, dead_lettered, Wp, Wp-mono, Wp-continue,
}
use casino_transaction_syste.Kafka.Consumer.Config.{Consumer}
use casino_transaction_syste.Kafka.Consumer.Backoff.{pause_with_jitter}
use casino_transaction_syste.Kafka.Consumer.DeadLetter.{
  DlqEnd, routed, stopped, payload_of, count_written, write_encoded, route_with, route_to_dlq,
  fatal_once, trigger_fatal, dlq_unless_done, dlq_by_kind, dlq_judge, dlq_loop,
}
use casino_transaction_syste.Kafka.Trace.{IsDeadLettered, IsQuiet, same, more}
use casino_transaction_syste.Kafka.Delivery.Evolution.{
  IsCancelled, IsSound, Evolves, Evolves-refl, Evolves-trans, Evolves-metrics, now-Evolves,
  pause_with_jitter-Evolves,
}

module _ {W : Type 0} (c : Consumer W) where
  pub record Written (s : State W) (msg : Message) (r : Option GoError) (s' : State W)
      : Type 0 where
    pub evolves : Evolves c IsQuiet s s'
    pub accepted : r ≡ none → IsDeadLettered msg s'.trace

  pub record Routed (s : State W) (msg : Message) (end : DlqEnd) (s' : State W) : Type 0 where
    pub evolves : Evolves c IsQuiet s s'
    pub accepted : end ≡ routed → IsDeadLettered msg s'.trace
    pub shutdown : end ≡ stopped → IsSound c s → IsCancelled c s'.world

module _ {W : Type 0} (c : Consumer W) (law : IsLawful c.outside) (s : State W)
    (msg : Message) where
  count_written-Written :
      (r : Option GoError) (s' : State W)
      → Evolves c IsQuiet s s'
      → (r ≡ none → IsDeadLettered msg s'.trace)
      → Wp (count_written c r s') (Written c s msg)
  count_written-Written (some e) s' ev h = record { evolves = ev; accepted = h }
  count_written-Written none s' ev h =
      let written : Metric =
        inc_counter "kafka_consumer_dlq_total" (("result", "success") ∷ []) (pos 1) in
      record {
        evolves = Evolves-trans ev (Evolves-metrics s' (written ∷ s'.metrics));
        accepted = h;
      }

  IsDeadLettered-accepted :
      (r : Option GoError) (past : List Action)
      → r ≡ none
      → IsDeadLettered msg (dead_lettered msg r ∷ past)
  IsDeadLettered-accepted none past h = inl refl
  IsDeadLettered-accepted (some e) past h = cc

  write_encoded-Written :
      (raw : Result GoError Bytes) (s' : State W)
      → Evolves c IsQuiet s s'
      → Wp (write_encoded c msg raw s') (Written c s msg)
  write_encoded-Written (err e) s' ev = record { evolves = ev; accepted = λ p. cc }
  write_encoded-Written (ok raw) s' ev =
      let (r, w) = c.outside.write_messages msg.key raw s'.world in
      let s'' : State W = record s' { world = w; trace = dead_lettered msg r ∷ s'.trace } in
      let wrote : Evolves c IsQuiet s' s'' = record {
        extends = more tt same;
        inflight = refl;
        stays = law.write_messages_cancelled msg.key raw s'.world;
        sound = λ k f. law.write_messages_cancelled msg.key raw s'.world (k f);
      } in
      count_written-Written r s'' (Evolves-trans ev wrote) (IsDeadLettered-accepted r s'.trace)

  route_with-Written :
      (b : Bool) (e : GoError) (s' : State W)
      → Evolves c IsQuiet s s'
      → Wp (route_with c b msg e s') (Written c s msg)
  route_with-Written false e s' ev = record { evolves = ev; accepted = λ p. cc }
  route_with-Written true e s' ev =
      let (t, w) = c.outside.now s'.world in
      write_encoded-Written (c.outside.marshal (payload_of c msg e t)) (record s' { world = w })
        (Evolves-trans ev (now-Evolves c law IsQuiet s'))

  module _ (again : M W DlqEnd)
      (next : (s' : State W) → Evolves c IsQuiet s s' → Wp (again s') (Routed c s msg)) where
    dlq_unless_done-Routed :
        (done : Option GoError) (s' : State W)
        → c.outside.app_err s'.world ≡ done
        → Evolves c IsQuiet s s'
        → Wp (dlq_unless_done c again done s') (Routed c s msg)
    dlq_unless_done-Routed (some d) s' p ev = record {
      evolves = ev;
      accepted = λ q. cc;
      shutdown = λ q h. cc;
    }
    dlq_unless_done-Routed none s' p ev =
        Wp-continue (pause_with_jitter c s') (λ _. again) (Routed c s msg)
          (Wp-mono (pause_with_jitter c s') (λ _ u paused. next u (Evolves-trans ev paused))
            (pause_with_jitter-Evolves c law IsQuiet s'))

    fatal_once-Routed :
        (e : GoError) (fatal : Option GoError) (s' : State W)
        → s'.fatal ≡ fatal
        → Evolves c IsQuiet s s'
        → Wp (fatal_once c e fatal s') (λ _ u. Routed c s msg stopped u)
    fatal_once-Routed e (some first) s' p ev = record {
      evolves = ev;
      accepted = λ q. cc;
      shutdown = λ q h. ev.sound h (λ r. cc);
    }
    fatal_once-Routed e none s' p ev =
        let cancelled : Evolves c IsQuiet s'
            (record s' { fatal = some e; world = c.outside.cancel s'.world }) =
          record {
            extends = same;
            inflight = refl;
            stays = λ h. law.cancel_cancels s'.world;
            sound = λ h f. law.cancel_cancels s'.world;
          } in
        record {
          evolves = Evolves-trans ev cancelled;
          accepted = λ q. cc;
          shutdown = λ q h. law.cancel_cancels s'.world;
        }

    dlq_by_kind-Routed :
        (e : GoError) (b : Bool) (s' : State W)
        → Evolves c IsQuiet s s'
        → Wp (dlq_by_kind c again e b s') (Routed c s msg)
    unfolding trigger_fatal
    dlq_by_kind-Routed e true s' ev =
        Wp-continue (fatal_once c (wrapped e) s'.fatal s') (λ _ u. some (stopped, u))
          (Routed c s msg) (fatal_once-Routed (wrapped e) s'.fatal s' refl ev)
    dlq_by_kind-Routed e false s' ev =
        dlq_unless_done-Routed (c.outside.app_err s'.world) s' refl ev

    dlq_judge-Routed :
        (r : Option GoError) (s' : State W)
        → Written c s msg r s'
        → Wp (dlq_judge c again r s') (Routed c s msg)
    dlq_judge-Routed none s' h = record {
      evolves = h.evolves;
      accepted = λ p. h.accepted refl;
      shutdown = λ p. cc;
    }
    dlq_judge-Routed (some e) s' h =
        let failed : Metric =
          inc_counter "kafka_consumer_dlq_total" (("result", "error") ∷ []) (pos 1) in
        dlq_by_kind-Routed e (as_non_retryable e) (record s' { metrics = failed ∷ s'.metrics })
          (Evolves-trans h.evolves (Evolves-metrics s' (failed ∷ s'.metrics)))

  dlq_loop_from :
      (fuel : ℕ) (e : GoError) (s' : State W)
      → Evolves c IsQuiet s s'
      → Wp (dlq_loop c fuel msg e s') (Routed c s msg)
  unfolding dlq_loop route_to_dlq
  dlq_loop_from zero e s' ev = tt
  dlq_loop_from (suc fuel) e s' ev =
      let again : M W DlqEnd = dlq_loop c fuel msg e in
      Wp-continue (route_with c c.has_writer msg e s') (dlq_judge c again) (Routed c s msg) (
        Wp-mono (route_with c c.has_writer msg e s')
          (λ r u written. dlq_judge-Routed again (λ v ev'. dlq_loop_from fuel e v ev') r u written)
          (route_with-Written c.has_writer e s' ev))

  pub dlq_loop-Routed : (fuel : ℕ) (e : GoError) → Wp (dlq_loop c fuel msg e s) (Routed c s msg)
  dlq_loop-Routed fuel e = dlq_loop_from fuel e s (Evolves-refl s)
