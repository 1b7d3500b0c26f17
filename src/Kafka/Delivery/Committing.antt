-- ===== src/Kafka/Delivery/Committing.antt =====
-- The loop of `handleMessage` that commits a message.
use casino_transaction_syste.Prelude.{
  ℕ, zero, suc, ◌≡◌, refl, inl, Option, none, some, List, [], ◌∷◌,
}
use casino_transaction_syste.Prelude.Int.{pos}
use casino_transaction_syste.Errors.{GoError}
use casino_transaction_syste.Kafka.Message.{Message}
use casino_transaction_syste.Kafka.Outside.{IsLawful}
use casino_transaction_syste.Kafka.Consumer.State.{
  State, M, Action, Metric, inc_counter, committed, Wp, Wp-mono, Wp-continue,
}
use casino_transaction_syste.Kafka.Consumer.Config.{Consumer, parsed}
use casino_transaction_syste.Kafka.Consumer.Backoff.{pause_with_jitter}
use casino_transaction_syste.Kafka.Consumer.Handle.{
  count_commit, commit, commit_unless_done, commit_judge, commit_loop,
}
use casino_transaction_syste.Kafka.Trace.Order.{CommitsAll}
use casino_transaction_syste.Kafka.Trace.{
  IsSettled, IsSafe, IsCommitted, IsQuiet, same, more, IsSettled-Extends, IsSafe-Extends,
}
use casino_transaction_syste.Kafka.Delivery.Evolution.{
  IsCancelled, IsSound, Evolves, Evolves-trans, Evolves-CommitsAll, Evolves-metrics,
  pause_with_jitter-Evolves,
}

module _ {W : Type 0} (c : Consumer W) where
  -- What the handling of a message that began at `s` has done.
  pub record Handled (s : State W) (msg : Message) (s' : State W) : Type 0 where
    pub evolves : Evolves c (CommitsAll (parsed c) (msg ∷ [])) s s'
    pub safe : IsSafe (parsed c) s.trace → IsSafe (parsed c) s'.trace
    pub complete :
        IsSound c s
        → c.outside.app_err s'.world ≡ none
        → IsSettled (parsed c) s'.trace msg × IsCommitted msg s'.trace

module _ {W : Type 0} (c : Consumer W) (law : IsLawful c.outside) (msg : Message) where
  -- From a state where the message is settled, on the way to one that has been reached from `s`.
  pub record Ready (s s' : State W) : Type 0 where
    pub evolves : Evolves c (CommitsAll (parsed c) (msg ∷ [])) s s'
    pub safe : IsSafe (parsed c) s.trace → IsSafe (parsed c) s'.trace
    pub settled : IsSettled (parsed c) s'.trace msg

  pub Ready-metrics :
      {s : State W} (s' : State W) (ms : List Metric)
      → Ready s s'
      → Ready s (record s' { metrics = ms })
  Ready-metrics s' ms r = record {
    evolves = Evolves-trans r.evolves (Evolves-metrics s' ms);
    safe = r.safe;
    settled = r.settled;
  }

  Ready-Evolves : {s s' u : State W} → Ready s s' → Evolves c IsQuiet s' u → Ready s u
  Ready-Evolves r ev = record {
    evolves = Evolves-trans r.evolves (Evolves-CommitsAll (msg ∷ []) ev);
    safe = λ h. IsSafe-Extends (parsed c) ev.extends (r.safe h);
    settled = IsSettled-Extends (parsed c) msg ev.extends r.settled;
  }

  module _ (s : State W) where
    Ready-Handled :
        (s' : State W)
        → Ready s s'
        → (c.outside.app_err s'.world ≡ none → IsCommitted msg s'.trace)
        → Handled c s msg s'
    Ready-Handled s' r h = record {
      evolves = r.evolves;
      safe = r.safe;
      complete = λ sound up. (r.settled, h up);
    }

    -- After one call of CommitMessages.
    commit_called :
        (r : Option GoError) (w : W) (s' : State W)
        → (IsCancelled c s'.world → IsCancelled c w)
        → Ready s s'
        → Ready s (record s' { world = w; trace = committed (msg ∷ []) r ∷ s'.trace })
    commit_called r w s' stays ready =
        let called : Evolves c (CommitsAll (parsed c) (msg ∷ [])) s'
            (record s' { world = w; trace = committed (msg ∷ []) r ∷ s'.trace }) =
          record {
            extends = more (refl, (ready.settled, tt)) same;
            inflight = refl;
            stays = stays;
            sound = λ k f. stays (k f);
          } in
        record {
          evolves = Evolves-trans ready.evolves called;
          safe = λ h. ((ready.settled, tt), ready.safe h);
          settled = IsSettled-Extends (parsed c) msg called.extends ready.settled;
        }

    module _ (again : M W (Unit {0}))
        (next : (s' : State W) → Ready s s' → Wp (again s') (λ _. Handled c s msg)) where
      commit_unless_done-Handled :
          (done : Option GoError) (s' : State W)
          → c.outside.app_err s'.world ≡ done
          → Ready s s'
          → Wp (commit_unless_done c again done s') (λ _. Handled c s msg)
      commit_unless_done-Handled (some d) s' p r = Ready-Handled s' r (λ up. cc)
      commit_unless_done-Handled none s' p r =
          Wp-continue (pause_with_jitter c s') (λ _. again) (λ _. Handled c s msg)
            (Wp-mono (pause_with_jitter c s') (λ _ u paused. next u (Ready-Evolves r paused))
              (pause_with_jitter-Evolves c law IsQuiet s'))

      count_commit-Handled :
          (r : Option GoError) (s' : State W)
          → Ready s s'
          → (r ≡ none → IsCommitted msg s'.trace)
          → Wp (count_commit c r s') (λ r' u. Wp (commit_judge c again r' u) (λ _. Handled c s msg))
      count_commit-Handled none s' ready h =
          let m : Metric =
            inc_counter "kafka_consumer_commit_total" (("result", "success") ∷ []) (pos 1) in
          Ready-Handled (record s' { metrics = m ∷ s'.metrics })
            (Ready-metrics s' (m ∷ s'.metrics) ready) (λ up. h refl)
      count_commit-Handled (some e) s' ready h =
          let m : Metric =
            inc_counter "kafka_consumer_commit_total" (("result", "error") ∷ []) (pos 1) in
          commit_unless_done-Handled (c.outside.app_err s'.world)
            (record s' { metrics = m ∷ s'.metrics }) refl (Ready-metrics s' (m ∷ s'.metrics) ready)

    IsCommitted-accepted :
        (r : Option GoError) (past : List Action)
        → r ≡ none
        → IsCommitted msg (committed (msg ∷ []) r ∷ past)
    IsCommitted-accepted none past h = inl (inl refl)
    IsCommitted-accepted (some e) past h = cc

    pub commit_loop-Handled :
        (fuel : ℕ) (s' : State W)
        → Ready s s'
        → Wp (commit_loop c fuel msg s') (λ _. Handled c s msg)
    unfolding commit_loop commit
    commit_loop-Handled zero s' ready = tt
    commit_loop-Handled (suc fuel) s' ready =
        let (r, w) = c.outside.commit_messages (msg ∷ []) s'.world in
        let s'' : State W = record s' { world = w; trace = committed (msg ∷ []) r ∷ s'.trace } in
        let again : M W (Unit {0}) = commit_loop c fuel msg in
        Wp-continue (count_commit c r s'') (commit_judge c again) (λ _. Handled c s msg)
          (count_commit-Handled again (λ u ready'. commit_loop-Handled fuel u ready') r s''
            (commit_called r w s' (law.commit_messages_cancelled (msg ∷ []) s'.world) ready)
            (IsCommitted-accepted r s'.trace))
