-- ===== src/Kafka/Delivery/Bulk.antt =====
-- The two loops of `flushBatch`: over the bulk insert and over the bulk commit.
use casino_transaction_syste.Prelude.{
  ℕ, zero, suc, ◌+◌, ◌≤◌, ◌≡◌, ◌≢◌, refl, sym, inl, Bool, true, false, Option, none, some, List, [],
  ◌∷◌, length, arith, All,
}
use casino_transaction_syste.Prelude.Int.{pos}
use casino_transaction_syste.Domain.{Transaction}
use casino_transaction_syste.Errors.{GoError}
use casino_transaction_syste.Boundary.{classify}
use casino_transaction_syste.Kafka.Message.{Message}
use casino_transaction_syste.Kafka.Outside.{IsLawful}
use casino_transaction_syste.Kafka.Consumer.State.{
  State, M, Action, Metric, inc_counter, stored, committed, Wp, Wp-mono, Wp-continue,
}
use casino_transaction_syste.Kafka.Consumer.Config.{Consumer, parsed}
use casino_transaction_syste.Kafka.Consumer.Backoff.{sleep_backoff, pause_with_jitter}
use casino_transaction_syste.Kafka.Consumer.Batch.{
  BulkEnd, aborted, finished, bulk_by_class, bulk_unless_done, bulk_judge, bulk_attempts,
  bulk_commit_unless_done, bulk_commit_judge, bulk_commit_loop,
}
use casino_transaction_syste.Kafka.Trace.Order.{CommitsAll}
use casino_transaction_syste.Kafka.Trace.{
  Has, IsStored, IsSettled, IsSafe, IsCommitted, IsQuiet, same, more, IsSafe-Extends,
  All-IsSettled-Extends,
}
use casino_transaction_syste.Kafka.Delivery.Evolution.{
  IsCancelled, Evolves, Evolves-trans, Evolves-CommitsAll, Evolves-metrics, sleep_backoff-Evolves,
  pause_with_jitter-Evolves,
}

module _ {W : Type 0} (c : Consumer W) where
  -- What the loop over the bulk insert has done, by its end.
  pub record Inserted (s : State W) (txs : List Transaction) (end : BulkEnd) (s' : State W)
      : Type 0 where
    pub evolves : Evolves c IsQuiet s s'
    pub accepted : end ≡ finished none → (t : Transaction) → Has t txs → IsStored t s'.trace
    pub shutdown : end ≡ aborted → IsCancelled c s'.world

  -- The messages are settled, and all commits so far were of settled messages.
  pub record Prepared (s : State W) (msgs : List Message) (s' : State W) : Type 0 where
    pub evolves : Evolves c (CommitsAll (parsed c) msgs) s s'
    pub safe : IsSafe (parsed c) s.trace → IsSafe (parsed c) s'.trace
    pub settled : All (IsSettled (parsed c) s'.trace) msgs

  -- Besides that, a context that is not cancelled means that the messages are committed.
  pub record BulkCommitted (s : State W) (msgs : List Message) (s' : State W) : Type 0 where
    pub prepared : Prepared s msgs s'
    pub complete :
        c.outside.app_err s'.world ≡ none → (m : Message) → Has m msgs → IsCommitted m s'.trace

module _ {W : Type 0} (c : Consumer W) (law : IsLawful c.outside) (s : State W) where
  module _ (txs : List Transaction) where
    failed_insert :
        (s' : State W) (e : GoError)
        → Evolves c IsQuiet s s'
        → Inserted c s txs (finished (some e)) s'
    failed_insert s' e ev = record { evolves = ev; accepted = λ p. cc; shutdown = λ p. cc }

    module _ (again : M W BulkEnd) (attempt : ℕ) (r : Option GoError)
        (next : (s' : State W)
          → r ≢ none
          → Evolves c IsQuiet s s'
          → Wp (again s') (Inserted c s txs)) where
      bulk_by_class-Inserted :
          (e : GoError) (b : Bool) (s' : State W)
          → r ≢ none
          → Evolves c IsQuiet s s'
          → Wp (bulk_by_class c again attempt e b s') (Inserted c s txs)
      bulk_by_class-Inserted e false s' k ev = failed_insert s' e ev
      bulk_by_class-Inserted e true s' k ev =
          let m : Metric =
            inc_counter "kafka_consumer_retries_total" (("reason", "process_bulk_error") ∷ [])
              (pos 1) in
          let s'' : State W = record s' { metrics = m ∷ s'.metrics } in
          Wp-continue (sleep_backoff c attempt s'') (λ _. again) (Inserted c s txs)
            (Wp-mono (sleep_backoff c attempt s'')
              (λ _ u slept.
                next u k (Evolves-trans (Evolves-trans ev (Evolves-metrics s' s''.metrics)) slept))
              (sleep_backoff-Evolves c law IsQuiet attempt s''))

      bulk_unless_done-Inserted :
          (e : GoError) (done : Option GoError) (s' : State W)
          → r ≢ none
          → c.outside.app_err s'.world ≡ done
          → Evolves c IsQuiet s s'
          → Wp (bulk_unless_done c again attempt e done s') (Inserted c s txs)
      bulk_unless_done-Inserted e (some d) s' k p ev = record {
        evolves = ev;
        accepted = λ q. cc;
        shutdown = λ q h. cc;
      }
      bulk_unless_done-Inserted e none s' k p ev =
          bulk_by_class-Inserted e (classify e).retryable s' k ev

      bulk_judge-Inserted :
          (r' : Option GoError) (s' : State W)
          → r' ≡ r
          → (r ≡ none → (t : Transaction) → Has t txs → IsStored t s'.trace)
          → Evolves c IsQuiet s s'
          → Wp (bulk_judge c again attempt r' s') (Inserted c s txs)
      bulk_judge-Inserted none s' q h ev = record {
        evolves = ev;
        accepted = λ p. h (sym q);
        shutdown = λ p. cc;
      }
      bulk_judge-Inserted (some e) s' q h ev =
          bulk_unless_done-Inserted e (c.outside.app_err s'.world) s' (λ k. cc) refl ev

    IsStored-accepted :
        (r : Option GoError) (past : List Action)
        → r ≡ none
        → (t : Transaction) → Has t txs
        → IsStored t (stored txs r ∷ past)
    IsStored-accepted none past h t m = inl m
    IsStored-accepted (some e) past h t m = cc

    -- The loop ends without an error only after an insert that was accepted, unless it makes no round.
    pub bulk_attempts-Inserted :
        (left attempt : ℕ) (last : Option GoError) (s' : State W)
        → (last ≡ none → 1 ≤ left)
        → Evolves c IsQuiet s s'
        → Wp (bulk_attempts c left attempt txs last s') (Inserted c s txs)
    unfolding bulk_attempts
    bulk_attempts-Inserted zero attempt none s' h ev = absurd (omega (arith, h refl))
    bulk_attempts-Inserted zero attempt (some e) s' h ev = failed_insert s' e ev
    bulk_attempts-Inserted (suc left) attempt last s' h ev =
        let (r, w) = c.outside.register_all txs s'.world in
        let s'' : State W = record s' { world = w; trace = stored txs r ∷ s'.trace } in
        let called : Evolves c IsQuiet s' s'' = record {
          extends = more tt same;
          inflight = refl;
          stays = law.register_all_cancelled txs s'.world;
          sound = λ k f. law.register_all_cancelled txs s'.world (k f);
        } in
        bulk_judge-Inserted (bulk_attempts c left (attempt + 1) txs r) attempt r
          (λ u k ev'. bulk_attempts-Inserted left (attempt + 1) r u (λ q. absurd (k q)) ev') r s''
          refl (IsStored-accepted r s'.trace) (Evolves-trans ev called)

  module _ (msgs : List Message) where
    Prepared-Evolves :
        {s' u : State W} → Prepared c s msgs s' → Evolves c IsQuiet s' u → Prepared c s msgs u
    Prepared-Evolves r ev = record {
      evolves = Evolves-trans r.evolves (Evolves-CommitsAll msgs ev);
      safe = λ h. IsSafe-Extends (parsed c) ev.extends (r.safe h);
      settled = All-IsSettled-Extends (parsed c) msgs ev.extends r.settled;
    }

    module _ (again : M W (Unit {0}))
        (next : (s' : State W)
          → Prepared c s msgs s'
          → Wp (again s') (λ _. BulkCommitted c s msgs)) where
      bulk_commit_unless_done-BulkCommitted :
          (done : Option GoError) (s' : State W)
          → c.outside.app_err s'.world ≡ done
          → Prepared c s msgs s'
          → Wp (bulk_commit_unless_done c again done s') (λ _. BulkCommitted c s msgs)
      bulk_commit_unless_done-BulkCommitted (some d) s' p r = record {
        prepared = r;
        complete = λ up. cc;
      }
      bulk_commit_unless_done-BulkCommitted none s' p r =
          Wp-continue (pause_with_jitter c s') (λ _. again) (λ _. BulkCommitted c s msgs)
            (Wp-mono (pause_with_jitter c s') (λ _ u paused. next u (Prepared-Evolves r paused))
              (pause_with_jitter-Evolves c law IsQuiet s'))

      bulk_commit_judge-BulkCommitted :
          (r : Option GoError) (s' : State W)
          → Prepared c s msgs s'
          → (r ≡ none → (m : Message) → Has m msgs → IsCommitted m s'.trace)
          → Wp (bulk_commit_judge c again (length msgs) r s') (λ _. BulkCommitted c s msgs)
      bulk_commit_judge-BulkCommitted none s' p h = record {
        prepared = Prepared-Evolves p (Evolves-metrics s' _);
        complete = λ up. h refl;
      }
      bulk_commit_judge-BulkCommitted (some e) s' p h =
          bulk_commit_unless_done-BulkCommitted (c.outside.app_err s'.world) s' refl p

    IsCommitted-accepted :
        (r : Option GoError) (past : List Action)
        → r ≡ none
        → (m : Message) → Has m msgs
        → IsCommitted m (committed msgs r ∷ past)
    IsCommitted-accepted none past h m k = inl k
    IsCommitted-accepted (some e) past h m k = cc

    pub bulk_commit_loop-BulkCommitted :
        (fuel : ℕ) (s' : State W)
        → Prepared c s msgs s'
        → Wp (bulk_commit_loop c fuel msgs s') (λ _. BulkCommitted c s msgs)
    unfolding bulk_commit_loop
    bulk_commit_loop-BulkCommitted zero s' p = tt
    bulk_commit_loop-BulkCommitted (suc fuel) s' p =
        let (r, w) = c.outside.commit_messages msgs s'.world in
        let s'' : State W = record s' { world = w; trace = committed msgs r ∷ s'.trace } in
        let stays = law.commit_messages_cancelled msgs s'.world in
        let called : Evolves c (CommitsAll (parsed c) msgs) s' s'' = record {
          extends = more (refl, p.settled) same;
          inflight = refl;
          stays = stays;
          sound = λ k f. stays (k f);
        } in
        bulk_commit_judge-BulkCommitted (bulk_commit_loop c fuel msgs)
          (λ u p'. bulk_commit_loop-BulkCommitted fuel u p') r s''
          (record {
            evolves = Evolves-trans p.evolves called;
            safe = λ h. (p.settled, p.safe h);
            settled = All-IsSettled-Extends (parsed c) msgs called.extends p.settled;
          })
          (IsCommitted-accepted r s'.trace)
