-- ===== src/Kafka/Delivery/Batches.antt =====
-- `flushBatch` as a whole.
use casino_transaction_syste.Prelude.{
  ℕ, ◌≤◌, ◌≡◌, refl, sym, subst, none, some, List, [], ◌∷◌, length,
}
use casino_transaction_syste.Prelude.Int.{
  ℤ, pos, sub_ℕ, IsInt64, ◌+ℤ◌, add_sub_cancel, sub_add_cancel, add-IsInt64,
}
use casino_transaction_syste.TimeUtil.{Time}
use casino_transaction_syste.Domain.{Transaction}
use casino_transaction_syste.Kafka.Message.{Message}
use casino_transaction_syste.Kafka.Outside.{IsLawful}
use casino_transaction_syste.Kafka.Consumer.State.{
  State, M, Metric, set_gauge, observe_duration, ◌>>=◌, ◌>>◌, pure, Wp, Wp-mono, Wp-continue,
  add_inflight,
}
use casino_transaction_syste.Kafka.Consumer.Config.{Consumer, rounds, parsed}
use casino_transaction_syste.Kafka.Consumer.Batch.{
  BulkEnd, aborted, finished, bulk_attempts, bulk_commit_loop, one_by_one, after_bulk,
  gauge_inflight, flush_batch,
}
use casino_transaction_syste.Kafka.Trace.Order.{Extends-InOrder, Extends-InOrder_quiet}
use casino_transaction_syste.Kafka.Trace.{
  same, Extends-trans, All-IsSettled-Extends, IsQuiet, IsSafe-Extends,
}
use casino_transaction_syste.Kafka.Delivery.Evolution.{
  Evolves, Evolves-refl, Evolves-trans, Evolves-weaken, Evolves-CommitsAll, Evolves-metrics,
  Evolves-bracket, now-Evolves,
}
use casino_transaction_syste.Kafka.Delivery.Bulk.{
  Inserted, BulkCommitted, bulk_attempts-Inserted, bulk_commit_loop-BulkCommitted,
}
use casino_transaction_syste.Kafka.Delivery.Flushing.{
  Decodes, Flushed, IsSettled-of_stored, IsDone-of_parts, one_by_one-Flushed,
}

module _ {W : Type 0} (c : Consumer W) where
  -- More calls that commit nothing, before the handling.
  Flushed-after :
      {s s' u : State W} (msgs : List Message)
      → Evolves c IsQuiet s s'
      → Flushed c s' msgs u
      → Flushed c s msgs u
  Flushed-after msgs ev f = record {
    evolves = Evolves-trans (Evolves-weaken ev) f.evolves;
    safe = λ h. f.safe (IsSafe-Extends (parsed c) ev.extends h);
    complete = λ sound. f.complete (ev.sound sound);
    ordered = λ log earlier after split settled sound up.
        Extends-trans (Extends-InOrder_quiet (parsed c) log ev.extends) (
          f.ordered log earlier after split
            (All-IsSettled-Extends (parsed c) earlier ev.extends settled) (ev.sound sound) up);
  }

  -- The handling between two changes of the inflight counter.
  Flushed-bracket :
      (s u : State W) (msgs : List Message) (a b : ℤ)
      → s.inflight +ℤ a +ℤ b ≡ s.inflight
      → Flushed c (record s { inflight = s.inflight +ℤ a }) msgs u
      → Flushed c s msgs (record u { inflight = u.inflight +ℤ b })
  Flushed-bracket s u msgs a b cancel f = record {
    evolves = Evolves-bracket s u a b cancel f.evolves;
    safe = f.safe;
    complete = f.complete;
    ordered = f.ordered;
  }

  Flushed-metrics :
      {s u : State W} (msgs : List Message) (ms : List Metric)
      → Flushed c s msgs u
      → Flushed c s msgs (record u { metrics = ms })
  Flushed-metrics {u = u} msgs ms f = record {
    evolves = Evolves-trans f.evolves (Evolves-metrics u ms);
    safe = f.safe;
    complete = f.complete;
    ordered = f.ordered;
  }

module _ {W : Type 0} (c : Consumer W) (law : IsLawful c.outside) (some_round : 1 ≤ rounds c)
    (msgs : List Message) (txs : List Transaction) (decodes : Decodes c msgs txs) (s : State W)
    (range : IsInt64 s.inflight) where
  committed_in_bulk : (u : State W) → BulkCommitted c s msgs u → Flushed c s msgs u
  committed_in_bulk u b = record {
    evolves = Evolves-weaken b.prepared.evolves;
    safe = b.prepared.safe;
    complete = λ sound up. IsDone-of_parts c u.trace msgs b.prepared.settled (b.complete up);
    ordered = λ log earlier after split settled sound up.
        Extends-InOrder (parsed c) log earlier msgs after split settled b.prepared.evolves.extends;
  }

  after_bulk-Flushed :
      (started : Time) (end : BulkEnd) (u : State W)
      → Inserted c s txs end u
      → Wp (after_bulk c msgs started end u) (λ _. Flushed c s msgs)
  after_bulk-Flushed started aborted u i = record {
    evolves = Evolves-weaken i.evolves;
    safe = IsSafe-Extends (parsed c) i.evolves.extends;
    complete = λ sound up. absurd (i.shutdown refl up);
    ordered = λ log earlier after split settled sound up. absurd (i.shutdown refl up);
  }
  after_bulk-Flushed started (finished none) u i =
      let (t, w) = c.outside.now u.world in
      let timed : Metric =
        observe_duration "kafka_consumer_processing_duration_ms"
          (("result", "processed") ∷ ("mode", "bulk") ∷ []) started t in
      let read : State W = record u { world = w; metrics = timed ∷ u.metrics } in
      let (t', w') = c.outside.now w in
      let gauge : Metric = set_gauge "consumer_last_success_unix" [] t'.seconds in
      let v : State W = record read { world = w'; metrics = gauge ∷ read.metrics } in
      let clock : Evolves c IsQuiet u v =
        Evolves-trans
          (Evolves-trans (now-Evolves c law IsQuiet u)
            (Evolves-metrics (record u { world = w }) read.metrics))
          (Evolves-trans (now-Evolves c law IsQuiet read)
            (Evolves-metrics (record read { world = w' }) v.metrics)) in
      let ev : Evolves c IsQuiet s v = Evolves-trans i.evolves clock in
      Wp-mono (bulk_commit_loop c c.fuel msgs v) (λ _ x b. committed_in_bulk x b)
        (bulk_commit_loop-BulkCommitted c law s msgs c.fuel v (record {
          evolves = Evolves-CommitsAll msgs ev;
          safe = IsSafe-Extends (parsed c) ev.extends;
          settled = IsSettled-of_stored c v.trace msgs txs decodes (i.accepted refl);
        }))
  after_bulk-Flushed started (finished (some e)) u i =
      let n : ℕ = length msgs in
      let v : State W = record u { inflight = u.inflight +ℤ sub_ℕ 0 n } in
      let here : IsInt64 u.inflight = subst IsInt64 (sym i.evolves.inflight) range in
      Wp-continue (one_by_one c msgs v) (λ _. add_inflight (pos n) >>= λ _. pure tt)
        (λ _. Flushed c s msgs)
        (Wp-mono (one_by_one c msgs v)
          (λ _ x f.
            Flushed-after c msgs i.evolves
              (Flushed-bracket c u x msgs (sub_ℕ 0 n) (pos n) (sub_add_cancel u.inflight n here) f))
          (one_by_one-Flushed c law some_round msgs v (add-IsInt64 u.inflight (sub_ℕ 0 n))))

module _ {W : Type 0} (c : Consumer W) (law : IsLawful c.outside) (some_round : 1 ≤ rounds c) where
  -- However a flush of decoded messages ends: every commit that it adds is of settled messages, the
  -- inflight counter is as before, and if the context is not cancelled at the end, every message of
  -- the batch is settled and its commit accepted.
  pub flush_batch-Flushed :
      (msgs : List Message) (txs : List Transaction) (s : State W)
      → Decodes c msgs txs
      → IsInt64 s.inflight
      → Wp (flush_batch c msgs txs s) (λ _. Flushed c s msgs)
  unfolding flush_batch
  flush_batch-Flushed [] txs s decodes range = record {
    evolves = Evolves-refl s;
    safe = λ h. h;
    complete = λ sound up. tt;
    ordered = λ log earlier after split settled sound up. same;
  }
  flush_batch-Flushed (msg ∷ msgs) txs s decodes range =
      let all : List Message = msg ∷ msgs in
      let n : ℕ = length all in
      let counted : State W = record s { inflight = s.inflight +ℤ pos n } in
      let gauge : Metric = set_gauge "consumer_inflight_messages" [] counted.inflight in
      let (started, w) = c.outside.now s.world in
      let u : State W = record counted { world = w; metrics = gauge ∷ s.metrics } in
      let ev : Evolves c IsQuiet counted u =
        Evolves-trans (now-Evolves c law IsQuiet counted)
          (Evolves-metrics (record counted { world = w }) u.metrics) in
      let last : M W (Unit {0}) = gauge_inflight c (sub_ℕ 0 n) in
      Wp-continue (bulk_attempts c (rounds c) 0 txs none u)
        (λ end. after_bulk c all started end >> last) (λ _. Flushed c s all)
        (Wp-mono (bulk_attempts c (rounds c) 0 txs none u)
          (λ end v i.
            Wp-continue (after_bulk c all started end v) (λ _. last) (λ _. Flushed c s all)
              (Wp-mono (after_bulk c all started end v)
                (λ _ x f. Flushed-metrics c all _ (
                  Flushed-bracket c s x all (pos n) (sub_ℕ 0 n) (add_sub_cancel s.inflight n range)
                    (Flushed-after c all ev f)))
                (after_bulk-Flushed c law some_round all txs decodes u
                  (add-IsInt64 s.inflight (pos n)) started end v i)))
          (bulk_attempts-Inserted c law u txs (rounds c) 0 none u (λ _. some_round)
            (Evolves-refl u)))
