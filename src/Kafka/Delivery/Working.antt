-- ===== src/Kafka/Delivery/Working.antt =====
-- `partitionWorker` over everything that it receives.
use casino_transaction_syste.Prelude.{
  ◌≤◌, ◌≡◌, refl, sym, subst, Bool, true, false, Option, none, some, List, [], ◌∷◌, append-nil,
  Result, ok, err,
}
use casino_transaction_syste.Prelude.Int.{pos, sub_ℕ, IsInt64, ◌+ℤ◌, add_sub_cancel}
use casino_transaction_syste.Domain.{Transaction}
use casino_transaction_syste.Errors.{GoError}
use casino_transaction_syste.Kafka.Message.{Message}
use casino_transaction_syste.Kafka.Outside.{IsLawful}
use casino_transaction_syste.Kafka.Consumer.State.{
  State, M, Metric, set_gauge, ◌>>=◌, ◌>>◌, pure, Wp, Wp-mono, Wp-continue,
}
use casino_transaction_syste.Kafka.Consumer.Config.{Consumer, rounds, parsed}
use casino_transaction_syste.Kafka.Consumer.Handle.{handle_message}
use casino_transaction_syste.Kafka.Consumer.Batch.{gauge_inflight, flush_batch}
use casino_transaction_syste.Kafka.Consumer.Worker.{
  Input, received, closed, ticked, Buffer, no_messages, append, is_full, flush, flush_if,
  take_parsed, serve_unless_done, partition_worker,
}
use casino_transaction_syste.Kafka.Trace.{Anything, same}
use casino_transaction_syste.Kafka.Delivery.Evolution.{
  IsCancelled, Evolves, Evolves-trans, Evolves-metrics, Evolves-bracket,
}
use casino_transaction_syste.Kafka.Delivery.Handling.{handle_message-Handled}
use casino_transaction_syste.Kafka.Delivery.Batches.{flush_batch-Flushed}
use casino_transaction_syste.Kafka.Delivery.Serving.{
  taken, IsDecoded, Served, Served-trans, Served-idle, Served-of_Flushed, Served-of_Handled,
  Served-appended,
}

module _ {W : Type 0} (c : Consumer W) (law : IsLawful c.outside) (some_round : 1 ≤ rounds c) where
  range_after : {s u : State W} → Evolves c Anything s u → IsInt64 s.inflight → IsInt64 u.inflight
  range_after ev range = subst IsInt64 (sym ev.inflight) range

  flush-Served :
      (b : Buffer) (s : State W)
      → IsDecoded c b
      → IsInt64 s.inflight
      → Wp (flush c b s) (λ _. Served c s b [] no_messages)
  unfolding flush
  flush-Served b s decoded range =
      Wp-mono (flush_batch c b.msgs b.domains s) (λ _ u f. Served-of_Flushed c b f)
        (flush_batch-Flushed c law some_round b.msgs b.domains s decoded range)

  -- An invalid message, under the inflight counter and its gauge.
  abbrev gauged : Message → M W Buffer
  gauged msg = do
    gauge_inflight c (pos 1)
    handle_message c msg
    gauge_inflight c (sub_ℕ 0 1)
    pure no_messages

  gauged-Served :
      (msg : Message) (s : State W)
      → IsInt64 s.inflight
      → Wp (gauged msg s) (Served c s no_messages (msg ∷ []))
  gauged-Served msg s range =
      let up : State W = record s { inflight = s.inflight +ℤ pos 1 } in
      let gauge : Metric = set_gauge "consumer_inflight_messages" [] up.inflight in
      let v : State W = record up { metrics = gauge ∷ s.metrics } in
      let last : M W Buffer = gauge_inflight c (sub_ℕ 0 1) >>= λ _. pure no_messages in
      Wp-continue (handle_message c msg v) (λ _. last) (Served c s no_messages (msg ∷ []))
        (Wp-mono (handle_message c msg v)
          (λ _ u h. Served-of_Handled c msg (record {
            evolves =
                Evolves-trans
                  (Evolves-bracket s u (pos 1) (sub_ℕ 0 1) (add_sub_cancel s.inflight 1 range)
                    (Evolves-trans (Evolves-metrics up v.metrics) h.evolves))
                  (Evolves-metrics (record u { inflight = u.inflight +ℤ sub_ℕ 0 1 }) _);
            safe = h.safe;
            complete = h.complete;
          }))
          (handle_message-Handled c law msg v some_round))

  flush_if-Served :
      (full : Bool) (b : Buffer) (s : State W)
      → IsDecoded c b
      → IsInt64 s.inflight
      → Wp (flush_if c full b s) (Served c s b [])
  flush_if-Served true b s decoded range =
      Wp-continue (flush c b s) (λ _. pure no_messages) (Served c s b [])
        (Wp-mono (flush c b s) (λ _ u f. f) (flush-Served b s decoded range))
  flush_if-Served false b s decoded range = Served-idle c s b decoded

  take_parsed-Served :
      (b : Buffer) (msg : Message) (p : Result GoError Transaction) (s : State W)
      → parsed c msg ≡ p
      → IsDecoded c b
      → IsInt64 s.inflight
      → Wp (take_parsed c b msg p s) (Served c s b (msg ∷ []))
  take_parsed-Served b msg (err e) s q decoded range =
      Wp-continue (flush c b s) (λ _. gauged msg) (Served c s b (msg ∷ []))
        (Wp-mono (flush c b s)
          (λ _ u f.
            Wp-mono (gauged msg u) (λ b' v h. Served-trans c [] (msg ∷ []) f h)
              (gauged-Served msg u (range_after f.evolves range)))
          (flush-Served b s decoded range))
  take_parsed-Served b msg (ok t) s q decoded range =
      let b' : Buffer = append b msg t in
      let joined : Served c s b (msg ∷ []) b' s = Served-appended c s b msg t decoded q in
      Wp-mono (flush_if c (is_full c b') b' s) (λ b'' u f. Served-trans c (msg ∷ []) [] joined f)
        (flush_if-Served (is_full c b') b' s joined.decoded range)

  Served-waited :
      (b : Buffer) (s : State W)
      → IsDecoded c b
      → Served c s b [] b (record s { world = c.outside.wait s.world })
  Served-waited b s decoded =
      let idle : Served c s b [] b s = Served-idle c s b decoded in
      let stays = law.wait_cancelled s.world in
      record {
        evolves = record {
          extends = same;
          inflight = refl;
          stays = stays;
          sound = λ h f. stays (h f);
        };
        safe = λ k. k;
        decoded = decoded;
        complete = λ sound up. record { done = []; split = append-nil b.msgs; all_done = tt };
        ordered = λ log earlier after split settled sound up. same;
      }

  Served-stopped :
      {s u : State W} {b : Buffer} (new : List Message)
      → Served c s b [] b u
      → IsCancelled c u.world
      → Served c s b new b u
  Served-stopped new x h = record {
    evolves = x.evolves;
    safe = x.safe;
    decoded = x.decoded;
    complete = λ sound up. absurd (h up);
    ordered = λ log earlier after split settled sound up. absurd (h up);
  }

  module _ (msg : Message) (rest : List Message) (again : Buffer → M W Buffer) (b : Buffer)
      (s : State W)
      (next : (b' : Buffer) (v : State W)
        → IsDecoded c b'
        → IsInt64 v.inflight
        → Wp (again b' v) (Served c v b' rest)) where
    serve_unless_done-Served :
        (done : Option GoError)
        → c.outside.app_err (c.outside.wait s.world) ≡ done
        → IsDecoded c b
        → IsInt64 s.inflight
        → Wp
            (serve_unless_done c again b msg done (record s { world = c.outside.wait s.world }))
            (Served c s b (msg ∷ rest))
    serve_unless_done-Served (some d) p decoded range =
        Served-stopped (msg ∷ rest) (Served-waited b s decoded) (λ up. cc)
    serve_unless_done-Served none p decoded range =
        let u : State W = record s { world = c.outside.wait s.world } in
        let taking : M W Buffer = take_parsed c b msg (parsed c msg) in
        Wp-continue (taking u) again (Served c s b (msg ∷ rest)) (
          Wp-mono (taking u)
            (λ b' v t.
              Wp-mono (again b' v)
                (λ b'' x r.
                  Served-trans c [] (msg ∷ rest) (Served-waited b s decoded)
                    (Served-trans c (msg ∷ []) rest t r))
                (next b' v t.decoded (range_after t.evolves range)))
            (take_parsed-Served b msg (parsed c msg) u refl decoded range))

  -- Whatever a worker receives, and whatever the calls answer: each of its commits is of messages that
  -- were settled before; and if the context is not cancelled at the end, then every message that it
  -- took is done (settled, and its commit accepted) or still in the buffer, in the order of arrival.
  pub partition_worker-Served :
      (is : List Input) (b : Buffer) (s : State W)
      → IsDecoded c b
      → IsInt64 s.inflight
      → Wp (partition_worker c is b s) (Served c s b (taken is))
  unfolding partition_worker
  partition_worker-Served [] b s decoded range = Served-idle c s b decoded
  partition_worker-Served (closed ∷ is) b s decoded range = Served-waited b s decoded
  partition_worker-Served (ticked ∷ is) b s decoded range =
      let waited = Served-waited b s decoded in
      let u : State W = record s { world = c.outside.wait s.world } in
      Wp-continue (flush c b u) (λ _. partition_worker c is no_messages) (Served c s b (taken is))
        (Wp-mono (flush c b u)
          (λ _ v f.
            Wp-mono (partition_worker c is no_messages v)
              (λ b' x r. Served-trans c [] (taken is) waited (Served-trans c [] (taken is) f r))
              (partition_worker-Served is no_messages v tt (range_after f.evolves range)))
          (flush-Served b u decoded range))
  partition_worker-Served (received msg ∷ is) b s decoded range =
      serve_unless_done-Served msg (taken is) (partition_worker c is) b s
        (λ b' v d r. partition_worker-Served is b' v d r)
        (c.outside.app_err (c.outside.wait s.world)) refl decoded range
