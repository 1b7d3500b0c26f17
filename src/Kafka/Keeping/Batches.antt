-- ===== src/Kafka/Keeping/Batches.antt =====
-- `flushBatch` and `partitionWorker`.
use casino_transaction_syste.Prelude.{
  ℕ, zero, suc, ◌+◌, Bool, true, false, Option, none, some, List, [], ◌∷◌, length, Result, ok, err,
}
use casino_transaction_syste.Prelude.Int.{ℤ, pos, sub_ℕ}
use casino_transaction_syste.TimeUtil.{Time}
use casino_transaction_syste.Domain.{Transaction}
use casino_transaction_syste.Errors.{GoError}
use casino_transaction_syste.Boundary.{classify}
use casino_transaction_syste.Kafka.Message.{Message}
use casino_transaction_syste.Kafka.Consumer.State.{
  M, Action, committed, ◌>>=◌, ◌>>◌, pure, call, emit, move, add_inflight, set_gauge,
  observe_duration,
}
use casino_transaction_syste.Kafka.Consumer.Config.{Consumer, rounds, parsed, app_err, now}
use casino_transaction_syste.Kafka.Consumer.Backoff.{sleep_backoff}
use casino_transaction_syste.Kafka.Consumer.Handle.{handle_message}
use casino_transaction_syste.Kafka.Consumer.Batch.{
  BulkEnd, aborted, finished, register_all, bulk_by_class, bulk_unless_done, bulk_judge,
  bulk_attempts, bulk_commit_unless_done, bulk_commit_judge, bulk_commit_loop, counted, one_by_one,
  after_bulk, gauge_inflight, flush_batch,
}
use casino_transaction_syste.Kafka.Consumer.Worker.{
  Input, received, closed, ticked, Buffer, no_messages, append, is_full, flush, flush_if,
  take_parsed, serve_unless_done, partition_worker,
}
use casino_transaction_syste.Kafka.Keeping.{
  Keeps, IsKept, Keeps-emit, Keeps-add_inflight, Keeps-move, Keeps-pure, Keeps-out_of_fuel,
  Keeps-bind,
}
use casino_transaction_syste.Kafka.Keeping.Methods.{
  now_then, emit_then, asked_then, paused_then, sleep_backoff-Keeps,
}
use casino_transaction_syste.Kafka.Keeping.DeadLetters.{handle_message-Keeps}

module _ {W : Type 0} (c : Consumer W) (P : W → List Action → Type 0)
    (kept : IsKept P c.outside) where
  module _ (again : M W (Unit {0})) (h : Keeps P again) where
    bulk_commit_unless_done-Keeps :
        (done : Option GoError) → Keeps P (bulk_commit_unless_done c again done)
    bulk_commit_unless_done-Keeps (some d) = Keeps-pure _
    bulk_commit_unless_done-Keeps none = paused_then c P kept _ h

    bulk_commit_judge-Keeps : (n : ℕ) (r : Option GoError) → Keeps P (bulk_commit_judge c again n r)
    bulk_commit_judge-Keeps n none = Keeps-emit _
    bulk_commit_judge-Keeps n (some e) =
        asked_then c P kept (bulk_commit_unless_done c again) bulk_commit_unless_done-Keeps

  bulk_commit_loop-Keeps : (fuel : ℕ) (ms : List Message) → Keeps P (bulk_commit_loop c fuel ms)
  unfolding bulk_commit_loop
  bulk_commit_loop-Keeps zero ms = Keeps-out_of_fuel
  bulk_commit_loop-Keeps (suc fuel) ms =
      Keeps-bind (call (c.outside.commit_messages ms) (λ r. committed ms r ∷ []))
        (bulk_commit_judge c (bulk_commit_loop c fuel ms) (length ms))
        (record { at = λ s h. kept.commit_messages ms s.world s.trace h })
        (bulk_commit_judge-Keeps (bulk_commit_loop c fuel ms) (bulk_commit_loop-Keeps fuel ms)
          (length ms))

  register_all-Keeps : (txs : List Transaction) → Keeps P (register_all c txs)
  register_all-Keeps txs = record { at = λ s h. kept.register_all txs s.world s.trace h }

  module _ (again : M W BulkEnd) (h : Keeps P again) where
    bulk_by_class-Keeps :
        (attempt : ℕ) (e : GoError) (retryable : Bool)
        → Keeps P (bulk_by_class c again attempt e retryable)
    bulk_by_class-Keeps attempt e false = Keeps-pure _
    bulk_by_class-Keeps attempt e true = emit_then c P kept _ _ (
        Keeps-bind (sleep_backoff c attempt) (λ _. again) (sleep_backoff-Keeps c P kept attempt)
          (λ _. h))

    bulk_unless_done-Keeps :
        (attempt : ℕ) (e : GoError) (done : Option GoError)
        → Keeps P (bulk_unless_done c again attempt e done)
    bulk_unless_done-Keeps attempt e (some d) = Keeps-pure _
    bulk_unless_done-Keeps attempt e none = bulk_by_class-Keeps attempt e (classify e).retryable

    bulk_judge-Keeps : (attempt : ℕ) (r : Option GoError) → Keeps P (bulk_judge c again attempt r)
    bulk_judge-Keeps attempt none = Keeps-pure _
    bulk_judge-Keeps attempt (some e) =
        asked_then c P kept (bulk_unless_done c again attempt e) (bulk_unless_done-Keeps attempt e)

  bulk_attempts-Keeps :
      (left attempt : ℕ) (txs : List Transaction) (last : Option GoError)
      → Keeps P (bulk_attempts c left attempt txs last)
  unfolding bulk_attempts
  bulk_attempts-Keeps zero attempt txs last = Keeps-pure _
  bulk_attempts-Keeps (suc left) attempt txs last =
      Keeps-bind (register_all c txs)
        (λ r. bulk_judge c (bulk_attempts c left (attempt + 1) txs r) attempt r)
        (register_all-Keeps txs)
        (λ r.
          bulk_judge-Keeps (bulk_attempts c left (attempt + 1) txs r)
            (bulk_attempts-Keeps left (attempt + 1) txs r) attempt r)

  inflight_then : {A : Type 0} (k : ℤ) (m : M W A) → Keeps P m → Keeps P (add_inflight k >> m)
  inflight_then k m h = Keeps-bind (add_inflight k) (λ _. m) (Keeps-add_inflight k) (λ _. h)

  counted-Keeps : (m : M W (Unit {0})) → Keeps P m → Keeps P (counted c m)
  counted-Keeps m h = inflight_then _ _ (
      Keeps-bind m (λ _. add_inflight (sub_ℕ 0 1) >> pure tt) h
        (λ _. inflight_then _ _ (Keeps-pure tt)))

  one_by_one-Keeps : (msgs : List Message) → Keeps P (one_by_one c msgs)
  unfolding one_by_one
  one_by_one-Keeps [] = Keeps-pure tt
  one_by_one-Keeps (msg ∷ msgs) =
      Keeps-bind (counted c (handle_message c msg)) (λ _. one_by_one c msgs)
        (counted-Keeps (handle_message c msg) (handle_message-Keeps c P kept msg))
        (λ _. one_by_one-Keeps msgs)

  after_bulk-Keeps :
      (msgs : List Message) (started : Time) (end : BulkEnd)
      → Keeps P (after_bulk c msgs started end)
  after_bulk-Keeps msgs started aborted = Keeps-pure tt
  after_bulk-Keeps msgs started (finished none) =
      let last : Time → M W (Unit {0}) = λ t'.
        emit (set_gauge "consumer_last_success_unix" [] t'.seconds)
        >> bulk_commit_loop c c.fuel msgs in
      now_then c P kept
        (λ t.
          emit (
            observe_duration "kafka_consumer_processing_duration_ms"
              (("result", "processed") ∷ ("mode", "bulk") ∷ []) started t)
          >> (now c >>= last))
        (λ t. emit_then c P kept _ _ (
          now_then c P kept last
            (λ t'. emit_then c P kept _ _ (bulk_commit_loop-Keeps c.fuel msgs))))
  after_bulk-Keeps msgs started (finished (some e)) = inflight_then _ _ (
      Keeps-bind (one_by_one c msgs) (λ _. add_inflight (pos (length msgs)) >> pure tt)
        (one_by_one-Keeps msgs) (λ _. inflight_then _ _ (Keeps-pure tt)))

  gauge_inflight-Keeps : (k : ℤ) → Keeps P (gauge_inflight c k)
  gauge_inflight-Keeps k =
      Keeps-bind (add_inflight k)
        (λ current. emit (set_gauge "consumer_inflight_messages" [] current)) (Keeps-add_inflight k)
        (λ current. Keeps-emit _)

  flush_batch-Keeps :
      (msgs : List Message) (txs : List Transaction) → Keeps P (flush_batch c msgs txs)
  unfolding flush_batch
  flush_batch-Keeps [] txs = Keeps-pure tt
  flush_batch-Keeps (msg ∷ msgs) txs =
      let all : List Message = msg ∷ msgs in
      let last : M W (Unit {0}) = gauge_inflight c (sub_ℕ 0 (length all)) in
      let run : Time → M W (Unit {0}) = λ started.
        bulk_attempts c (rounds c) 0 txs none >>= λ end. after_bulk c all started end >> last in
      Keeps-bind (gauge_inflight c (pos (length all))) (λ _. now c >>= run)
        (gauge_inflight-Keeps (pos (length all)))
        (λ _. now_then c P kept run (λ started.
          Keeps-bind (bulk_attempts c (rounds c) 0 txs none)
            (λ end. after_bulk c all started end >> last)
            (bulk_attempts-Keeps (rounds c) 0 txs none)
            (λ end.
              Keeps-bind (after_bulk c all started end) (λ _. last)
                (after_bulk-Keeps all started end)
                (λ _. gauge_inflight-Keeps (sub_ℕ 0 (length all))))))

  flush-Keeps : (b : Buffer) → Keeps P (flush c b)
  unfolding flush
  flush-Keeps b = flush_batch-Keeps b.msgs b.domains

  flush_if-Keeps : (full : Bool) (b : Buffer) → Keeps P (flush_if c full b)
  flush_if-Keeps true b =
      Keeps-bind (flush c b) (λ _. pure no_messages) (flush-Keeps b) (λ _. Keeps-pure no_messages)
  flush_if-Keeps false b = Keeps-pure b

  take_parsed-Keeps :
      (b : Buffer) (msg : Message) (r : Result GoError Transaction)
      → Keeps P (take_parsed c b msg r)
  take_parsed-Keeps b msg (ok t) = flush_if-Keeps (is_full c (append b msg t)) (append b msg t)
  take_parsed-Keeps b msg (err e) =
      let last : M W Buffer = gauge_inflight c (sub_ℕ 0 1) >> pure no_messages in
      Keeps-bind (flush c b) (λ _. gauge_inflight c (pos 1) >> (handle_message c msg >> last))
        (flush-Keeps b)
        (λ _.
          Keeps-bind (gauge_inflight c (pos 1)) (λ _. handle_message c msg >> last)
            (gauge_inflight-Keeps (pos 1))
            (λ _.
              Keeps-bind (handle_message c msg) (λ _. last) (handle_message-Keeps c P kept msg)
                (λ _.
                  Keeps-bind (gauge_inflight c (sub_ℕ 0 1)) (λ _. pure no_messages)
                    (gauge_inflight-Keeps (sub_ℕ 0 1)) (λ _. Keeps-pure no_messages))))

  serve_unless_done-Keeps :
      (again : Buffer → M W Buffer) (b : Buffer) (msg : Message) (done : Option GoError)
      → ((b' : Buffer) → Keeps P (again b'))
      → Keeps P (serve_unless_done c again b msg done)
  serve_unless_done-Keeps again b msg (some d) h = Keeps-pure b
  serve_unless_done-Keeps again b msg none h =
      Keeps-bind (take_parsed c b msg (parsed c msg)) again (take_parsed-Keeps b msg (parsed c msg))
        h

  wait_then : {A : Type 0} (m : M W A) → Keeps P m → Keeps P (move c.outside.wait >> m)
  wait_then m h =
      Keeps-bind (move c.outside.wait) (λ _. m) (Keeps-move c.outside.wait kept.wait) (λ _. h)

  -- A worker keeps what all its calls keep.
  pub partition_worker-Keeps : (is : List Input) (b : Buffer) → Keeps P (partition_worker c is b)
  unfolding partition_worker
  partition_worker-Keeps [] b = Keeps-pure b
  partition_worker-Keeps (closed ∷ is) b = wait_then (pure b) (Keeps-pure b)
  partition_worker-Keeps (ticked ∷ is) b =
      wait_then (flush c b >> partition_worker c is no_messages) (
        Keeps-bind (flush c b) (λ _. partition_worker c is no_messages) (flush-Keeps b)
          (λ _. partition_worker-Keeps is no_messages))
  partition_worker-Keeps (received msg ∷ is) b =
      let serve : Option GoError → M W Buffer =
        serve_unless_done c (λ b'. partition_worker c is b') b msg in
      wait_then (app_err c >>= serve) (
        asked_then c P kept serve (λ done.
          serve_unless_done-Keeps (λ b'. partition_worker c is b') b msg done
            (λ b'. partition_worker-Keeps is b')))
