-- ===== src/Kafka/Termination/Methods.antt =====
-- The return of `handleMessage` and `flushBatch`.
use casino_transaction_syste.Prelude.{
  ℕ, zero, suc, ◌+◌, ◌==◌, Bool, true, false, ◌||◌, Option, none, some, List, [], ◌∷◌, length,
  Result, ok, err,
}
use casino_transaction_syste.Prelude.Int.{ℤ, pos, sub_ℕ}
use casino_transaction_syste.TimeUtil.{Time, is_zero}
use casino_transaction_syste.Domain.{Transaction}
use casino_transaction_syste.Errors.{GoError, is_canceled, is_deadline_exceeded}
use casino_transaction_syste.Boundary.{classify}
use casino_transaction_syste.Go.Strconv.Itoa.{itoa}
use casino_transaction_syste.Kafka.Message.{Message}
use casino_transaction_syste.Kafka.Outside.{IsPatient}
use casino_transaction_syste.Kafka.Consumer.State.{
  M, ◌>>=◌, ◌>>◌, pure, emit, add_inflight, inc_counter, set_gauge, observe_duration,
}
use casino_transaction_syste.Kafka.Consumer.Config.{Consumer, rounds, parsed, app_err, now}
use casino_transaction_syste.Kafka.Consumer.Backoff.{sleep_backoff}
use casino_transaction_syste.Kafka.Consumer.Process.{
  register, by_class, unless_done, judge, attempts, process_parsed, process_message,
}
use casino_transaction_syste.Kafka.Consumer.DeadLetter.{DlqEnd, routed, stopped, dlq_loop}
use casino_transaction_syste.Kafka.Consumer.Handle.{
  labels_for, lag_ms, lag_unless, observe_lag, commit_loop, after_dlq, on_failure, after_processing,
  handle_message,
}
use casino_transaction_syste.Kafka.Consumer.Batch.{
  BulkEnd, aborted, finished, register_all, bulk_by_class, bulk_unless_done, bulk_judge,
  bulk_attempts, bulk_commit_loop, counted, one_by_one, after_bulk, gauge_inflight, flush_batch,
}
use casino_transaction_syste.Kafka.Termination.Steady.{
  Steady, Steady-bind, Steady-pure, Steady-emit, Steady-ask, Steady-add_inflight,
}
use casino_transaction_syste.Kafka.Termination.Loops.{
  now-Steady, sleep_backoff-Steady, commit_loop-Steady, bulk_commit_loop-Steady, dlq_loop-Steady,
}

module _ {W : Type 0} (c : Consumer W) (calm : IsPatient c.outside) where
  -- A call of the metrics sink, and what follows it.
  emit_then :
      {A : Type 0} {n : ℕ} {m : M W A} (metric : _)
      → Steady calm.patience n m
      → Steady calm.patience n (emit metric >> m)
  emit_then {m = m} metric h = Steady-bind (emit metric) (λ _. m) (Steady-emit metric) (λ _. h)

  now_then :
      {A : Type 0} {n : ℕ} (f : Time → M W A)
      → ((t : Time) → Steady calm.patience n (f t))
      → Steady calm.patience n (now c >>= f)
  now_then {n = n} f h = Steady-bind (now c) f (now-Steady c calm n) h

  module _ {n : ℕ} where
    module _ (again : M W (Option GoError)) (h : Steady calm.patience n again) where
      by_class-Steady :
          (last : Bool) (attempt : ℕ) (e : GoError) (retryable : Bool)
          → Steady calm.patience n (by_class c again last attempt e retryable)
      by_class-Steady last attempt e false = Steady-pure _
      by_class-Steady true attempt e true = Steady-pure _
      by_class-Steady false attempt e true = emit_then _ (
          emit_then _ (
            Steady-bind (sleep_backoff c attempt) (λ _. again)
              (sleep_backoff-Steady c calm n attempt) (λ _. h)))

      unless_done-Steady :
          (last : Bool) (attempt : ℕ) (e : GoError) (done : Option GoError)
          → Steady calm.patience n (unless_done c again last attempt e done)
      unless_done-Steady last attempt e (some d) = Steady-pure _
      unless_done-Steady last attempt e none = by_class-Steady last attempt e (classify e).retryable

      judge-Steady :
          (last : Bool) (attempt : ℕ) (r : Option GoError)
          → Steady calm.patience n (judge c again last attempt r)
      judge-Steady last attempt none = Steady-pure _
      judge-Steady last attempt (some e) =
          Steady-bind (app_err c) (unless_done c again last attempt e)
            (Steady-ask c.outside.app_err) (unless_done-Steady last attempt e)

    register-Steady : (t : Transaction) → Steady calm.patience n (register c t)
    register-Steady t = record { at = λ s p. calm.register_patience t s.world }

    attempts-Steady :
        (left attempt : ℕ) (t : Transaction) → Steady calm.patience n (attempts c left attempt t)
    unfolding attempts
    attempts-Steady zero attempt t = Steady-pure _
    attempts-Steady (suc left) attempt t =
        Steady-bind (register c t) (judge c (attempts c left (attempt + 1) t) (left == 0) attempt)
          (register-Steady t)
          (judge-Steady (attempts c left (attempt + 1) t) (attempts-Steady left (attempt + 1) t)
            (left == 0) attempt)

    process_parsed-Steady :
        (r : Result GoError Transaction) → Steady calm.patience n (process_parsed c r)
    process_parsed-Steady (err e) = Steady-pure _
    process_parsed-Steady (ok t) = attempts-Steady (rounds c) 0 t

    process_message-Steady : (msg : Message) → Steady calm.patience n (process_message c msg)
    unfolding process_message
    process_message-Steady msg = process_parsed-Steady (parsed c msg)

    lag_unless-Steady : (b : Bool) (msg : Message) → Steady calm.patience n (lag_unless c b msg)
    lag_unless-Steady true msg = Steady-pure tt
    lag_unless-Steady false msg =
        now_then
          (λ t. emit (
            set_gauge "kafka_consumer_lag"
              (("topic", msg.topic) ∷ ("partition", itoa msg.partition) ∷ [])
              (pos (lag_ms t msg.time))))
          (λ t. Steady-emit _)

    observe_lag-Steady : (msg : Message) → Steady calm.patience n (observe_lag c msg)
    unfolding observe_lag
    observe_lag-Steady msg = lag_unless-Steady (is_zero msg.time) msg

  after_dlq-Steady :
      (msg : Message) (end : DlqEnd) → Steady calm.patience c.fuel (after_dlq c msg end)
  after_dlq-Steady msg stopped = Steady-pure tt
  after_dlq-Steady msg routed = emit_then _ (commit_loop-Steady c calm c.fuel msg)

  on_failure-Steady :
      (msg : Message) (started : Time) (e : GoError) (b : Bool)
      → Steady calm.patience c.fuel (on_failure c msg started e b)
  on_failure-Steady msg started e true = Steady-pure tt
  on_failure-Steady msg started e false =
      now_then
        (λ t.
          emit (
            observe_duration "kafka_consumer_processing_duration_ms" (("result", "failed") ∷ [])
              started t)
          >> (emit (inc_counter "kafka_consumer_messages_total" (labels_for msg "failed") (pos 1))
              >> (dlq_loop c c.fuel msg e >>= after_dlq c msg)))
        (λ t. emit_then _ (
          emit_then _ (
            Steady-bind (dlq_loop c c.fuel msg e) (after_dlq c msg)
              (dlq_loop-Steady c calm c.fuel msg e) (after_dlq-Steady msg))))

  after_processing-Steady :
      (msg : Message) (started : Time) (r : Option GoError)
      → Steady calm.patience c.fuel (after_processing c msg started r)
  after_processing-Steady msg started (some e) =
      on_failure-Steady msg started e (is_canceled e || is_deadline_exceeded e)
  after_processing-Steady msg started none =
      now_then
        (λ t.
          emit (set_gauge "consumer_last_success_unix" [] t.seconds)
          >> (now c >>= λ t'.
              emit (
                observe_duration "kafka_consumer_processing_duration_ms"
                  (("result", "processed") ∷ []) started t')
              >> (emit (
                    inc_counter "kafka_consumer_messages_total" (labels_for msg "processed")
                      (pos 1))
                  >> commit_loop c c.fuel msg)))
        (λ t. emit_then _ (
          now_then
            (λ t'.
              emit (
                observe_duration "kafka_consumer_processing_duration_ms"
                  (("result", "processed") ∷ []) started t')
              >> (emit (
                    inc_counter "kafka_consumer_messages_total" (labels_for msg "processed")
                      (pos 1))
                  >> commit_loop c c.fuel msg))
            (λ t'. emit_then _ (emit_then _ (commit_loop-Steady c calm c.fuel msg)))))

  pub handle_message-Steady : (msg : Message) → Steady calm.patience c.fuel (handle_message c msg)
  unfolding handle_message
  handle_message-Steady msg =
      Steady-bind (observe_lag c msg)
        (λ _. now c >>= λ started. process_message c msg >>= after_processing c msg started)
        (observe_lag-Steady msg)
        (λ _.
          now_then (λ started. process_message c msg >>= after_processing c msg started)
            (λ started.
              Steady-bind (process_message c msg) (after_processing c msg started)
                (process_message-Steady msg) (after_processing-Steady msg started)))

  module _ {n : ℕ} where
    counted-Steady :
        (m : M W (Unit {0})) → Steady calm.patience n m → Steady calm.patience n (counted c m)
    counted-Steady m h =
        Steady-bind (add_inflight (pos 1)) (λ _. m >> (add_inflight (sub_ℕ 0 1) >> pure tt))
          (Steady-add_inflight (pos 1))
          (λ _.
            Steady-bind m (λ _. add_inflight (sub_ℕ 0 1) >> pure tt) h
              (λ _.
                Steady-bind (add_inflight (sub_ℕ 0 1)) (λ _. pure tt)
                  (Steady-add_inflight (sub_ℕ 0 1)) (λ _. Steady-pure tt)))

    pub gauge_inflight-Steady : (k : ℤ) → Steady calm.patience n (gauge_inflight c k)
    gauge_inflight-Steady k =
        Steady-bind (add_inflight k)
          (λ current. emit (set_gauge "consumer_inflight_messages" [] current))
          (Steady-add_inflight k) (λ current. Steady-emit _)

    register_all-Steady : (txs : List Transaction) → Steady calm.patience n (register_all c txs)
    register_all-Steady txs = record { at = λ s p. calm.register_all_patience txs s.world }

    module _ (again : M W BulkEnd) (h : Steady calm.patience n again) where
      bulk_by_class-Steady :
          (attempt : ℕ) (e : GoError) (retryable : Bool)
          → Steady calm.patience n (bulk_by_class c again attempt e retryable)
      bulk_by_class-Steady attempt e false = Steady-pure _
      bulk_by_class-Steady attempt e true = emit_then _ (
          Steady-bind (sleep_backoff c attempt) (λ _. again) (sleep_backoff-Steady c calm n attempt)
            (λ _. h))

      bulk_unless_done-Steady :
          (attempt : ℕ) (e : GoError) (done : Option GoError)
          → Steady calm.patience n (bulk_unless_done c again attempt e done)
      bulk_unless_done-Steady attempt e (some d) = Steady-pure _
      bulk_unless_done-Steady attempt e none = bulk_by_class-Steady attempt e (classify e).retryable

      bulk_judge-Steady :
          (attempt : ℕ) (r : Option GoError) → Steady calm.patience n (bulk_judge c again attempt r)
      bulk_judge-Steady attempt none = Steady-pure _
      bulk_judge-Steady attempt (some e) =
          Steady-bind (app_err c) (bulk_unless_done c again attempt e)
            (Steady-ask c.outside.app_err) (bulk_unless_done-Steady attempt e)

    bulk_attempts-Steady :
        (left attempt : ℕ) (txs : List Transaction) (last : Option GoError)
        → Steady calm.patience n (bulk_attempts c left attempt txs last)
    unfolding bulk_attempts
    bulk_attempts-Steady zero attempt txs last = Steady-pure _
    bulk_attempts-Steady (suc left) attempt txs last =
        Steady-bind (register_all c txs)
          (λ r. bulk_judge c (bulk_attempts c left (attempt + 1) txs r) attempt r)
          (register_all-Steady txs)
          (λ r.
            bulk_judge-Steady (bulk_attempts c left (attempt + 1) txs r)
              (bulk_attempts-Steady left (attempt + 1) txs r) attempt r)

  one_by_one-Steady : (msgs : List Message) → Steady calm.patience c.fuel (one_by_one c msgs)
  unfolding one_by_one
  one_by_one-Steady [] = Steady-pure tt
  one_by_one-Steady (msg ∷ msgs) =
      Steady-bind (counted c (handle_message c msg)) (λ _. one_by_one c msgs)
        (counted-Steady (handle_message c msg) (handle_message-Steady msg))
        (λ _. one_by_one-Steady msgs)

  after_bulk-Steady :
      (msgs : List Message) (started : Time) (end : BulkEnd)
      → Steady calm.patience c.fuel (after_bulk c msgs started end)
  after_bulk-Steady msgs started aborted = Steady-pure tt
  after_bulk-Steady msgs started (finished none) =
      now_then
        (λ t.
          emit (
            observe_duration "kafka_consumer_processing_duration_ms"
              (("result", "processed") ∷ ("mode", "bulk") ∷ []) started t)
          >> (now c >>= λ t'.
              emit (set_gauge "consumer_last_success_unix" [] t'.seconds)
              >> bulk_commit_loop c c.fuel msgs))
        (λ t. emit_then _ (
          now_then
            (λ t'.
              emit (set_gauge "consumer_last_success_unix" [] t'.seconds)
              >> bulk_commit_loop c c.fuel msgs)
            (λ t'. emit_then _ (bulk_commit_loop-Steady c calm c.fuel msgs))))
  after_bulk-Steady msgs started (finished (some e)) =
      Steady-bind (add_inflight (sub_ℕ 0 (length msgs)))
        (λ _. one_by_one c msgs >> (add_inflight (pos (length msgs)) >> pure tt))
        (Steady-add_inflight _)
        (λ _.
          Steady-bind (one_by_one c msgs) (λ _. add_inflight (pos (length msgs)) >> pure tt)
            (one_by_one-Steady msgs)
            (λ _.
              Steady-bind (add_inflight (pos (length msgs))) (λ _. pure tt) (Steady-add_inflight _)
                (λ _. Steady-pure tt)))

  pub flush_batch-Steady :
      (msgs : List Message) (txs : List Transaction)
      → Steady calm.patience c.fuel (flush_batch c msgs txs)
  unfolding flush_batch
  flush_batch-Steady [] txs = Steady-pure tt
  flush_batch-Steady (msg ∷ msgs) txs =
      let all : List Message = msg ∷ msgs in
      let last : M W (Unit {0}) = gauge_inflight c (sub_ℕ 0 (length all)) in
      let run : Time → M W (Unit {0}) = λ started.
        bulk_attempts c (rounds c) 0 txs none >>= λ end. after_bulk c all started end >> last in
      Steady-bind (gauge_inflight c (pos (length all))) (λ _. now c >>= run)
        (gauge_inflight-Steady (pos (length all)))
        (λ _. now_then run (λ started.
          Steady-bind (bulk_attempts c (rounds c) 0 txs none)
            (λ end. after_bulk c all started end >> last)
            (bulk_attempts-Steady (rounds c) 0 txs none)
            (λ end.
              Steady-bind (after_bulk c all started end) (λ _. last)
                (after_bulk-Steady all started end)
                (λ _. gauge_inflight-Steady (sub_ℕ 0 (length all))))))
