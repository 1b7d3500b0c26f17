-- ===== src/Kafka/Keeping/DeadLetters.antt =====
-- The dead letter queue, and `handleMessage`.
use casino_transaction_syste.Prelude.{
  ℕ, zero, suc, Bool, true, false, ◌||◌, Option, none, some, List, [], ◌∷◌, Result, ok, err, Bytes,
}
use casino_transaction_syste.Prelude.Int.{pos}
use casino_transaction_syste.Go.Strconv.Itoa.{itoa}
use casino_transaction_syste.TimeUtil.{Time, is_zero}
use casino_transaction_syste.Errors.{
  GoError, wrapped, as_non_retryable, is_canceled, is_deadline_exceeded,
}
use casino_transaction_syste.Kafka.Message.{Message}
use casino_transaction_syste.Kafka.Consumer.State.{
  State, M, Action, dead_lettered, ◌>>=◌, ◌>>◌, pure, call, emit, Wp, inc_counter, set_gauge,
  observe_duration,
}
use casino_transaction_syste.Kafka.Consumer.Config.{Consumer, now}
use casino_transaction_syste.Kafka.Consumer.Process.{process_message}
use casino_transaction_syste.Kafka.Consumer.DeadLetter.{
  DlqEnd, routed, stopped, payload_of, count_written, write_encoded, route_with, route_to_dlq,
  fatal_once, trigger_fatal, dlq_unless_done, dlq_by_kind, dlq_judge, dlq_loop,
}
use casino_transaction_syste.Kafka.Consumer.Handle.{
  lag_unless, observe_lag, commit_loop, labels_for, lag_ms, after_dlq, on_failure, after_processing,
  handle_message,
}
use casino_transaction_syste.Kafka.Keeping.Methods.{
  emit_then, now_then, asked_then, paused_then, process_message-Keeps, commit_loop-Keeps,
}
use casino_transaction_syste.Kafka.Keeping.{
  Keeps, IsKept, Keeps-emit, Keeps-pure, Keeps-out_of_fuel, Keeps-bind,
}

module _ {W : Type 0} (c : Consumer W) (P : W → List Action → Type 0)
    (kept : IsKept P c.outside) where
  -- One message for the dead letter queue.
  count_written-Keeps : (r : Option GoError) → Keeps P (count_written c r)
  count_written-Keeps none = emit_then c P kept _ _ (Keeps-pure _)
  count_written-Keeps (some e) = Keeps-pure _

  write_encoded-Keeps :
      (msg : Message) (raw : Result GoError Bytes) → Keeps P (write_encoded c msg raw)
  write_encoded-Keeps msg (err e) = Keeps-pure _
  write_encoded-Keeps msg (ok raw) =
      Keeps-bind (call (c.outside.write_messages msg.key raw) (λ r. dead_lettered msg r ∷ []))
        (count_written c)
        (record { at = λ s h. kept.write_messages msg msg.key raw s.world s.trace h })
        count_written-Keeps

  route_with-Keeps :
      (writer : Bool) (msg : Message) (e : GoError) → Keeps P (route_with c writer msg e)
  route_with-Keeps false msg e = Keeps-pure _
  route_with-Keeps true msg e =
      now_then c P kept (λ t. write_encoded c msg (c.outside.marshal (payload_of c msg e t)))
        (λ t. write_encoded-Keeps msg (c.outside.marshal (payload_of c msg e t)))

  trigger_fatal-Keeps : (e : GoError) → Keeps P (trigger_fatal c e)
  unfolding trigger_fatal
  trigger_fatal-Keeps e = record { at = λ s h. once s.fatal s h }
    where
      once :
          (fatal : Option GoError) (s : State W)
          → P s.world s.trace
          → Wp (fatal_once c e fatal s) (λ _ u. P u.world u.trace)
      once none s h = kept.cancel s.world s.trace h
      once (some first) s h = h

  module _ (again : M W DlqEnd) (h : Keeps P again) where
    dlq_unless_done-Keeps : (done : Option GoError) → Keeps P (dlq_unless_done c again done)
    dlq_unless_done-Keeps (some d) = Keeps-pure _
    dlq_unless_done-Keeps none = paused_then c P kept _ h

    dlq_by_kind-Keeps : (e : GoError) (permanent : Bool) → Keeps P (dlq_by_kind c again e permanent)
    dlq_by_kind-Keeps e true =
        Keeps-bind (trigger_fatal c (wrapped e)) (λ _. pure stopped)
          (trigger_fatal-Keeps (wrapped e)) (λ _. Keeps-pure _)
    dlq_by_kind-Keeps e false = asked_then c P kept (dlq_unless_done c again) dlq_unless_done-Keeps

    dlq_judge-Keeps : (r : Option GoError) → Keeps P (dlq_judge c again r)
    dlq_judge-Keeps none = Keeps-pure _
    dlq_judge-Keeps (some e) = emit_then c P kept _ _ (dlq_by_kind-Keeps e (as_non_retryable e))

  dlq_loop-Keeps : (fuel : ℕ) (msg : Message) (e : GoError) → Keeps P (dlq_loop c fuel msg e)
  unfolding dlq_loop route_to_dlq
  dlq_loop-Keeps zero msg e = Keeps-out_of_fuel
  dlq_loop-Keeps (suc fuel) msg e =
      Keeps-bind (route_with c c.has_writer msg e) (dlq_judge c (dlq_loop c fuel msg e))
        (route_with-Keeps c.has_writer msg e)
        (dlq_judge-Keeps (dlq_loop c fuel msg e) (dlq_loop-Keeps fuel msg e))

  after_dlq-Keeps : (msg : Message) (end : DlqEnd) → Keeps P (after_dlq c msg end)
  after_dlq-Keeps msg stopped = Keeps-pure _
  after_dlq-Keeps msg routed = emit_then c P kept _ _ (commit_loop-Keeps c P kept c.fuel msg)

  on_failure-Keeps :
      (msg : Message) (started : Time) (e : GoError) (shutdown : Bool)
      → Keeps P (on_failure c msg started e shutdown)
  on_failure-Keeps msg started e true = Keeps-pure _
  on_failure-Keeps msg started e false =
      let last : M W (Unit {0}) = dlq_loop c c.fuel msg e >>= after_dlq c msg in
      now_then c P kept
        (λ t. do
          emit (
              observe_duration "kafka_consumer_processing_duration_ms" (("result", "failed") ∷ [])
                started t)
          emit (inc_counter "kafka_consumer_messages_total" (labels_for msg "failed") (pos 1))
          last)
        (λ t. emit_then c P kept _ _ (
          emit_then c P kept _ _ (
            Keeps-bind (dlq_loop c c.fuel msg e) (after_dlq c msg) (dlq_loop-Keeps c.fuel msg e)
              (after_dlq-Keeps msg))))

  after_processing-Keeps :
      (msg : Message) (started : Time) (r : Option GoError)
      → Keeps P (after_processing c msg started r)
  after_processing-Keeps msg started (some e) =
      on_failure-Keeps msg started e (is_canceled e || is_deadline_exceeded e)
  after_processing-Keeps msg started none =
      let last : Time → M W (Unit {0}) = λ t'. do
        emit (
            observe_duration "kafka_consumer_processing_duration_ms" (("result", "processed") ∷ [])
              started t')
        emit (inc_counter "kafka_consumer_messages_total" (labels_for msg "processed") (pos 1))
        commit_loop c c.fuel msg
      in now_then c P kept
        (λ t. do emit (set_gauge "consumer_last_success_unix" [] t.seconds); now c >>= last)
        (λ t. emit_then c P kept _ _ (
          now_then c P kept last (λ t'.
            emit_then c P kept _ _
              (emit_then c P kept _ _ (commit_loop-Keeps c P kept c.fuel msg)))))

  observe_lag-Keeps : (msg : Message) → Keeps P (observe_lag c msg)
  unfolding observe_lag
  observe_lag-Keeps msg = unless (is_zero msg.time)
    where
      unless : (zero : Bool) → Keeps P (lag_unless c zero msg)
      unless true = Keeps-pure _
      unless false =
          now_then c P kept
            (λ t. emit (
              set_gauge "kafka_consumer_lag"
                (("topic", msg.topic) ∷ ("partition", itoa msg.partition) ∷ [])
                (pos (lag_ms t msg.time))))
            (λ t. Keeps-emit _)

  pub handle_message-Keeps : (msg : Message) → Keeps P (handle_message c msg)
  unfolding handle_message
  handle_message-Keeps msg =
      let after : Time → M W (Unit {0}) =
        λ started. process_message c msg >>= after_processing c msg started in
      Keeps-bind (observe_lag c msg) (λ _. now c >>= after) (observe_lag-Keeps msg)
        (λ _. now_then c P kept after (λ started.
          Keeps-bind (process_message c msg) (after_processing c msg started)
            (process_message-Keeps c P kept msg) (after_processing-Keeps msg started)))
