-- ===== src/Kafka/Consumer/Handle.antt =====
-- `handleMessage`: process, or route to the dead letter queue, and then commit.
use casino_transaction_syste.Prelude.{
  ℕ, zero, suc, ◌+◌, ◌-◌, ◌*◌, ◌/◌, Bool, true, false, ◌||◌, leb, String, if◌then◌else◌, Option,
  none, some, [], ◌∷◌,
}
use casino_transaction_syste.Prelude.Int.{pos, pos_part, neg_part, max_int64}
use casino_transaction_syste.Go.Strconv.Itoa.{itoa}
use casino_transaction_syste.TimeUtil.{Time, is_zero}
use casino_transaction_syste.Errors.{GoError, is_canceled, is_deadline_exceeded}
use casino_transaction_syste.Kafka.Message.{Message}
use casino_transaction_syste.Kafka.Consumer.State.{
  M, ◌>>=◌, ◌>>◌, pure, out_of_fuel, call, emit, Labels, inc_counter, set_gauge, observe_duration,
  committed,
}
use casino_transaction_syste.Kafka.Consumer.Config.{Consumer, app_err, now}
use casino_transaction_syste.Kafka.Consumer.Backoff.{pause_with_jitter}
use casino_transaction_syste.Kafka.Consumer.Process.{process_message}
use casino_transaction_syste.Kafka.Consumer.DeadLetter.{DlqEnd, routed, stopped, dlq_loop}

-- `now.Sub(t).Milliseconds()`, or 0 where that is negative; a duration ends at 2^63 - 1 nanoseconds.
unfoldable pub lag_ms : Time → Time → ℕ
lag_ms now t =
    let later = (pos_part now.seconds + neg_part t.seconds) * 1000000000 + now.nanos in
    let sooner = (pos_part t.seconds + neg_part now.seconds) * 1000000000 + t.nanos in
    let nanos = later - sooner in (if leb nanos max_int64 then nanos else max_int64) / 1000000

abbrev pub labels_for : Message → String → Labels
labels_for msg result =
    ("topic", msg.topic) ∷ ("partition", itoa msg.partition) ∷ ("result", result) ∷ []

module _ {W : Type 0} (c : Consumer W) where
  abbrev pub lag_unless : Bool → Message → M W (Unit {0})
  lag_unless true msg = pure tt
  lag_unless false msg = do
    t ← now c
    emit (
        set_gauge "kafka_consumer_lag"
          (("topic", msg.topic) ∷ ("partition", itoa msg.partition) ∷ []) (pos (lag_ms t msg.time)))

  unfoldable pub observe_lag : Message → M W (Unit {0})
  observe_lag msg = lag_unless (is_zero msg.time) msg

  abbrev pub count_commit : Option GoError → M W (Option GoError)
  count_commit (some e) = do
    emit (inc_counter "kafka_consumer_commit_total" (("result", "error") ∷ []) (pos 1))
    pure (some e)
  count_commit none = do
    emit (inc_counter "kafka_consumer_commit_total" (("result", "success") ∷ []) (pos 1))
    pure none

  unfoldable pub commit : Message → M W (Option GoError)
  commit msg = do
    r ← call (c.outside.commit_messages (msg ∷ [])) (λ r. committed (msg ∷ []) r ∷ [])
    count_commit r

  abbrev pub commit_unless_done : M W (Unit {0}) → Option GoError → M W (Unit {0})
  commit_unless_done again (some done) = pure tt
  commit_unless_done again none = do pause_with_jitter c; again

  abbrev pub commit_judge : M W (Unit {0}) → Option GoError → M W (Unit {0})
  commit_judge again none = pure tt
  commit_judge again (some e) = do done ← app_err c; commit_unless_done again done

  unfoldable pub commit_loop : ℕ → Message → M W (Unit {0})
  commit_loop zero msg = out_of_fuel
  commit_loop (suc fuel) msg = do r ← commit msg; commit_judge (commit_loop fuel msg) r

  abbrev pub after_dlq : Message → DlqEnd → M W (Unit {0})
  after_dlq msg stopped = pure tt
  after_dlq msg routed = do
    emit (inc_counter "kafka_consumer_messages_total" (labels_for msg "dlq") (pos 1))
    commit_loop c.fuel msg

  -- The branch of a failure; the test is that of a shutdown.
  abbrev pub on_failure : Message → Time → GoError → Bool → M W (Unit {0})
  on_failure msg started e true = pure tt
  on_failure msg started e false = do
    t ← now c
    emit (
        observe_duration "kafka_consumer_processing_duration_ms" (("result", "failed") ∷ []) started
          t)
    emit (inc_counter "kafka_consumer_messages_total" (labels_for msg "failed") (pos 1))
    end ← dlq_loop c c.fuel msg e
    after_dlq msg end

  abbrev pub after_processing : Message → Time → Option GoError → M W (Unit {0})
  after_processing msg started (some e) =
      on_failure msg started e (is_canceled e || is_deadline_exceeded e)
  after_processing msg started none = do
    t ← now c
    emit (set_gauge "consumer_last_success_unix" [] t.seconds)
    t' ← now c
    emit (
        observe_duration "kafka_consumer_processing_duration_ms" (("result", "processed") ∷ [])
          started t')
    emit (inc_counter "kafka_consumer_messages_total" (labels_for msg "processed") (pos 1))
    commit_loop c.fuel msg

  unfoldable pub handle_message : Message → M W (Unit {0})
  handle_message msg = do
    observe_lag msg
    started ← now c
    r ← process_message c msg
    after_processing msg started r
