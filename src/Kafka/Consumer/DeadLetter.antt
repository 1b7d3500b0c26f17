-- ===== src/Kafka/Consumer/DeadLetter.antt =====
-- `routeToDLQ`, the loop round it, and `triggerFatal`.
use casino_transaction_syste.Prelude.{
  ℕ, zero, suc, Bool, true, false, if◌then◌else◌, Option, none, some, [], ◌∷◌, Result, ok, err,
  length, Bytes,
}
use casino_transaction_syste.Prelude.Int.{pos}
use casino_transaction_syste.TimeUtil.{Time, is_zero}
use casino_transaction_syste.Errors.{GoError, other, wrapped, non_retryable, as_non_retryable}
use casino_transaction_syste.Kafka.Message.{Message}
use casino_transaction_syste.Kafka.Outside.{DlqPayload}
use casino_transaction_syste.Kafka.Consumer.State.{
  M, ◌>>=◌, ◌>>◌, pure, out_of_fuel, call, emit, inc_counter, dead_lettered,
}
use casino_transaction_syste.Kafka.Consumer.Config.{Consumer, app_err, now}
use casino_transaction_syste.Kafka.Consumer.Backoff.{pause_with_jitter}

-- How the loop ends: the message is in the dead letter queue, or the method returns.
pub data DlqEnd : Type 0 where
  routed stopped : DlqEnd

module _ {W : Type 0} (c : Consumer W) where
  unfoldable pub payload_of : Message → GoError → Time → DlqPayload
  payload_of msg e failed_at = record {
    topic = msg.topic;
    partition = msg.partition;
    offset = msg.offset;
    key = msg.key;
    value_sha256 = c.outside.sha256_hex msg.value;
    value_size_bytes = length msg.value;
    error = e;
    failed_at = failed_at;
    headers = msg.headers;
    source_time = if is_zero msg.time then none else some msg.time;
  }

  abbrev pub count_written : Option GoError → M W (Option GoError)
  count_written (some e) = pure (some e)
  count_written none = do
    emit (inc_counter "kafka_consumer_dlq_total" (("result", "success") ∷ []) (pos 1))
    pure none

  abbrev pub write_encoded : Message → Result GoError Bytes → M W (Option GoError)
  write_encoded msg (err e) = pure (some e)
  write_encoded msg (ok raw) = do
    r ← call (c.outside.write_messages msg.key raw) (λ r. dead_lettered msg r ∷ [])
    count_written r

  abbrev pub route_with : Bool → Message → GoError → M W (Option GoError)
  route_with false msg e = pure (some (non_retryable (other 1)))
  route_with true msg e = do
    failed_at ← now c
    write_encoded msg (c.outside.marshal (payload_of msg e failed_at))

  unfoldable pub route_to_dlq : Message → GoError → M W (Option GoError)
  route_to_dlq msg e = route_with c.has_writer msg e

  -- The first error is kept and cancels the context; a later one does nothing.
  abbrev pub fatal_once : GoError → Option GoError → M W (Unit {0})
  fatal_once e (some first) s = pure tt s
  fatal_once e none s = some (tt, record s { fatal = some e; world = c.outside.cancel s.world })

  unfoldable pub trigger_fatal : GoError → M W (Unit {0})
  trigger_fatal e s = fatal_once e s.fatal s

  abbrev pub dlq_unless_done : M W DlqEnd → Option GoError → M W DlqEnd
  dlq_unless_done again (some done) = pure stopped
  dlq_unless_done again none = do pause_with_jitter c; again

  abbrev pub dlq_by_kind : M W DlqEnd → GoError → Bool → M W DlqEnd
  dlq_by_kind again e true = do trigger_fatal (wrapped e); pure stopped
  dlq_by_kind again e false = do done ← app_err c; dlq_unless_done again done

  abbrev pub dlq_judge : M W DlqEnd → Option GoError → M W DlqEnd
  dlq_judge again none = pure routed
  dlq_judge again (some e) = do
    emit (inc_counter "kafka_consumer_dlq_total" (("result", "error") ∷ []) (pos 1))
    dlq_by_kind again e (as_non_retryable e)

  unfoldable pub dlq_loop : ℕ → Message → GoError → M W DlqEnd
  dlq_loop zero msg e = out_of_fuel
  dlq_loop (suc fuel) msg e = do r ← route_to_dlq msg e; dlq_judge (dlq_loop fuel msg e) r
