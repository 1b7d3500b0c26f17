-- ===== src/Kafka/Consumer/Batch.antt =====
-- `flushBatch`: one bulk insert and one commit, or message by message where the insert fails.
use casino_transaction_syste.Prelude.{
  ℕ, zero, suc, ◌+◌, Bool, true, false, Option, none, some, List, [], ◌∷◌, length,
}
use casino_transaction_syste.Prelude.Int.{ℤ, pos, sub_ℕ}
use casino_transaction_syste.TimeUtil.{Time}
use casino_transaction_syste.Domain.{Transaction}
use casino_transaction_syste.Errors.{GoError}
use casino_transaction_syste.Boundary.{classify}
use casino_transaction_syste.Kafka.Message.{Message}
use casino_transaction_syste.Kafka.Consumer.State.{
  M, ◌>>=◌, ◌>>◌, pure, out_of_fuel, call, emit, add_inflight, inc_counter, set_gauge,
  observe_duration, stored, committed,
}
use casino_transaction_syste.Kafka.Consumer.Config.{Consumer, rounds, app_err, now}
use casino_transaction_syste.Kafka.Consumer.Backoff.{sleep_backoff, pause_with_jitter}
use casino_transaction_syste.Kafka.Consumer.Handle.{handle_message}

-- How the loop over the bulk insert ends: the method returns, or goes on with `bulkErr`.
pub data BulkEnd : Type 0 where
  aborted : BulkEnd
  finished : Option GoError → BulkEnd

module _ {W : Type 0} (c : Consumer W) where
  abbrev pub register_all : List Transaction → M W (Option GoError)
  register_all txs = call (c.outside.register_all txs) (λ r. stored txs r ∷ [])

  abbrev pub bulk_by_class : M W BulkEnd → ℕ → GoError → Bool → M W BulkEnd
  bulk_by_class again attempt e false = pure (finished (some e))
  bulk_by_class again attempt e true = do
    emit
        (inc_counter "kafka_consumer_retries_total" (("reason", "process_bulk_error") ∷ []) (pos 1))
    sleep_backoff c attempt
    again

  abbrev pub bulk_unless_done : M W BulkEnd → ℕ → GoError → Option GoError → M W BulkEnd
  bulk_unless_done again attempt e (some done) = pure aborted
  bulk_unless_done again attempt e none = bulk_by_class again attempt e (classify e).retryable

  abbrev pub bulk_judge : M W BulkEnd → ℕ → Option GoError → M W BulkEnd
  bulk_judge again attempt none = pure (finished none)
  bulk_judge again attempt (some e) = do done ← app_err c; bulk_unless_done again attempt e done

  -- The last argument is `bulkErr`.
  unfoldable pub bulk_attempts : ℕ → ℕ → List Transaction → Option GoError → M W BulkEnd
  bulk_attempts zero attempt txs last = pure (finished last)
  bulk_attempts (suc left) attempt txs last = do
    r ← register_all txs
    bulk_judge (bulk_attempts left (attempt + 1) txs r) attempt r

  abbrev pub bulk_commit_unless_done : M W (Unit {0}) → Option GoError → M W (Unit {0})
  bulk_commit_unless_done again (some done) = pure tt
  bulk_commit_unless_done again none = do pause_with_jitter c; again

  abbrev pub bulk_commit_judge : M W (Unit {0}) → ℕ → Option GoError → M W (Unit {0})
  bulk_commit_judge again n none = emit (
      inc_counter "kafka_consumer_commit_total" (("result", "success") ∷ ("mode", "bulk") ∷ [])
        (pos n))
  bulk_commit_judge again n (some e) = do done ← app_err c; bulk_commit_unless_done again done

  unfoldable pub bulk_commit_loop : ℕ → List Message → M W (Unit {0})
  bulk_commit_loop zero msgs = out_of_fuel
  bulk_commit_loop (suc fuel) msgs = do
    r ← call (c.outside.commit_messages msgs) (λ r. committed msgs r ∷ [])
    bulk_commit_judge (bulk_commit_loop fuel msgs) (length msgs) r

  -- One message under the inflight counter.
  abbrev pub counted : M W (Unit {0}) → M W (Unit {0})
  counted m = do add_inflight (pos 1); m; add_inflight (sub_ℕ 0 1); pure tt

  unfoldable pub one_by_one : List Message → M W (Unit {0})
  one_by_one [] = pure tt
  one_by_one (msg ∷ msgs) = do counted (handle_message c msg); one_by_one msgs

  abbrev pub after_bulk : List Message → Time → BulkEnd → M W (Unit {0})
  after_bulk msgs started aborted = pure tt
  after_bulk msgs started (finished none) = do
    t ← now c
    emit (
        observe_duration "kafka_consumer_processing_duration_ms"
          (("result", "processed") ∷ ("mode", "bulk") ∷ []) started t)
    t' ← now c
    emit (set_gauge "consumer_last_success_unix" [] t'.seconds)
    bulk_commit_loop c.fuel msgs
  after_bulk msgs started (finished (some e)) = do
    add_inflight (sub_ℕ 0 (length msgs))
    one_by_one msgs
    add_inflight (pos (length msgs))
    pure tt

  -- The counter with its gauge.
  abbrev pub gauge_inflight : ℤ → M W (Unit {0})
  gauge_inflight n = do
    current ← add_inflight n
    emit (set_gauge "consumer_inflight_messages" [] current)

  unfoldable pub flush_batch : List Message → List Transaction → M W (Unit {0})
  flush_batch [] txs = pure tt
  flush_batch (msg ∷ msgs) txs = do
    gauge_inflight (pos (length (msg ∷ msgs)))
    started ← now c
    end ← bulk_attempts (rounds c) 0 txs none
    after_bulk (msg ∷ msgs) started end
    gauge_inflight (sub_ℕ 0 (length (msg ∷ msgs)))
