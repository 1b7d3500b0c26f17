-- ===== src/Kafka/Consumer/Process.antt =====
-- `processMessageWithRetries`: a message is decoded once, and its transaction is registered until the
-- service accepts it or a try is the last one.
use casino_transaction_syste.Prelude.{
  ℕ, zero, suc, ◌+◌, Bool, true, false, ◌==◌, Option, none, some, [], ◌∷◌, Result, ok, err,
}
use casino_transaction_syste.Prelude.Int.{pos}
use casino_transaction_syste.Domain.{Transaction}
use casino_transaction_syste.Errors.{GoError, wrapped, non_retryable}
use casino_transaction_syste.Boundary.{classify}
use casino_transaction_syste.Kafka.Message.{Message}
use casino_transaction_syste.Kafka.Consumer.State.{
  M, ◌>>=◌, ◌>>◌, pure, call, emit, inc_counter, stored,
}
use casino_transaction_syste.Kafka.Consumer.Config.{Consumer, rounds, parsed, app_err}
use casino_transaction_syste.Kafka.Consumer.Backoff.{sleep_backoff}

module _ {W : Type 0} (c : Consumer W) where
  abbrev pub register : Transaction → M W (Option GoError)
  register t = call (c.outside.register t) (λ r. stored (t ∷ []) r ∷ [])

  -- What follows the test `meta.Retryable`; `again` is the next round.
  abbrev pub by_class : M W (Option GoError) → Bool → ℕ → GoError → Bool → M W (Option GoError)
  by_class again last attempt e false = pure (some (non_retryable e))
  by_class again true attempt e true = pure (some (wrapped e))
  by_class again false attempt e true = do
    emit (inc_counter "kafka_consumer_retries_total" (("reason", "process_error") ∷ []) (pos 1))
    emit (inc_counter "kafka_consumer_messages_total" (("result", "retried") ∷ []) (pos 1))
    sleep_backoff c attempt
    again

  -- What follows the test `ctx.Err() != nil`.
  abbrev pub unless_done :
      M W (Option GoError) → Bool → ℕ → GoError → Option GoError → M W (Option GoError)
  unless_done again last attempt e (some done) = pure (some done)
  unless_done again last attempt e none = by_class again last attempt e (classify e).retryable

  -- What follows the call of the service.
  abbrev pub judge : M W (Option GoError) → Bool → ℕ → Option GoError → M W (Option GoError)
  judge again last attempt none = pure none
  judge again last attempt (some e) = do done ← app_err c; unless_done again last attempt e done

  -- The loop with so many rounds left, of which the last one has none behind it.
  unfoldable pub attempts : ℕ → ℕ → Transaction → M W (Option GoError)
  attempts zero attempt t = pure none
  attempts (suc left) attempt t = do
    r ← register t
    judge (attempts left (attempt + 1) t) (left == 0) attempt r

  abbrev pub process_parsed : Result GoError Transaction → M W (Option GoError)
  process_parsed (err e) = pure (some e)
  process_parsed (ok t) = attempts (rounds c) 0 t

  unfoldable pub process_message : Message → M W (Option GoError)
  process_message msg = process_parsed (parsed c msg)
