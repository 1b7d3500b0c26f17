-- ===== src/Kafka/Consumer/Worker.antt =====
-- `partitionWorker`: the messages of one partition in order, valid ones in batches. Its ticker is given by the
-- ticks that come; that time.NewTicker panics on an interval that wraps is left out.
use casino_transaction_syste.Prelude.{
  Bool, true, false, Option, none, some, List, [], ◌∷◌, ◌++◌, length, Result, ok, err,
}
use casino_transaction_syste.Prelude.Int.{pos, sub_ℕ, leb_ℤ}
use casino_transaction_syste.Domain.{Transaction}
use casino_transaction_syste.Errors.{GoError}
use casino_transaction_syste.Kafka.Message.{Message}
use casino_transaction_syste.Kafka.Consumer.State.{M, ◌>>=◌, ◌>>◌, pure, move}
use casino_transaction_syste.Kafka.Consumer.Config.{Consumer, parsed, app_err}
use casino_transaction_syste.Kafka.Consumer.Handle.{handle_message}
use casino_transaction_syste.Kafka.Consumer.Batch.{gauge_inflight, flush_batch}

-- What the `select` of the worker receives: a message, the end of the channel, or a tick.
pub data Input : Type 0 where
  received : Message → Input
  closed : Input
  ticked : Input

-- The buffers `batchMsgs` and `batchDomains`.
pub record Buffer : Type 0 where
  pub msgs : List Message
  pub domains : List Transaction

abbrev pub no_messages : Buffer
no_messages = record { msgs = []; domains = [] }

abbrev pub append : Buffer → Message → Transaction → Buffer
append b msg t = record { msgs = b.msgs ++ msg ∷ []; domains = b.domains ++ t ∷ [] }

module _ {W : Type 0} (c : Consumer W) where
  abbrev pub is_full : Buffer → Bool
  is_full b = leb_ℤ c.cfg.batch_size (pos (length b.msgs))

  unfoldable pub flush : Buffer → M W (Unit {0})
  flush b = flush_batch c b.msgs b.domains

  abbrev pub flush_if : Bool → Buffer → M W Buffer
  flush_if true b = do flush b; pure no_messages
  flush_if false b = pure b

  -- A message that is not valid goes behind the batch so far; a valid one joins it.
  abbrev pub take_parsed : Buffer → Message → Result GoError Transaction → M W Buffer
  take_parsed b msg (err e) = do
    flush b
    gauge_inflight c (pos 1)
    handle_message c msg
    gauge_inflight c (sub_ℕ 0 1)
    pure no_messages
  take_parsed b msg (ok t) = let b' = append b msg t in flush_if (is_full b') b'

  -- The worker over what it receives. It ends at the end of the channel, or where it finds the
  -- context done; the result is the buffer that it has then.
  abbrev pub serve_unless_done :
      (Buffer → M W Buffer) → Buffer → Message → Option GoError → M W Buffer
  serve_unless_done again b msg (some done) = pure b
  serve_unless_done again b msg none = do b' ← take_parsed b msg (parsed c msg); again b'

  unfoldable pub partition_worker : List Input → Buffer → M W Buffer
  partition_worker [] b = pure b
  partition_worker (closed ∷ is) b = do move c.outside.wait; pure b
  partition_worker (ticked ∷ is) b = do
    move c.outside.wait
    flush b
    partition_worker is no_messages
  partition_worker (received msg ∷ is) b = do
    move c.outside.wait
    done ← app_err c
    serve_unless_done (λ b'. partition_worker is b') b msg done
