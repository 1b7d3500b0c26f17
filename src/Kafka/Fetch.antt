-- ===== src/Kafka/Fetch.antt =====
-- The fetch loop of `Start` with the channels of the partition workers, as a step relation: the reader,
-- the workers and the context choose which step comes next.
pub mod Workers
pub mod Invariant
mod Transfer
mod Steps
pub mod Reachable
mod Settled
mod Tests
use casino_transaction_syste.Prelude.{
  ℕ, ◌<◌, ◌≡◌, Bool, true, false, if◌then◌else◌, Option, none, some, List, [], ◌∷◌, ◌++◌, length,
}
use casino_transaction_syste.Prelude.Int.{pos}
use casino_transaction_syste.Errors.{GoError, is_canceled}
use casino_transaction_syste.Kafka.Message.{Message}
use casino_transaction_syste.Kafka.Consumer.State.{Metric, inc_counter}
use casino_transaction_syste.Kafka.Fetch.Workers.{Channels, queue_of, has_channel, push, drop_first}

-- PartitionWorkerQueueSize
abbrev pub partition_worker_queue_size : ℕ
partition_worker_queue_size = 128

-- Where the loop is: before FetchMessage, at the `select` that sends, or behind a `return`.
pub data Place : Type 0 where
  fetching : Place
  sending : Message → Place
  returned : Option GoError → Place

pub record Loop : Type 0 where
  pub place : Place
  -- `workers`, with what each channel holds
  pub channels : Channels
  -- the partitions whose worker was started, the newest first
  pub started : List ℕ
  -- the channels are closed to senders
  pub closed : Bool
  pub cancelled : Bool
  -- `fatalErr`
  pub fatal : Option GoError
  pub metrics : List Metric
  -- the messages that FetchMessage has returned, that were sent to a channel, and that a worker has
  -- received, each in order
  pub fetched : List Message
  pub sent : List Message
  pub received : List Message

abbrev pub start : Loop
start = record {
  place = fetching;
  channels = [];
  started = [];
  closed = false;
  cancelled = false;
  fatal = none;
  metrics = [];
  fetched = [];
  sent = [];
  received = [];
}

-- `workers.LoadOrStore`, and `go c.partitionWorker` where there was no channel.
unfoldable pub load_or_store : ℕ → Loop → Loop
load_or_store p l =
    if has_channel p l.channels
    then l
    else record l { channels = (p, []) ∷ l.channels; started = p ∷ l.started }

unfoldable pub on_message : Message → Loop → Loop
unfolding load_or_store
on_message msg l =
    let l' = load_or_store msg.partition l in
    record l' { place = sending msg; fetched = l.fetched ++ msg ∷ [] }

-- `return fatalErr`, and the deferred function that closes the channels.
unfoldable pub leave : Loop → Loop
leave l = record l { place = returned l.fatal; closed = true }

-- An error of FetchMessage: the end where it is context.Canceled, and otherwise the next round.
unfoldable pub on_fetch_error : GoError → Loop → Loop
unfolding leave
on_fetch_error e l = if is_canceled e then leave l else record l {
  metrics =
      inc_counter "kafka_consumer_messages_total" (("result", "failed") ∷ ("reason", "fetch") ∷ [])
        (pos 1)
      ∷ l.metrics;
}

-- `ch <- msg`
unfoldable pub send : Message → Loop → Loop
send msg l = record l {
  place = fetching;
  channels = push msg.partition msg l.channels;
  sent = l.sent ++ msg ∷ [];
}

-- `msg := <-ch` in the worker of a partition.
unfoldable pub receive : Message → Loop → Loop
receive msg l = record l {
  channels = drop_first msg.partition l.channels;
  received = l.received ++ msg ∷ [];
}

abbrev fatal_or : GoError → Option GoError → Option GoError
fatal_or e none = some e
fatal_or e (some first) = some first

-- `triggerFatal`, called by a worker; only the first call cancels.
unfoldable pub fail : GoError → Loop → Loop
fail e l = record l { fatal = fatal_or e l.fatal; cancelled = true }

pub data Step (l : Loop) : Loop → Type 0 where
  fetch : (msg : Message) → l.place ≡ fetching → Step l (on_message msg l)
  fetch_error : (e : GoError) → l.place ≡ fetching → Step l (on_fetch_error e l)
  -- the channel has room
  deliver :
      (msg : Message)
      → l.place ≡ sending msg
      → length (queue_of msg.partition l.channels) < partition_worker_queue_size
      → Step l (send msg l)
  -- `<-ctx.Done()` at the `select`
  give_up : (msg : Message) → l.place ≡ sending msg → l.cancelled ≡ true → Step l (leave l)
  take :
      (msg : Message) (queue : List Message)
      → queue_of msg.partition l.channels ≡ msg ∷ queue
      → Step l (receive msg l)
  -- a signal, or a fatal error of a worker
  cancel : Step l (record l { cancelled = true })
  fail_fatally : (e : GoError) → Step l (fail e l)

pub data Reach : Loop → Type 0 where
  here : Reach start
  next : {l l' : Loop} → Reach l → Step l l' → Reach l'
