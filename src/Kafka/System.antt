-- ===== src/Kafka/System.antt =====
-- `Start` as a whole: the fetch loop, and one partition worker for each partition, on one shared state.
-- What a worker does with one input, a whole flush included, is one step; between such steps the loop, the
-- other workers and the outside move. The states within a flush are left out here: Bounded says how many
-- messages the process holds in them, and Kafka/Interference lets others move the world in them.
pub mod Steps
pub mod Keeping
pub mod Complete
pub mod Bounded
mod Tests
use casino_transaction_syste.Prelude.{
  ℕ, ◌≤◌, ◌≡◌, ◌≢◌, ◌==◌, Bool, true, if◌then◌else◌, Option, none, some, List, [], ◌∷◌,
}
use casino_transaction_syste.Kafka.Message.{Message}
use casino_transaction_syste.Kafka.Fetch.{Loop, start, receive}
use casino_transaction_syste.Kafka.Fetch as Fetch
use casino_transaction_syste.Kafka.Fetch.Workers.{queue_of}
use casino_transaction_syste.Kafka.Consumer.State.{State}
use casino_transaction_syste.Kafka.Consumer.Config.{Consumer}
use casino_transaction_syste.Kafka.Consumer.Worker.{
  received, ticked, Buffer, no_messages, partition_worker,
}
use casino_transaction_syste.Kafka.Delivery.Evolution.{IsCancelled}

pub record System (W : Type 0) : Type 0 where
  pub loop : Loop
  -- the batch of the worker of each partition
  pub buffers : ℕ → Buffer
  -- what the workers share: the world, the inflight counter, the trace of their calls
  pub shared : State W

abbrev pub begin : {W : Type 0} → State W → System W
begin s = record { loop = start; buffers = λ p. no_messages; shared = s }

abbrev pub put : ℕ → Buffer → (ℕ → Buffer) → ℕ → Buffer
put p b buffers j = if p == j then b else buffers j

-- `elsewhere` says what may happen to the world between the steps.
module _ {W : Type 0} (c : Consumer W) (elsewhere : W → W → Type 0) where
  pub data Step (s : System W) : System W → Type 0 where
    -- a step of the fetch loop that hands nothing to a worker; it sees the workers' context
    loops :
        (l : Loop)
        → Fetch.Step s.loop l
        → l.received ≡ s.loop.received
        → (l.cancelled ≡ true → IsCancelled c s.shared.world)
        → Step s (record s { loop = l })
    -- a worker receives the next message of its channel
    works :
        (msg : Message) (queue : List Message) (b : Buffer) (u : State W)
        → queue_of msg.partition s.loop.channels ≡ msg ∷ queue
        → partition_worker c (received msg ∷ []) (s.buffers msg.partition) s.shared ≡ some (b, u)
        → Step s (record {
          loop = receive msg s.loop;
          buffers = put msg.partition b s.buffers;
          shared = u;
        })
    -- the ticker of a worker
    ticks :
        (p : ℕ) (b : Buffer) (u : State W)
        → partition_worker c (ticked ∷ []) (s.buffers p) s.shared ≡ some (b, u)
        → Step s (record s { buffers = put p b s.buffers; shared = u })
    -- time passes, a signal comes, or others use the database
    waits :
        (w : W)
        → elsewhere s.shared.world w
        → Step s (record s { shared = record s.shared { world = w } })

  pub data Reach (s : System W) : System W → Type 0 where
    here : Reach s s
    next : {t u : System W} → Reach s t → Step t u → Reach s u
