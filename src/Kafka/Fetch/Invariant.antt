-- ===== src/Kafka/Fetch/Invariant.antt =====
-- What is to hold of the fetch loop in every state that it reaches.
use casino_transaction_syste.Prelude.{
  ℕ, ◌≤◌, ◌≡◌, ◌⊎◌, ◌==◌, refl, Bool, true, false, if◌then◌else◌, List, [], ◌∷◌, ◌++◌, length,
  arith,
}
use casino_transaction_syste.Kafka.Message.{Message}
use casino_transaction_syste.Kafka.Fetch.{
  Place, fetching, sending, returned, Loop, partition_worker_queue_size,
}
use casino_transaction_syste.Kafka.Fetch.Workers.{Channels, has_channel, queue_of, partitions}

-- The messages of one partition, in order.
unfoldable pub only : ℕ → List Message → List Message
only p [] = []
only p (m ∷ ms) = if m.partition == p then m ∷ only p ms else only p ms

pub only-append : (p : ℕ) (ms ns : List Message) → only p (ms ++ ns) ≡ only p ms ++ only p ns
unfolding only
only-append p [] ns = refl
only-append p (m ∷ ms) ns = ground (arith, only-append p ms ns)

-- What was fetched, against what was sent: a message may wait at the `select`, and the loop may have
-- dropped one there, under a cancelled context.
abbrev pub Handed : Place → Bool → List Message → List Message → Type 0
Handed fetching cancelled fetched sent = fetched ≡ sent
Handed (sending m) cancelled fetched sent = fetched ≡ sent ++ m ∷ []
Handed (returned e) cancelled fetched sent =
    (fetched ≡ sent) ⊎ ((m : Message) × (fetched ≡ sent ++ m ∷ []) × (cancelled ≡ true))

-- No partition stands twice.
abbrev pub Distinct : Channels → Type 0
Distinct [] = Unit
Distinct ((q, ms) ∷ cs) = (has_channel q cs ≡ false) × Distinct cs

pub record IsOrderly (l : Loop) : Type 0 where
  -- each partition's messages reach its worker in the order in which they were sent, none twice
  pub streams : (p : ℕ) → only p l.sent ≡ only p l.received ++ queue_of p l.channels
  pub bounded : (p : ℕ) → length (queue_of p l.channels) ≤ partition_worker_queue_size
  pub handed : Handed l.place l.cancelled l.fetched l.sent
  -- one worker for each channel, and one channel for each partition
  pub workers : l.started ≡ partitions l.channels
  pub distinct : Distinct l.channels
  pub ready : (m : Message) → l.place ≡ sending m → has_channel m.partition l.channels ≡ true
