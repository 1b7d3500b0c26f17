-- ===== src/Kafka/Correctness.antt =====
-- The promises of `handleMessage`, `flushBatch` and `partitionWorker`.
use casino_transaction_syste.Prelude.{
  append_assoc, append-nil, ◌++◌, ◌≤◌, ◌<◌, ◌≡◌, ◌⊎◌, inl, inr, none, List, [], ◌∷◌, arith, All,
  Option-cases,
}
use casino_transaction_syste.Prelude.Int.{ℤ, pos, negsuc, IsInt64, ◌≤ℤ◌}
use casino_transaction_syste.Domain.{Transaction}
use casino_transaction_syste.Kafka.Message.{Message}
use casino_transaction_syste.Kafka.Settings.{IsUsable}
use casino_transaction_syste.Kafka.Outside.{IsLawful, IsPatient}
use casino_transaction_syste.Kafka.Consumer.State.{State, Wt, Wt_of_Wp, Wp-mono}
use casino_transaction_syste.Kafka.Consumer.Config.{Consumer, rounds, rounds_of, parsed}
use casino_transaction_syste.Kafka.Consumer.Handle.{handle_message}
use casino_transaction_syste.Kafka.Consumer.Batch.{flush_batch}
use casino_transaction_syste.Kafka.Consumer.Worker.{Input, Buffer, partition_worker}
use casino_transaction_syste.Kafka.Trace.{IsSettled, IsSafe, Extends, Anything}
use casino_transaction_syste.Kafka.Trace.Order.{InOrder}
use casino_transaction_syste.Kafka.Delivery.Evolution.{
  Evolves-weaken, IsCancelled, IsSound, Evolves,
}
use casino_transaction_syste.Kafka.Delivery.Handling.{handle_message-Handled}
use casino_transaction_syste.Kafka.Delivery.Flushing.{Decodes, IsDone}
use casino_transaction_syste.Kafka.Delivery.Batches.{flush_batch-Flushed}
use casino_transaction_syste.Kafka.Delivery.Serving.{taken, IsDecoded, Accounted}
use casino_transaction_syste.Kafka.Delivery.Working.{partition_worker-Served}
use casino_transaction_syste.Kafka.Termination.Methods.{handle_message-Steady, flush_batch-Steady}
use casino_transaction_syste.Kafka.Termination.Serving.{partition_worker-Steady}

module _ {W : Type 0} (c : Consumer W) where
  -- What a method that began at `s` has reached, whatever it was given.
  pub record Kept (s s' : State W) : Type 0 where
    pub extends : Extends Anything s.trace s'.trace
    pub safe : IsSafe (parsed c) s'.trace
    pub inflight : s'.inflight ≡ s.inflight
    pub sound : IsSound c s'

  -- All of the messages are done, or the context is cancelled.
  pub record Delivered (msgs : List Message) (s s' : State W) : Type 0 where
    pub kept : Kept s s'
    pub complete : IsCancelled c s'.world ⊎ All (IsDone c s'.trace) msgs

  -- Every message, of the old buffer and of the new ones, is done or in the new buffer, or the context
  -- is cancelled.
  pub record Carried (old new : List Message) (b' : Buffer) (s s' : State W) : Type 0 where
    pub kept : Kept s s'
    pub decoded : IsDecoded c b'
    pub complete : IsCancelled c s'.world ⊎ Accounted c old new b'.msgs s'

  unless-IsCancelled :
      (P : State W → Type 0) (s' : State W)
      → (c.outside.app_err s'.world ≡ none → P s')
      → IsCancelled c s'.world ⊎ P s'
  unless-IsCancelled P s' h = elim (Option-cases (c.outside.app_err s'.world)) [
    | inl e ↦ inr (h e)
    | inr (d, e) ↦ inl (λ p. cc)
  ]

  Kept-of_Evolves :
      (s s' : State W)
      → Evolves c Anything s s'
      → IsSafe (parsed c) s'.trace
      → IsSound c s
      → Kept s s'
  Kept-of_Evolves s s' ev safe sound = record {
    extends = ev.extends;
    safe = safe;
    inflight = ev.inflight;
    sound = ev.sound sound;
  }

  pub rounds-IsUsable : IsUsable c.cfg → 1 ≤ rounds c
  rounds-IsUsable u = at_least c.cfg.max_process_retries u.retries_bounded
    where
      at_least : (n : ℤ) → pos 0 ≤ℤ n → 1 ≤ rounds_of n
      at_least (pos n) h = omega arith
      at_least (negsuc n) h = ground arith

module _ {W : Type 0} (c : Consumer W) (law : IsLawful c.outside) (calm : IsPatient c.outside)
    (usable : IsUsable c.cfg) where
  -- For lawful calls, a usable configuration and fewer failures to come than fuel, and from a state
  -- whose commits were of settled messages and whose fatal error, if any, came with a cancelled context:
  -- `handleMessage` returns; its commits are of settled messages, the inflight counter is unchanged, and
  -- the message is settled with its commit accepted, or the context is cancelled.
  pub handle_message_delivers :
      (msg : Message) (s : State W)
      → calm.patience s.world < c.fuel
      → IsSafe (parsed c) s.trace
      → IsSound c s
      → Wt (handle_message c msg s) (λ _ s'. Delivered c (msg ∷ []) s s')
  handle_message_delivers msg s fuel safe sound =
      Wt_of_Wp (handle_message c msg s) (λ _ s'. calm.patience s'.world ≤ calm.patience s.world)
        (λ _ s'. Delivered c (msg ∷ []) s s') ((handle_message-Steady c calm msg).at s fuel)
        (Wp-mono (handle_message c msg s)
          (λ _ s' h. record {
            kept = Kept-of_Evolves c s s' (Evolves-weaken h.evolves) (h.safe safe) sound;
            complete =
                unless-IsCancelled c (λ u. All (IsDone c u.trace) (msg ∷ [])) s'
                  (λ up. (h.complete sound up, tt));
          })
          (handle_message-Handled c law msg s (rounds-IsUsable c usable)))

  -- Under the same conditions, for messages with their own transactions and an inflight counter that
  -- is an int64: `flushBatch` returns; its commits are of settled messages, the inflight counter is
  -- unchanged, and every message of the batch is settled with its commit accepted, or the context is
  -- cancelled.
  pub flush_batch_delivers :
      (msgs : List Message) (txs : List Transaction) (s : State W)
      → Decodes c msgs txs
      → calm.patience s.world < c.fuel
      → IsInt64 s.inflight
      → IsSafe (parsed c) s.trace
      → IsSound c s
      → Wt (flush_batch c msgs txs s) (λ _ s'. Delivered c msgs s s')
  flush_batch_delivers msgs txs s decodes fuel range safe sound =
      Wt_of_Wp (flush_batch c msgs txs s) (λ _ s'. calm.patience s'.world ≤ calm.patience s.world)
        (λ _ s'. Delivered c msgs s s') ((flush_batch-Steady c calm msgs txs).at s fuel)
        (Wp-mono (flush_batch c msgs txs s)
          (λ _ s' f. record {
            kept = Kept-of_Evolves c s s' f.evolves (f.safe safe) sound;
            complete =
                unless-IsCancelled c (λ u. All (IsDone c u.trace) msgs) s' (f.complete sound);
          })
          (flush_batch-Flushed c law (rounds-IsUsable c usable) msgs txs s decodes range))

  -- Under the same conditions, for every sequence of messages, ticks and the end of the channel, and a
  -- buffer with its own transactions: `partitionWorker` returns; its commits are of settled messages, the
  -- inflight counter is unchanged, and the old buffer with the messages taken is, in order, messages that
  -- are settled with their commits accepted and then the new buffer, or the context is cancelled.
  pub partition_worker_delivers :
      (is : List Input) (b : Buffer) (s : State W)
      → IsDecoded c b
      → calm.patience s.world < c.fuel
      → IsInt64 s.inflight
      → IsSafe (parsed c) s.trace
      → IsSound c s
      → Wt (partition_worker c is b s) (λ b' s'. Carried c b.msgs (taken is) b' s s')
  partition_worker_delivers is b s decoded fuel range safe sound =
      Wt_of_Wp (partition_worker c is b s) (λ _ s'. calm.patience s'.world ≤ calm.patience s.world)
        (λ b' s'. Carried c b.msgs (taken is) b' s s')
        ((partition_worker-Steady c calm is b).at s fuel)
        (Wp-mono (partition_worker c is b s)
          (λ b' s' r. record {
            kept = Kept-of_Evolves c s s' r.evolves (r.safe safe) sound;
            decoded = r.decoded;
            complete =
                unless-IsCancelled c (λ u. Accounted c b.msgs (taken is) b'.msgs u) s'
                  (r.complete sound);
          })
          (partition_worker-Served c law (rounds-IsUsable c usable) is b s decoded range))

  -- Under the same conditions, and for messages of the partition that are settled already: unless the
  -- context is cancelled by then, every commit that `partitionWorker` has made, also one that failed, is
  -- of messages that lie in a part of the log which was settled, from its start on, before that commit.
  -- The log is the earlier messages, the old buffer and the messages taken, in this order.
  pub partition_worker-InOrder :
      (earlier : List Message) (is : List Input) (b : Buffer) (s : State W)
      → IsDecoded c b
      → calm.patience s.world < c.fuel
      → IsInt64 s.inflight
      → IsSound c s
      → All (IsSettled (parsed c) s.trace) earlier
      → Wt (partition_worker c is b s) (λ b' s'.
        IsCancelled c s'.world
        ⊎ Extends (InOrder (parsed c) (earlier ++ b.msgs ++ taken is)) s.trace s'.trace)
  partition_worker-InOrder earlier is b s decoded fuel range sound settled =
      let log : List Message = earlier ++ b.msgs ++ taken is in
      let split : log ≡ earlier ++ (b.msgs ++ taken is) ++ [] = simp (append_assoc, append-nil) in
      Wt_of_Wp (partition_worker c is b s) (λ _ s'. calm.patience s'.world ≤ calm.patience s.world)
        (λ b' s'. IsCancelled c s'.world ⊎ Extends (InOrder (parsed c) log) s.trace s'.trace)
        ((partition_worker-Steady c calm is b).at s fuel)
        (Wp-mono (partition_worker c is b s)
          (λ b' s' r.
            unless-IsCancelled c (λ u. Extends (InOrder (parsed c) log) s.trace u.trace) s'
              (r.ordered log earlier [] split settled sound))
          (partition_worker-Served c law (rounds-IsUsable c usable) is b s decoded range))
