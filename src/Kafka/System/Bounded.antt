-- ===== src/Kafka/System/Bounded.antt =====
-- How many messages of a partition wait in the process.
use casino_transaction_syste.Prelude.{
  ℕ, ◌+◌, ◌≤◌, ◌≡◌, ◌==◌, refl, Bool, true, false, Option, none, some, List, [], ◌∷◌, ◌++◌, length,
  length-append, arith, Bool-cases, inl, inr, Result, ok, err,
}
use casino_transaction_syste.Prelude.Int.{pos, pos_part, sub_ℕ}
use casino_transaction_syste.Domain.{Transaction}
use casino_transaction_syste.Errors.{GoError}
use casino_transaction_syste.Kafka.Message.{Message}
use casino_transaction_syste.Kafka.Settings.{IsUsable}
use casino_transaction_syste.Kafka.Fetch.{
  Place, fetching, sending, returned, partition_worker_queue_size,
}
use casino_transaction_syste.Kafka.Fetch as Fetch
use casino_transaction_syste.Kafka.Fetch.Workers.{queue_of}
use casino_transaction_syste.Kafka.Fetch.Invariant.{only}
use casino_transaction_syste.Kafka.Fetch.Reachable.{Reach-IsOrderly}
use casino_transaction_syste.Kafka.Consumer.State.{
  State, M, ◌>>=◌, ◌>>◌, pure, Wp, Wp-mono, Wp-continue,
}
use casino_transaction_syste.Kafka.Consumer.Config.{Consumer, parsed}
use casino_transaction_syste.Kafka.Consumer.Handle.{handle_message}
use casino_transaction_syste.Kafka.Consumer.Batch.{gauge_inflight}
use casino_transaction_syste.Kafka.Consumer.Worker.{
  Input, received, closed, ticked, Buffer, no_messages, append, is_full, flush, flush_if,
  take_parsed, serve_unless_done, partition_worker,
}
use casino_transaction_syste.Kafka.System.{
  System, begin, put, loops, works, ticks, waits, Reach, here, next,
}
use casino_transaction_syste.Kafka.System.Steps.{Wp_at}
use casino_transaction_syste.Kafka.System.Complete.{waiting}

module _ {W A : Type 0} where
  Wp-any :
      (r : Option (A × State W)) {Q : A → State W → Type 0}
      → ((a : A) (s : State W) → Q a s)
      → Wp r Q
  Wp-any none h = tt
  Wp-any (some (a, s)) h = h a s

-- The loop behind any steps of it: while a worker is within a flush, the loop, the other workers and the
-- context go on.
pub data Later (l : Fetch.Loop) : Fetch.Loop → Type 0 where
  at_once : Later l l
  behind : {m n : Fetch.Loop} → Later l m → Fetch.Step m n → Later l n

Later-Reach : {l m : Fetch.Loop} → Fetch.Reach l → Later l m → Fetch.Reach m
Later-Reach r at_once = r
Later-Reach r (behind before step) = Fetch.next (Later-Reach r before) step

-- What waits of a partition where its worker holds these messages.
abbrev pub held : List Message → ℕ → Fetch.Loop → List Message
held ms p l = ms ++ queue_of p l.channels ++ only p (waiting l.place)

module _ {W : Type 0} (c : Consumer W) where
  abbrev pub capacity : ℕ
  capacity = pos_part c.cfg.batch_size + partition_worker_queue_size

  -- The messages that wait in the process. A worker that waits or that flushes on a tick holds its batch;
  -- one that serves a message holds this one too, until its flush is over.
  pub record IsBounded (s : System W) : Type 0 where
    pub resting :
        (p : ℕ) (l : Fetch.Loop) → Later s.loop l → length (held (s.buffers p).msgs p l) ≤ capacity
    pub serving :
        (msg : Message) (queue : List Message) (l : Fetch.Loop)
        → queue_of msg.partition s.loop.channels ≡ msg ∷ queue
        → Later (Fetch.receive msg s.loop) l
        → length (held ((s.buffers msg.partition).msgs ++ msg ∷ []) msg.partition l) ≤ capacity + 1

module _ {W : Type 0} (c : Consumer W) (usable : IsUsable c.cfg) where
  -- The batch has room for one more message.
  abbrev HasRoom : Buffer → Type 0
  HasRoom b = is_full c b ≡ false

  no_messages-HasRoom : HasRoom no_messages
  no_messages-HasRoom = let h = usable.batch_positive in ground arith

  emptied :
      {A : Type 0} (m : M W A) (s : State W)
      → Wp ((m >>= λ _. pure no_messages) s) (λ b s'. HasRoom b)
  emptied m s =
      Wp-continue (m s) (λ _. pure no_messages) (λ b s'. HasRoom b)
        (Wp-any (m s) (λ a u. no_messages-HasRoom))

  flush_if-HasRoom :
      (full : Bool) (b : Buffer) (s : State W)
      → is_full c b ≡ full
      → Wp (flush_if c full b s) (λ b' s'. HasRoom b')
  flush_if-HasRoom true b s e = emptied (flush c b) s
  flush_if-HasRoom false b s e = e

  take_parsed-HasRoom :
      (b : Buffer) (msg : Message) (r : Result GoError Transaction) (s : State W)
      → Wp (take_parsed c b msg r s) (λ b' s'. HasRoom b')
  take_parsed-HasRoom b msg (ok t) s =
      flush_if-HasRoom (is_full c (append b msg t)) (append b msg t) s refl
  take_parsed-HasRoom b msg (err e) s =
      let last : M W Buffer = gauge_inflight c (sub_ℕ 0 1) >> pure no_messages in
      let handle : M W Buffer = handle_message c msg >> last in
      Wp-continue (flush c b s) (λ _. gauge_inflight c (pos 1) >> handle) (λ b' s'. HasRoom b')
        (Wp-any (flush c b s) (λ _ u.
          Wp-continue (gauge_inflight c (pos 1) u) (λ _. handle) (λ b' s'. HasRoom b')
            (Wp-any (gauge_inflight c (pos 1) u) (λ _ v.
              Wp-continue (handle_message c msg v) (λ _. last) (λ b' s'. HasRoom b')
                (Wp-any (handle_message c msg v)
                  (λ _ x. emptied (gauge_inflight c (sub_ℕ 0 1)) x))))))

  serve_unless_done-HasRoom :
      (again : Buffer → M W Buffer) (b : Buffer) (msg : Message) (done : Option GoError)
      (s : State W)
      → ((b' : Buffer) (u : State W) → HasRoom b' → Wp (again b' u) (λ b'' s'. HasRoom b''))
      → HasRoom b
      → Wp (serve_unless_done c again b msg done s) (λ b' s'. HasRoom b')
  serve_unless_done-HasRoom again b msg (some d) s f h = h
  serve_unless_done-HasRoom again b msg none s f h =
      let take : M W Buffer = take_parsed c b msg (parsed c msg) in
      Wp-continue (take s) again (λ b' s'. HasRoom b')
        (Wp-mono (take s) (λ b' u k. f b' u k) (take_parsed-HasRoom b msg (parsed c msg) s))

  -- Wherever a worker waits or ends, its batch has room.
  partition_worker-HasRoom :
      (is : List Input) (b : Buffer) (s : State W)
      → HasRoom b
      → Wp (partition_worker c is b s) (λ b' s'. HasRoom b')
  unfolding partition_worker
  partition_worker-HasRoom [] b s h = h
  partition_worker-HasRoom (closed ∷ is) b s h = h
  partition_worker-HasRoom (ticked ∷ is) b s h =
      let u : State W = record s { world = c.outside.wait s.world } in
      Wp-continue (flush c b u) (λ _. partition_worker c is no_messages) (λ b' s'. HasRoom b')
        (Wp-any (flush c b u)
          (λ _ v. partition_worker-HasRoom is no_messages v no_messages-HasRoom))
  partition_worker-HasRoom (received msg ∷ is) b s h =
      serve_unless_done-HasRoom (λ b'. partition_worker c is b') b msg
        (c.outside.app_err (c.outside.wait s.world)) (record s { world = c.outside.wait s.world })
        (λ b' u k. partition_worker-HasRoom is b' u k) h

  put-HasRoom :
      (p : ℕ) (b : Buffer) (buffers : ℕ → Buffer)
      → HasRoom b
      → ((j : ℕ) → HasRoom (buffers j))
      → (j : ℕ) → HasRoom (put p b buffers j)
  put-HasRoom p b buffers h k j = elim (Bool-cases (p == j)) [
    | inl same ↦ rw same h
    | inr apart ↦ rw apart (k j)
  ]

  module _ (elsewhere : W → W → Type 0) where
    -- What the bound needs of a state.
    record IsRoomy (s : System W) : Type 0 where
      reached : Fetch.Reach s.loop
      rooms : (p : ℕ) → HasRoom (s.buffers p)

    Reach-IsRoomy : {from : State W} {s : System W} → Reach c elsewhere (begin from) s → IsRoomy s
    Reach-IsRoomy here = record { reached = Fetch.here; rooms = λ p. no_messages-HasRoom }
    Reach-IsRoomy (next before (loops l step same sees)) =
        let h = Reach-IsRoomy before in
        record { reached = Fetch.next h.reached step; rooms = h.rooms }
    Reach-IsRoomy (next {t} before (works msg queue b u at ran)) =
        let h = Reach-IsRoomy before in
        record {
          reached = Fetch.next h.reached (Fetch.take msg queue at);
          rooms =
              put-HasRoom msg.partition b t.buffers
                (Wp_at (λ b' s'. HasRoom b') ran
                  (partition_worker-HasRoom (received msg ∷ []) (t.buffers msg.partition) t.shared
                    (h.rooms msg.partition)))
                h.rooms;
        }
    Reach-IsRoomy (next {t} before (ticks p b u ran)) =
        let h = Reach-IsRoomy before in
        record {
          reached = h.reached;
          rooms =
              put-HasRoom p b t.buffers
                (Wp_at (λ b' s'. HasRoom b') ran
                  (partition_worker-HasRoom (ticked ∷ []) (t.buffers p) t.shared (h.rooms p)))
                h.rooms;
        }
    Reach-IsRoomy (next before (waits w moved)) =
        let h = Reach-IsRoomy before in record { reached = h.reached; rooms = h.rooms }

    length-waiting : (p : ℕ) (place : Place) → length (only p (waiting place)) ≤ 1
    unfolding only
    length-waiting p fetching = omega arith
    length-waiting p (sending m) = ground arith
    length-waiting p (returned e) = omega arith

    length-room : (b : Buffer) → HasRoom b → length b.msgs + 1 ≤ pos_part c.cfg.batch_size
    length-room b h = let k = usable.batch_positive in ground arith

    length-held :
        (ms : List Message) (p : ℕ) (l : Fetch.Loop)
        → Fetch.Reach l
        → length (held ms p l) ≤ length ms + partition_worker_queue_size + 1
    length-held ms p l reached =
        let queue : List Message = queue_of p l.channels in
        let last : List Message = only p (waiting l.place) in
        let all : length ((ms ++ queue) ++ last) ≡ length (ms ++ queue) + length last =
          length-append (ms ++ queue) last in
        omega (
          arith,
          all,
          length-append ms queue,
          (Reach-IsOrderly reached).bounded p,
          length-waiting p l.place,
        )

    -- In every state that the loop and the workers of Start reach together, under a usable configuration:
    -- the messages of a partition that wait in the batch of its worker, in its channel and at the `select`
    -- are together at most as many as the batch size and the capacity of the channel, also while the worker
    -- flushes on a tick and the loop goes on; and while it serves the next message of its channel, with
    -- this message in the batch, they are at most one more, wherever the loop has got to by then.
    pub Reach-IsBounded :
        (from : State W) (s : System W) → Reach c elsewhere (begin from) s → IsBounded c s
    Reach-IsBounded from s reach =
        let h = Reach-IsRoomy reach in
        record {
          resting = λ p l later. omega (
            arith,
            length-held (s.buffers p).msgs p l (Later-Reach h.reached later),
            length-room (s.buffers p) (h.rooms p),
          );
          serving = λ msg queue l at later.
              let batch : List Message = (s.buffers msg.partition).msgs in
              let reached = Fetch.next h.reached (Fetch.take msg queue at) in
              omega (
                arith,
                length-held (batch ++ msg ∷ []) msg.partition l (Later-Reach reached later),
                length-append batch (msg ∷ []),
                length-room (s.buffers msg.partition) (h.rooms msg.partition),
              );
        }
