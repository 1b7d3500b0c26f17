-- ===== src/Kafka/Fetch/Transfer.antt =====
-- A message into a channel and out of it: what that does to the invariant of the fetch loop.
use casino_transaction_syste.Prelude.{
  ℕ, ◌≤◌, ◌<◌, ◌≡◌, sym, ◌∙◌, Bool, List, [], ◌∷◌, ◌++◌, length, length-append, arith, append_assoc,
  append-nil,
}
use casino_transaction_syste.Kafka.Message.{Message}
use casino_transaction_syste.Kafka.Fetch.{
  Place, fetching, sending, returned, Loop, send, receive, partition_worker_queue_size,
}
use casino_transaction_syste.Kafka.Fetch.Workers.{
  Channels, queue_of, push, drop_first, queue_of-push, queue_of-drop_first, partitions-push,
  partitions-drop_first, has_channel-push, has_channel-drop_first,
}
use casino_transaction_syste.Kafka.Fetch.Invariant.{only, only-append, Handed, Distinct, IsOrderly}

Distinct-push : (p : ℕ) (msg : Message) (cs : Channels) → Distinct cs → Distinct (push p msg cs)
unfolding push
Distinct-push p msg [] h = tt
Distinct-push p msg ((q, ms) ∷ cs) h =
    ground (arith, Distinct-push p msg cs, has_channel-push q p msg cs)

Distinct-drop_first : (p : ℕ) (cs : Channels) → Distinct cs → Distinct (drop_first p cs)
unfolding drop_first
Distinct-drop_first p [] h = tt
Distinct-drop_first p ((q, ms) ∷ cs) h =
    ground (arith, Distinct-drop_first p cs, has_channel-drop_first q p cs)

pub Handed-sending :
    (p : Place) (b : Bool) (f s : List Message) (m : Message)
    → p ≡ sending m
    → Handed p b f s
    → f ≡ s ++ m ∷ []
Handed-sending fetching b f s m e h = cc
Handed-sending (sending n) b f s m e h = cc
Handed-sending (returned r) b f s m e h = cc

push-streams :
    (msg : Message) (l : Loop)
    → l.place ≡ sending msg
    → IsOrderly l
    → (j : ℕ)
    → only j (l.sent ++ msg ∷ [])
      ≡ only j l.received ++ queue_of j (push msg.partition msg l.channels)
unfolding only
push-streams msg l at o j =
    rw
      (
        only-append j l.sent (msg ∷ []),
        queue_of-push j msg.partition msg l.channels (o.ready msg at),
        o.streams j,
      )
      (ground (
        arith,
        append_assoc (only j l.received) (queue_of j l.channels) (msg ∷ []),
        append-nil (only j l.received ++ queue_of j l.channels),
        append-nil (queue_of j l.channels),
      ))

push-bounded :
    (msg : Message) (l : Loop)
    → l.place ≡ sending msg
    → length (queue_of msg.partition l.channels) < partition_worker_queue_size
    → IsOrderly l
    → (j : ℕ)
    → length (queue_of j (push msg.partition msg l.channels)) ≤ partition_worker_queue_size
push-bounded msg l at room o j =
    rw (queue_of-push j msg.partition msg l.channels (o.ready msg at))
      (ground (arith, length-append (queue_of j l.channels) (msg ∷ []), o.bounded j))

drop_first-streams :
    (msg : Message) (queue : List Message) (l : Loop)
    → queue_of msg.partition l.channels ≡ msg ∷ queue
    → IsOrderly l
    → (j : ℕ)
    → only j l.sent
      ≡ only j (l.received ++ msg ∷ []) ++ queue_of j (drop_first msg.partition l.channels)
unfolding only
drop_first-streams msg queue l at o j =
    rw
      (
        only-append j l.received (msg ∷ []),
        queue_of-drop_first j msg.partition l.channels,
        o.streams j,
      )
      (grind
        (arith, append_assoc (only j l.received) (msg ∷ []) queue, append-nil (only j l.received)))

drop_first-bounded :
    (msg : Message) (queue : List Message) (l : Loop)
    → queue_of msg.partition l.channels ≡ msg ∷ queue
    → IsOrderly l
    → (j : ℕ)
    → length (queue_of j (drop_first msg.partition l.channels)) ≤ partition_worker_queue_size
drop_first-bounded msg queue l at o j =
    rw (queue_of-drop_first j msg.partition l.channels) (ground (arith, o.bounded j))

pub send-IsOrderly :
    (msg : Message) (l : Loop)
    → l.place ≡ sending msg
    → length (queue_of msg.partition l.channels) < partition_worker_queue_size
    → IsOrderly l
    → IsOrderly (send msg l)
unfolding send
send-IsOrderly msg l at room o = record {
  streams = push-streams msg l at o;
  bounded = push-bounded msg l at room o;
  handed = Handed-sending l.place l.cancelled l.fetched l.sent msg at o.handed;
  workers = o.workers ∙ sym (partitions-push msg.partition msg l.channels);
  distinct = Distinct-push msg.partition msg l.channels o.distinct;
  ready = λ m h. cc;
}

pub receive-IsOrderly :
    (msg : Message) (queue : List Message) (l : Loop)
    → queue_of msg.partition l.channels ≡ msg ∷ queue
    → IsOrderly l
    → IsOrderly (receive msg l)
unfolding receive
receive-IsOrderly msg queue l at o = record {
  streams = drop_first-streams msg queue l at o;
  bounded = drop_first-bounded msg queue l at o;
  handed = o.handed;
  workers = o.workers ∙ sym (partitions-drop_first msg.partition l.channels);
  distinct = Distinct-drop_first msg.partition l.channels o.distinct;
  ready = λ m h. has_channel-drop_first m.partition msg.partition l.channels ∙ o.ready m h;
}
