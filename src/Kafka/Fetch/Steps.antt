-- ===== src/Kafka/Fetch/Steps.antt =====
-- What each step of the fetch loop does to its invariant.
use casino_transaction_syste.Prelude.{
  ℕ, ◌≤◌, ◌≡◌, inl, inr, refl, sym, ◌∙◌, ap, subst, Bool, true, false, List, [], ◌∷◌, ◌++◌, length,
  arith, Bool-cases,
}
use casino_transaction_syste.Errors.{GoError, is_canceled}
use casino_transaction_syste.Kafka.Message.{Message}
use casino_transaction_syste.Kafka.Fetch.{
  Place, fetching, sending, returned, Loop, start, load_or_store, on_message, leave, on_fetch_error,
  fail, Step, fetch, fetch_error, deliver, give_up, take, cancel, fail_fatally,
  partition_worker_queue_size,
}
use casino_transaction_syste.Kafka.Fetch.Workers.{
  has_channel, queue_of, queue_of-new, has_channel-new,
}
use casino_transaction_syste.Kafka.Fetch.Invariant.{only, Handed, IsOrderly}
use casino_transaction_syste.Kafka.Fetch.Transfer.{
  Handed-sending, send-IsOrderly, receive-IsOrderly,
}

pub start-IsOrderly : IsOrderly start
unfolding only queue_of
start-IsOrderly = record {
  streams = λ p. refl;
  bounded = λ p. omega arith;
  handed = refl;
  workers = refl;
  distinct = tt;
  ready = λ m h. cc;
}

-- A new channel is empty, so it holds what no channel held.
new_channel-IsOrderly :
    (p : ℕ) (l : Loop)
    → has_channel p l.channels ≡ false
    → l.place ≡ fetching
    → IsOrderly l
    → IsOrderly (record l { channels = (p, []) ∷ l.channels; started = p ∷ l.started })
new_channel-IsOrderly p l new f o = record {
  streams =
      λ j. o.streams j ∙ ap (λ q. only j l.received ++ q) (sym (queue_of-new j p l.channels new));
  bounded = λ j.
      subst (λ q. length q ≤ partition_worker_queue_size) (sym (queue_of-new j p l.channels new))
        (o.bounded j);
  handed = o.handed;
  workers = ap (λ s. p ∷ s) o.workers;
  distinct = (new, o.distinct);
  ready = λ m h. cc;
}

-- The channel of a partition is there, and the loop is where it was.
record IsOpened (p : ℕ) (l l' : Loop) : Type 0 where
  orderly : IsOrderly l'
  opened : has_channel p l'.channels ≡ true
  sent : l'.sent ≡ l.sent

load_or_store-IsOpened :
    (p : ℕ) (l : Loop) → l.place ≡ fetching → IsOrderly l → IsOpened p l (load_or_store p l)
unfolding load_or_store
load_or_store-IsOpened p l f o = elim (Bool-cases (has_channel p l.channels)) [
  | inl old ↦ rw old (record { orderly = o; opened = old; sent = refl })
  | inr new ↦ rw new (record {
    orderly = new_channel-IsOrderly p l new f o;
    opened = has_channel-new p [] l.channels;
    sent = refl;
  })
]

Handed-fetching :
    (p : Place) (b : Bool) (f s : List Message) → p ≡ fetching → Handed p b f s → f ≡ s
Handed-fetching fetching b f s e h = h
Handed-fetching (sending m) b f s e h = cc
Handed-fetching (returned r) b f s e h = cc

pending : Place → Message → Message
pending fetching m = m
pending (sending n) m = n
pending (returned r) m = m

sending_inj : {m n : Message} → sending m ≡ sending n → m ≡ n
unfolding pending
sending_inj {m} e = ap (λ p. pending p m) e

on_message-IsOrderly :
    (msg : Message) (l : Loop) → l.place ≡ fetching → IsOrderly l → IsOrderly (on_message msg l)
unfolding on_message
on_message-IsOrderly msg l f o =
    let l' = load_or_store msg.partition l in
    let k = load_or_store-IsOpened msg.partition l f o in
    record {
      streams = k.orderly.streams;
      bounded = k.orderly.bounded;
      handed =
          ap (λ s. s ++ msg ∷ [])
            (Handed-fetching l.place l.cancelled l.fetched l.sent f o.handed ∙ sym k.sent);
      workers = k.orderly.workers;
      distinct = k.orderly.distinct;
      ready =
          λ m h. subst (λ x. has_channel x.partition l'.channels ≡ true) (sending_inj h) k.opened;
    }

leave-IsOrderly :
    (l : Loop)
    → Handed (returned l.fatal) l.cancelled l.fetched l.sent
    → IsOrderly l
    → IsOrderly (leave l)
unfolding leave
leave-IsOrderly l h o = record {
  streams = o.streams;
  bounded = o.bounded;
  handed = h;
  workers = o.workers;
  distinct = o.distinct;
  ready = λ m e. cc;
}

on_fetch_error-IsOrderly :
    (e : GoError) (l : Loop) → l.place ≡ fetching → IsOrderly l → IsOrderly (on_fetch_error e l)
unfolding on_fetch_error
on_fetch_error-IsOrderly e l f o = elim (Bool-cases (is_canceled e)) [
  | inl ends ↦
      rw ends (
        leave-IsOrderly l (inl (Handed-fetching l.place l.cancelled l.fetched l.sent f o.handed)) o)
  | inr on ↦ rw on (record {
    streams = o.streams;
    bounded = o.bounded;
    handed = o.handed;
    workers = o.workers;
    distinct = o.distinct;
    ready = o.ready;
  })
]

Handed-true : (p : Place) (b : Bool) (f s : List Message) → Handed p b f s → Handed p true f s
Handed-true fetching b f s h = h
Handed-true (sending m) b f s h = h
Handed-true (returned r) b f s h = elim h [
  | inl all ↦ inl all
  | inr last ↦ inr (last.0, last.1, refl)
]

cancel-IsOrderly : (l : Loop) → IsOrderly l → IsOrderly (record l { cancelled = true })
cancel-IsOrderly l o = record {
  streams = o.streams;
  bounded = o.bounded;
  handed = Handed-true l.place l.cancelled l.fetched l.sent o.handed;
  workers = o.workers;
  distinct = o.distinct;
  ready = o.ready;
}

fail-IsOrderly : (e : GoError) (l : Loop) → IsOrderly l → IsOrderly (fail e l)
unfolding fail
fail-IsOrderly e l o = record {
  streams = o.streams;
  bounded = o.bounded;
  handed = Handed-true l.place l.cancelled l.fetched l.sent o.handed;
  workers = o.workers;
  distinct = o.distinct;
  ready = o.ready;
}

give_up-Handed :
    (msg : Message) (l : Loop)
    → l.place ≡ sending msg
    → l.cancelled ≡ true
    → IsOrderly l
    → Handed (returned l.fatal) l.cancelled l.fetched l.sent
give_up-Handed msg l at c o =
    inr (msg, Handed-sending l.place l.cancelled l.fetched l.sent msg at o.handed, c)

pub Step-IsOrderly : {l l' : Loop} → Step l l' → IsOrderly l → IsOrderly l'
Step-IsOrderly {l} (fetch msg at) o = on_message-IsOrderly msg l at o
Step-IsOrderly {l} (fetch_error e at) o = on_fetch_error-IsOrderly e l at o
Step-IsOrderly {l} (deliver msg at room) o = send-IsOrderly msg l at room o
Step-IsOrderly {l} (give_up msg at c) o = leave-IsOrderly l (give_up-Handed msg l at c o) o
Step-IsOrderly {l} (take msg queue at) o = receive-IsOrderly msg queue l at o
Step-IsOrderly {l} cancel o = cancel-IsOrderly l o
Step-IsOrderly {l} (fail_fatally e) o = fail-IsOrderly e l o
