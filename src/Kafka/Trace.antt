-- ===== src/Kafka/Trace.antt =====
-- What a trace of the consumer says of a message, and how a trace grows.
pub mod Order
use casino_transaction_syste.Prelude.{
  ◌≡◌, ◌⊎◌, inl, inr, none, some, List, [], ◌∷◌, Result, ok, All,
}
use casino_transaction_syste.Domain.{Transaction}
use casino_transaction_syste.Errors.{GoError}
use casino_transaction_syste.Kafka.Message.{Message}
use casino_transaction_syste.Kafka.Consumer.State.{Action, stored, dead_lettered, committed}

abbrev pub Has : {A : Type 0} → A → List A → Type 0
Has a [] = ⊥
Has a (x ∷ xs) = (x ≡ a) ⊎ Has a xs

-- The service has accepted the transaction, alone or in bulk.
abbrev pub IsStored : Transaction → List Action → Type 0
IsStored t [] = ⊥
IsStored t (stored ts none ∷ past) = Has t ts ⊎ IsStored t past
IsStored t (_ ∷ past) = IsStored t past

-- The dead letter queue has accepted the message.
abbrev pub IsDeadLettered : Message → List Action → Type 0
IsDeadLettered m [] = ⊥
IsDeadLettered m (dead_lettered k none ∷ past) = (k ≡ m) ⊎ IsDeadLettered m past
IsDeadLettered m (_ ∷ past) = IsDeadLettered m past

-- Kafka has accepted a commit of the message.
abbrev pub IsCommitted : Message → List Action → Type 0
IsCommitted m [] = ⊥
IsCommitted m (committed ms none ∷ past) = Has m ms ⊎ IsCommitted m past
IsCommitted m (_ ∷ past) = IsCommitted m past

module _ (parsed : Message → Result GoError Transaction) where
  -- Committing the message loses nothing.
  abbrev pub IsSettled : List Action → Message → Type 0
  IsSettled past m =
      ((t : Transaction) × (parsed m ≡ ok t) × IsStored t past) ⊎ IsDeadLettered m past

  -- Every commit, also a failed one, is of messages that were settled before it.
  abbrev pub IsSafe : List Action → Type 0
  IsSafe [] = Unit
  IsSafe (committed ms r ∷ past) = All (IsSettled past) ms × IsSafe past
  IsSafe (_ ∷ past) = IsSafe past

-- An action that commits nothing.
abbrev pub IsQuiet : List Action → Action → Type 0
IsQuiet past (committed ms r) = ⊥
IsQuiet past _ = Unit

abbrev pub Anything : List Action → Action → Type 0
Anything past a = Unit

-- `now` is `past` with actions of one kind in front; the kind may ask what came before.
pub data Extends (P : List Action → Action → Type 0) (past : List Action)
    : List Action → Type 0 where
  same : Extends P past past
  more : {now : List Action} {a : Action} → P now a → Extends P past now → Extends P past (a ∷ now)

module _ {P : List Action → Action → Type 0} {past : List Action} where
  pub Extends-trans :
      {mid now : List Action} → Extends P past mid → Extends P mid now → Extends P past now
  Extends-trans e same = e
  Extends-trans e (more p f) = more p (Extends-trans e f)

  pub Extends-weaken : {now : List Action} → Extends P past now → Extends Anything past now
  Extends-weaken same = same
  Extends-weaken (more p e) = more tt (Extends-weaken e)

IsStored-cons :
    (t : Transaction) (a : Action) (past : List Action) → IsStored t past → IsStored t (a ∷ past)
IsStored-cons t (stored ts none) past h = inr h
IsStored-cons t (stored ts (some e)) past h = h
IsStored-cons t (dead_lettered k r) past h = h
IsStored-cons t (committed ms r) past h = h

IsDeadLettered-cons :
    (m : Message) (a : Action) (past : List Action)
    → IsDeadLettered m past
    → IsDeadLettered m (a ∷ past)
IsDeadLettered-cons m (stored ts r) past h = h
IsDeadLettered-cons m (dead_lettered k none) past h = inr h
IsDeadLettered-cons m (dead_lettered k (some e)) past h = h
IsDeadLettered-cons m (committed ms r) past h = h

IsCommitted-cons :
    (m : Message) (a : Action) (past : List Action) → IsCommitted m past → IsCommitted m (a ∷ past)
IsCommitted-cons m (stored ts r) past h = h
IsCommitted-cons m (dead_lettered k r) past h = h
IsCommitted-cons m (committed ms none) past h = inr h
IsCommitted-cons m (committed ms (some e)) past h = h

pub IsCommitted-Extends :
    {P : List Action → Action → Type 0} {past now : List Action} (m : Message)
    → Extends P past now
    → IsCommitted m past
    → IsCommitted m now
IsCommitted-Extends m same h = h
IsCommitted-Extends m (more {now = now} {a = a} p e) h =
    IsCommitted-cons m a now (IsCommitted-Extends m e h)

pub IsStored-Extends :
    {P : List Action → Action → Type 0} {past now : List Action} (t : Transaction)
    → Extends P past now
    → IsStored t past
    → IsStored t now
IsStored-Extends t same h = h
IsStored-Extends t (more {now = now} {a = a} p e) h = IsStored-cons t a now (IsStored-Extends t e h)

pub IsDeadLettered-Extends :
    {P : List Action → Action → Type 0} {past now : List Action} (m : Message)
    → Extends P past now
    → IsDeadLettered m past
    → IsDeadLettered m now
IsDeadLettered-Extends m same h = h
IsDeadLettered-Extends m (more {now = now} {a = a} p e) h =
    IsDeadLettered-cons m a now (IsDeadLettered-Extends m e h)

module _ (parsed : Message → Result GoError Transaction) where
  pub IsSettled-Extends :
      {P : List Action → Action → Type 0} {past now : List Action} (m : Message)
      → Extends P past now
      → IsSettled parsed past m
      → IsSettled parsed now m
  IsSettled-Extends m e (inl (t, p, h)) = inl (t, p, IsStored-Extends t e h)
  IsSettled-Extends m e (inr h) = inr (IsDeadLettered-Extends m e h)

  pub All-IsSettled-Extends :
      {P : List Action → Action → Type 0} {past now : List Action} (ms : List Message)
      → Extends P past now
      → All (IsSettled parsed past) ms
      → All (IsSettled parsed now) ms
  All-IsSettled-Extends [] e h = tt
  All-IsSettled-Extends (m ∷ ms) e h = (IsSettled-Extends m e h.0, All-IsSettled-Extends ms e h.1)

  IsSafe-cons :
      (a : Action) (past : List Action)
      → IsQuiet past a
      → IsSafe parsed past
      → IsSafe parsed (a ∷ past)
  IsSafe-cons (stored ts r) past q h = h
  IsSafe-cons (dead_lettered k r) past q h = h
  IsSafe-cons (committed ms r) past q h = absurd q

  pub IsSafe-Extends :
      {past now : List Action} → Extends IsQuiet past now → IsSafe parsed past → IsSafe parsed now
  IsSafe-Extends same h = h
  IsSafe-Extends (more {now = now} {a = a} p e) h = IsSafe-cons a now p (IsSafe-Extends e h)
