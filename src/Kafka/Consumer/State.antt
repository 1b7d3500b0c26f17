-- ===== src/Kafka/Consumer/State.antt =====
-- The state that the methods of `Consumer` change, and the actions that they are made of.
use casino_transaction_syste.Prelude.{String, Option, none, some, List, ◌∷◌, ◌++◌}
use casino_transaction_syste.Prelude.Int.{ℤ, ◌+ℤ◌}
use casino_transaction_syste.TimeUtil.{Time}
use casino_transaction_syste.Domain.{Transaction}
use casino_transaction_syste.Errors.{GoError}
use casino_transaction_syste.Kafka.Message.{Message}

abbrev pub Labels : Type 0
Labels = List (String × String)

-- A call of the metrics sink. A duration is given by its two ends.
pub data Metric : Type 0 where
  inc_counter : String → Labels → ℤ → Metric
  set_gauge : String → Labels → ℤ → Metric
  observe_duration : String → Labels → Time → Time → Metric

-- A call that other parts of the system see, with its error.
pub data Action : Type 0 where
  stored : List Transaction → Option GoError → Action
  dead_lettered : Message → Option GoError → Action
  committed : List Message → Option GoError → Action

pub record State (W : Type 0) : Type 0 where
  pub world : W
  pub inflight : ℤ
  -- `fatalErr` of Start, which `fatalOnce` guards
  pub fatal : Option GoError
  -- the newest first
  pub trace : List Action
  pub metrics : List Metric

-- `none` means that a loop without a bound has used up its fuel.
abbrev pub M : Type 0 → Type 0 → Type 0
M W A = State W → Option (A × State W)

module _ {W A B : Type 0} where
  abbrev pub continue : Option (A × State W) → (A → M W B) → Option (B × State W)
  continue none f = none
  continue (some (a, s)) f = f a s

  infixl 5 ◌>>=◌
  abbrev pub ◌>>=◌ : M W A → (A → M W B) → M W B
  ◌>>=◌ m f s = continue (m s) f

  infixl 5 ◌>>◌
  abbrev pub ◌>>◌ : M W A → M W B → M W B
  ◌>>◌ m k = m >>= λ _. k

module _ {W A : Type 0} where
  abbrev pub pure : A → M W A
  pure a s = some (a, s)

  abbrev pub out_of_fuel : M W A
  out_of_fuel s = none

  -- A call of the outside, and what of it is put on the trace.
  abbrev pub call : (W → A × W) → (A → List Action) → M W A
  call f seen s =
      let (a, w) = f s.world in some (a, record s { world = w; trace = seen a ++ s.trace })

  abbrev pub ask : (W → A) → M W A
  ask f s = some (f s.world, s)

module _ {W : Type 0} where
  abbrev pub emit : Metric → M W (Unit {0})
  emit m s = some (tt, record s { metrics = m ∷ s.metrics })

  abbrev pub move : (W → W) → M W (Unit {0})
  move f s = some (tt, record s { world = f s.world })

  -- atomic.AddInt64(&c.inflight, n), and its result
  abbrev pub add_inflight : ℤ → M W ℤ
  add_inflight n s = some (s.inflight +ℤ n, record s { inflight = s.inflight +ℤ n })

-- What holds of every result that an action returns.
module _ {W A : Type 0} where
  abbrev pub Wp : Option (A × State W) → (A → State W → Type 0) → Type 0
  Wp none Q = Unit
  Wp (some (a, s)) Q = Q a s

  pub Wp-mono :
      (r : Option (A × State W)) {P Q : A → State W → Type 0}
      → ((a : A) (s : State W) → P a s → Q a s)
      → Wp r P
      → Wp r Q
  Wp-mono none k h = tt
  Wp-mono (some (a, s)) k h = k a s h

module _ {W A B : Type 0} where
  pub Wp-continue :
      (r : Option (A × State W)) (f : A → M W B) (Q : B → State W → Type 0)
      → Wp r (λ a s. Wp (f a s) Q)
      → Wp (continue r f) Q
  Wp-continue none f Q h = tt
  Wp-continue (some (a, s)) f Q h = h

-- What holds of the result that an action returns; it does return.
module _ {W A : Type 0} where
  abbrev pub Wt : Option (A × State W) → (A → State W → Type 0) → Type 0
  Wt none Q = ⊥
  Wt (some (a, s)) Q = Q a s

  pub Wt-mono :
      (r : Option (A × State W)) {P Q : A → State W → Type 0}
      → ((a : A) (s : State W) → P a s → Q a s)
      → Wt r P
      → Wt r Q
  Wt-mono none k h = absurd h
  Wt-mono (some (a, s)) k h = k a s h

  pub Wt_of_Wp : (r : Option (A × State W)) (P Q : A → State W → Type 0) → Wt r P → Wp r Q → Wt r Q
  Wt_of_Wp none P Q h k = absurd h
  Wt_of_Wp (some (a, s)) P Q h k = k

module _ {W A B : Type 0} where
  pub Wt-continue :
      (r : Option (A × State W)) (f : A → M W B) (Q : B → State W → Type 0)
      → Wt r (λ a s. Wt (f a s) Q)
      → Wt (continue r f) Q
  Wt-continue none f Q h = absurd h
  Wt-continue (some (a, s)) f Q h = h
