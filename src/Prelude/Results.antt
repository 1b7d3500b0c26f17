-- ===== src/Prelude/Results.antt =====
-- A Go result `(value, error)`, and the chain of calls that returns at the first error.
use mathlib.Core.Option.{Option, none, some}

pub data Result {ℓ} (E A : Type ℓ) : Type ℓ where
  ok : A → Result E A
  err : E → Result E A

infixl 5 ◌>>=◌
abbrev pub ◌>>=◌ {ℓ} : {E A B : Type ℓ} → Result E A → (A → Result E B) → Result E B
ok a >>= f = f a
err e >>= f = err e

-- The value, or the error `e` where there is none.
abbrev pub or_err {ℓ} : {E A : Type ℓ} → E → Option A → Result E A
or_err e none = err e
or_err e (some a) = ok a

abbrev pub absurd {ℓ} : {A : Type ℓ} → ⊥ → A
absurd h = elim h [ ]
