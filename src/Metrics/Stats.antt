-- ===== src/Metrics/Stats.antt =====
-- durationStats and quantile; `none` is the panic of an index out of range.
pub mod Total
pub mod Sorted
use casino_transaction_syste.Prelude.{
  ℕ, zero, suc, ◌-◌, Bool, true, false, if◌then◌else◌, ◌&&◌, ◌==◌, Option, none, some, List, [],
  ◌∷◌, length,
}
use casino_transaction_syste.Prelude.Int.{ℤ, pos, negsuc, pos_part, neg_part, sub_ℕ}
use casino_transaction_syste.Metrics.Float.{Float}

-- The entries of the map of durationStats.
pub record Stats (F : Type 0) : Type 0 where
  pub count : F
  pub avg : F
  pub p50 : F
  pub p95 : F
  pub max : F

abbrev pub eq_ℤ : ℤ → ℤ → Bool
eq_ℤ a b = pos_part a == pos_part b && neg_part a == neg_part b

infixl 5 ◌>>=◌
abbrev pub ◌>>=◌ : {A B : Type 0} → Option A → (A → Option B) → Option B
none >>= g = none
some a >>= g = g a

module _ {F : Type 0} where
  unfoldable pub nth : List F → ℕ → Option F
  nth [] n = none
  nth (x ∷ xs) zero = some x
  nth (x ∷ xs) (suc n) = nth xs n

  abbrev pub index : List F → ℤ → Option F
  index xs (pos n) = nth xs n
  index xs (negsuc n) = none

module _ {F : Type 0} (f : Float F) where
  unfoldable pub insert_float : F → List F → List F
  insert_float x [] = x ∷ []
  insert_float x (y ∷ ys) = if f.le x y then x ∷ y ∷ ys else y ∷ insert_float x ys

  -- `sort.Float64s`
  unfoldable pub sort_floats : List F → List F
  unfolding insert_float
  sort_floats [] = []
  sort_floats (x ∷ xs) = insert_float x (sort_floats xs)

  unfoldable pub sum_from : F → List F → F
  sum_from s [] = s
  sum_from s (v ∷ vs) = sum_from (f.add s v) vs

  -- Between the values at `left` and `right`.
  unfoldable pub between : List F → F → ℤ → ℤ → Option F
  unfolding nth
  between sorted at left right = if eq_ℤ left right then index sorted left else do
    a ← index sorted left
    b ← index sorted right
    let weight = f.sub at (f.of_int left)
    some (f.add (f.mul a (f.sub (f.of_int (pos 1)) weight)) (f.mul b weight))

  unfoldable pub quantile : List F → F → Option F
  unfolding nth between
  quantile [] q = some (f.of_int (pos 0))
  quantile (x ∷ xs) q =
      let last = pos (length xs) in
      let at = f.mul q (f.of_int last) in
      if f.le q (f.of_int (pos 0))
      then some x
      else if f.le (f.of_int (pos 1)) q
      then index (x ∷ xs) last
      else between (x ∷ xs) at (f.floor at) (f.ceil at)

  unfoldable pub duration_stats : List F → Option (Stats F)
  unfolding sort_floats sum_from quantile nth
  duration_stats values = do
    let sorted = sort_floats values
    let count = f.of_int (pos (length sorted))
    p50 ← quantile sorted f.half
    p95 ← quantile sorted f.most
    -- `values[len(values)-1]`; the length is 0 only where the index is -1
    max ← index sorted (sub_ℕ (length sorted) 1)
    some (record {
      count = count;
      avg = f.div (sum_from (f.of_int (pos 0)) sorted) count;
      p50 = p50;
      p95 = p95;
      max = max;
    })
