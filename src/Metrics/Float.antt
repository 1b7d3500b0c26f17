-- ===== src/Metrics/Float.antt =====
-- float64, as far as the sink uses it: its operations are a parameter, those of IEEE 754 in Go.

use casino_transaction_syste.Prelude.{ℕ, ◌≤◌, ◌≡◌, ◌^◌, Bool, true, false}
use casino_transaction_syste.Prelude.Int.{ℤ, pos, ◌≤ℤ◌}

pub record Float (F : Type 0) : Type 0 where
  -- `float64(i)`
  pub of_int : ℤ → F
  pub add : F → F → F
  pub sub : F → F → F
  pub mul : F → F → F
  pub div : F → F → F
  -- `<=`
  pub le : F → F → Bool
  -- `int(math.Floor(x))` and `int(math.Ceil(x))`
  pub floor : F → ℤ
  pub ceil : F → ℤ
  -- 0.50 and 0.95
  pub half : F
  pub most : F

module _ {F : Type 0} (f : Float F) where
  -- Between 0 and 1, and neither of them; not NaN.
  pub record IsPart (q : F) : Type 0 where
    pub positive : f.le q (f.of_int (pos 0)) ≡ false
    pub below_one : f.le (f.of_int (pos 1)) q ≡ false
    pub ordered : (f.le (f.of_int (pos 0)) q ≡ true) × (f.le q (f.of_int (pos 1)) ≡ true)

  -- From 0 up to a whole number that is at most 2^53; not NaN, and floor and ceil are in range.
  pub record IsIndex (n : ℕ) (x : F) : Type 0 where
    pub small : n ≤ 2 ^ 53
    pub sign : f.le (f.of_int (pos 0)) x ≡ true
    pub limit : f.le x (f.of_int (pos n)) ≡ true

-- What the sink relies on: integers up to 2^53 are floats, the conversion of an integer is not NaN, and
-- rounding keeps the order.
pub record IsLawful {F : Type 0} (f : Float F) : Type 0 where
  pub half_part : IsPart f f.half
  pub most_part : IsPart f f.most
  pub of_int_total :
      (i j : ℤ) → f.le (f.of_int i) (f.of_int j) ≡ false → f.le (f.of_int j) (f.of_int i) ≡ true
  pub le_trans : (x y z : F) → f.le x y ≡ true → f.le y z ≡ true → f.le x z ≡ true
  -- a part of a whole number that is not negative
  pub mul_part :
      (q : F) (n : ℕ) → IsPart f q → n ≤ 2 ^ 53 → IsIndex f n (f.mul q (f.of_int (pos n)))
  pub floor_sign : (x : F) (n : ℕ) → IsIndex f n x → pos 0 ≤ℤ f.floor x
  pub floor_ceil : (x : F) (n : ℕ) → IsIndex f n x → f.floor x ≤ℤ f.ceil x
  pub ceil_le : (x : F) (n : ℕ) → IsIndex f n x → f.ceil x ≤ℤ pos n
