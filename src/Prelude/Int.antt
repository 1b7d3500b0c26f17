-- ===== src/Prelude/Int.antt =====
-- Go's int64: the integers, and arithmetic that wraps around at 64 bits.
use casino_transaction_syste.Prelude.{
  ℕ, suc, ◌+◌, ◌-◌, ◌*◌, ◌%◌, ◌^◌, ◌≤◌, ◌≡◌, Bool, arith, ltb, leb, if◌then◌else◌,
}

-- `negsuc n` is -(n + 1).
pub data ℤ : Type 0 where
  pos : ℕ → ℤ
  negsuc : ℕ → ℤ

abbrev pub pos_part : ℤ → ℕ
pos_part (pos n) = n
pos_part (negsuc n) = 0

abbrev pub neg_part : ℤ → ℕ
neg_part (pos n) = 0
neg_part (negsuc n) = suc n

-- a - b, as an integer.
abbrev pub sub_ℕ : ℕ → ℕ → ℤ
sub_ℕ a b = if leb b a then pos (a - b) else negsuc (b - a - 1)

abbrev pub ltb_ℤ : ℤ → ℤ → Bool
ltb_ℤ a b = ltb (pos_part a + neg_part b) (pos_part b + neg_part a)

abbrev pub leb_ℤ : ℤ → ℤ → Bool
leb_ℤ a b = leb (pos_part a + neg_part b) (pos_part b + neg_part a)

infix 50 ◌≤ℤ◌
abbrev pub ◌≤ℤ◌ : ℤ → ℤ → Type 0
a ≤ℤ b = pos_part a + neg_part b ≤ pos_part b + neg_part a

abbrev pub max_int64 : ℕ
max_int64 = 2 ^ 63 - 1

-- The values of an int64.
abbrev pub IsInt64 : ℤ → Type 0
IsInt64 a = (pos_part a ≤ max_int64) × (neg_part a ≤ 2 ^ 63)

-- The int64 with the bit pattern of `a - b` modulo 2 ^ 64.
abbrev pub wrap_parts : ℕ → ℕ → ℤ
wrap_parts a b =
    let w = (a + (2 ^ 64 - b % 2 ^ 64)) % 2 ^ 64 in
    if ltb w (2 ^ 63) then pos w else negsuc (2 ^ 64 - w - 1)

infixl 65 ◌+ℤ◌ ◌-ℤ◌
-- Go's `a + b`, `a - b` and `-a` on int64.
unfoldable pub ◌+ℤ◌ : ℤ → ℤ → ℤ
a +ℤ b = wrap_parts (pos_part a + pos_part b) (neg_part a + neg_part b)

unfoldable pub ◌-ℤ◌ : ℤ → ℤ → ℤ
a -ℤ b = wrap_parts (pos_part a + neg_part b) (neg_part a + pos_part b)

unfoldable pub negate : ℤ → ℤ
negate a = wrap_parts (neg_part a) (pos_part a)

infixl 70 ◌*ℤ◌
unfoldable pub ◌*ℤ◌ : ℤ → ℤ → ℤ
a *ℤ b =
    wrap_parts (pos_part a * pos_part b + neg_part a * neg_part b)
      (pos_part a * neg_part b + neg_part a * pos_part b)

-- Where the true sum is an int64, the wrapped one is the true one.
pub add_exact :
    (a b : ℤ)
    → IsInt64 a
    → IsInt64 b
    → IsInt64 (sub_ℕ (pos_part a + pos_part b) (neg_part a + neg_part b))
    → a +ℤ b ≡ sub_ℕ (pos_part a + pos_part b) (neg_part a + neg_part b)
unfolding ◌+ℤ◌
add_exact a b ha hb h = ground arith

-- Adding and taking away again, at 64 bits.
pub add_sub_cancel : (a : ℤ) (n : ℕ) → IsInt64 a → a +ℤ pos n +ℤ sub_ℕ 0 n ≡ a
unfolding ◌+ℤ◌
add_sub_cancel a n h = ground arith

pub sub_add_cancel : (a : ℤ) (n : ℕ) → IsInt64 a → a +ℤ sub_ℕ 0 n +ℤ pos n ≡ a
unfolding ◌+ℤ◌
sub_add_cancel a n h = ground arith

pub add-IsInt64 : (a b : ℤ) → IsInt64 (a +ℤ b)
unfolding ◌+ℤ◌
add-IsInt64 a b = ground arith
