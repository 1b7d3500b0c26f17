-- ===== src/Go/Strconv/Digits.antt =====
-- `parse_int` on digits, with and without a sign.
use casino_transaction_syste.Prelude.{
  ℕ, ◌+◌, ◌-◌, ◌*◌, ◌≤◌, ◌≡◌, true, false, some, [], ◌∷◌, arith, Bytes, All,
}
use casino_transaction_syste.Go.Strconv.{scan_digits, parse_digits, parse_int, in_range}

abbrev pub IsDigit : ℕ → Type 0
IsDigit c = (b'0' ≤ c) × (c ≤ b'9')

-- The number that digits spell behind `n`.
abbrev pub value : ℕ → Bytes → ℕ
value n [] = n
value n (c ∷ s) = value (n * 10 + (c - b'0')) s

scan_digits-value : (n : ℕ) (s : Bytes) → All IsDigit s → scan_digits n s ≡ some (value n s)
unfolding scan_digits
scan_digits-value n [] h = ground arith
scan_digits-value n (c ∷ s) h = ground (arith, scan_digits-value (n * 10 + (c - b'0')) s h.1)

pub parse_digits-value :
    (c : ℕ) (s : Bytes) → All IsDigit (c ∷ s) → parse_digits (c ∷ s) ≡ some (value 0 (c ∷ s))
unfolding parse_digits
parse_digits-value c s h = scan_digits-value 0 (c ∷ s) h

pub parse_int-value :
    (c : ℕ) (s : Bytes) → All IsDigit (c ∷ s) → parse_int (c ∷ s) ≡ in_range false (value 0 (c ∷ s))
unfolding parse_int
parse_int-value c s h = ground (arith, parse_digits-value c s h)

pub parse_int-minus :
    (c : ℕ) (s : Bytes)
    → All IsDigit (c ∷ s)
    → parse_int (b'-' ∷ c ∷ s) ≡ in_range true (value 0 (c ∷ s))
unfolding parse_int
parse_int-minus c s h = ground (arith, parse_digits-value c s h)

pub parse_int-plus :
    (c : ℕ) (s : Bytes)
    → All IsDigit (c ∷ s)
    → parse_int (b'+' ∷ c ∷ s) ≡ in_range false (value 0 (c ∷ s))
unfolding parse_int
parse_int-plus c s h = ground (arith, parse_digits-value c s h)
