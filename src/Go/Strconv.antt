-- ===== src/Go/Strconv.antt =====
-- Go's `strconv.ParseInt(s, 10, 64)`. Its errors are told apart by no caller.
pub mod Digits
pub mod Itoa
use casino_transaction_syste.Prelude.{
  ℕ, ◌+◌, ◌-◌, ◌*◌, ◌^◌, Bool, true, false, ◌&&◌, Option, none, some, [], ◌∷◌, Bytes, leb, ◌==◌,
  if◌then◌else◌,
}
use casino_transaction_syste.Prelude.Int.{ℤ, pos, sub_ℕ, max_int64}

abbrev pub is_digit : ℕ → Bool
is_digit c = leb b'0' c && leb c b'9'

-- The number that the digits spell behind `n`.
unfoldable pub scan_digits : ℕ → Bytes → Option ℕ
scan_digits n [] = some n
scan_digits n (c ∷ s) =
    let rest = scan_digits (n * 10 + (c - b'0')) s in if is_digit c then rest else none

-- At least one digit is needed.
unfoldable pub parse_digits : Bytes → Option ℕ
unfolding scan_digits
parse_digits [] = none
parse_digits (c ∷ s) = scan_digits 0 (c ∷ s)

-- `int64` holds the magnitudes up to 2^63 - 1, and 2^63 behind a minus.
abbrev pub in_range : Bool → ℕ → Option ℤ
in_range true n = if leb n (2 ^ 63) then some (sub_ℕ 0 n) else none
in_range false n = if leb n max_int64 then some (pos n) else none

abbrev pub with_sign : Bool → Option ℕ → Option ℤ
with_sign neg none = none
with_sign neg (some n) = in_range neg n

unfoldable pub parse_int : Bytes → Option ℤ
unfolding parse_digits
parse_int [] = none
parse_int (c ∷ s) =
    if c == b'-'
    then with_sign true (parse_digits s)
    else if c == b'+'
    then with_sign false (parse_digits s)
    else with_sign false (parse_digits (c ∷ s))
