-- ===== src/Money.antt =====
-- pkg/money/amount.go: decimal texts into minor units.
pub mod Decimal
pub mod Parsing
pub mod Signs
pub mod Tests
use casino_transaction_syste.Prelude.{
  ℕ, ◌/◌, ◌-◌, Bool, true, false, List, [], ◌∷◌, Bytes, ◌==◌, if◌then◌else◌, Result, ok, err, ◌>>=◌,
  or_err,
}
use casino_transaction_syste.Prelude.Int.{
  ℤ, pos, negsuc, max_int64, ltb_ℤ, ◌+ℤ◌, ◌-ℤ◌, ◌*ℤ◌, negate,
}
use casino_transaction_syste.Go.Strings.{trim_space, contains, split}
use casino_transaction_syste.Go.Strconv.{parse_int}

-- The sentinel errors `ErrEmptyAmount` and so on.
pub data AmountError : Type 0 where
  empty_amount invalid_amount too_many_decimals invalid_decimal_part amount_overflow : AmountError

-- The sign that is stripped, and the text behind it.
abbrev pub strip_sign : Bytes → Bool × Bytes
strip_sign [] = (false, [])
strip_sign (c ∷ s) =
    if c == b'-' then (true, s) else if c == b'+' then (false, s) else (false, c ∷ s)

-- The fraction, with zeros up to two places.
abbrev pub pad : Bytes → Result AmountError Bytes
pad [] = ok (b'0' ∷ b'0' ∷ [])
pad (a ∷ []) = ok (a ∷ b'0' ∷ [])
pad (a ∷ b ∷ []) = ok (a ∷ b ∷ [])
pad (a ∷ b ∷ c ∷ s) = err too_many_decimals

-- math.MaxInt64 / 100, and math.MinInt64 / 100 as Go truncates it.
abbrev pub max_whole : ℤ
max_whole = pos (max_int64 / 100)

abbrev pub min_whole : ℤ
min_whole = negsuc (max_int64 / 100 - 1)

-- From the test `intPart > math.MaxInt64/100` to the end; every operation is one on int64.
unfoldable pub combine : Bool → ℤ → ℤ → Result AmountError ℤ
unfolding ◌+ℤ◌ ◌-ℤ◌ ◌*ℤ◌ negate
combine neg int_part frac_part =
    let base = int_part *ℤ pos 100 in
    let result = base +ℤ frac_part in
    if ltb_ℤ max_whole int_part
    then err amount_overflow
    else if ltb_ℤ int_part min_whole
    then err amount_overflow
    else if ltb_ℤ (pos max_int64 -ℤ frac_part) base
    then err amount_overflow
    else if neg
    then ok (negate result)
    else ok result

-- The two parts round the point: what stands before it must not be empty.
unfoldable pub parse_parts : Bool → List Bytes → Result AmountError ℤ
parse_parts neg ((c ∷ whole) ∷ frac ∷ []) = do
  int_part ← or_err invalid_amount (parse_int (c ∷ whole))
  digits ← pad frac
  frac_part ← or_err invalid_decimal_part (parse_int digits)
  combine neg int_part frac_part
parse_parts neg _ = err invalid_amount

unfoldable pub parse_decimal : Bytes → Result AmountError ℤ
parse_decimal s = let (neg, body) = strip_sign s in parse_parts neg (split body b'.')

-- The text after `strings.TrimSpace`.
unfoldable pub parse_trimmed : Bytes → Result AmountError ℤ
parse_trimmed [] = err empty_amount
parse_trimmed (c ∷ s) =
    if contains (c ∷ s) b'.'
    then parse_decimal (c ∷ s)
    else or_err invalid_amount (parse_int (c ∷ s))

unfoldable pub parse_to_minor_units : Bytes → Result AmountError ℤ
parse_to_minor_units raw = parse_trimmed (trim_space raw)
