-- ===== src/Money/Decimal.antt =====
-- Decimal texts such as `-12.34` as data, and the amount that each stands for.
use casino_transaction_syste.Prelude.{
  ℕ, ◌+◌, ◌-◌, ◌*◌, ◌≤◌, Bool, true, false, [], ◌∷◌, ◌++◌, Bytes, All, leb, if◌then◌else◌, Result,
  ok, err, length,
}
use casino_transaction_syste.Prelude.Int.{ℤ, pos, sub_ℕ, max_int64}
use casino_transaction_syste.Go.Strconv.Digits.{IsDigit, value}
use casino_transaction_syste.Money.{AmountError, invalid_amount, amount_overflow}

pub data Sign : Type 0 where
  unsigned plus minus : Sign

-- A decimal text: a sign, the digits before the point (the first one apart) and those behind it.
pub record Decimal : Type 0 where
  pub sign : Sign
  pub first : ℕ
  pub whole : Bytes
  pub frac : Bytes

pub record IsDecimal (d : Decimal) : Type 0 where
  pub whole_digits : All IsDigit (d.first ∷ d.whole)
  pub frac_digits : All IsDigit d.frac
  pub two_places : length d.frac ≤ 2

abbrev pub unsigned_text : Decimal → Bytes
unsigned_text d = (d.first ∷ d.whole) ++ b'.' ∷ d.frac

abbrev pub with_sign : Sign → Bytes → Bytes
with_sign unsigned s = s
with_sign plus s = b'+' ∷ s
with_sign minus s = b'-' ∷ s

-- The text of a decimal.
abbrev pub render : Decimal → Bytes
render d = with_sign d.sign (unsigned_text d)

-- The digits behind the point, in hundredths.
abbrev pub hundredths : Bytes → ℕ
hundredths [] = 0
hundredths (a ∷ []) = (a - b'0') * 10
hundredths (a ∷ s) = value 0 (a ∷ s)

abbrev pub whole_value : Decimal → ℕ
whole_value d = value 0 (d.first ∷ d.whole)

-- The magnitude in minor units, without a bound.
abbrev pub cents : Decimal → ℕ
cents d = whole_value d * 100 + hundredths d.frac

abbrev pub is_negative : Sign → Bool
is_negative minus = true
is_negative _ = false

abbrev pub signed : Sign → ℕ → ℤ
signed minus n = sub_ℕ 0 n
signed _ n = pos n

-- What the parser should answer: the exact amount wherever its magnitude fits.
abbrev pub expected : Decimal → Result AmountError ℤ
expected d =
    if leb (cents d) max_int64
    then ok (signed d.sign (cents d))
    else if leb (whole_value d) max_int64
    then err amount_overflow
    else err invalid_amount
