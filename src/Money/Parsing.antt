-- ===== src/Money/Parsing.antt =====
-- What the parser makes of a decimal text, with spaces round it or none.
use casino_transaction_syste.Prelude.{
  ℕ, ◌+◌, ◌*◌, ◌≤◌, ◌≡◌, ◌∙◌, Bool, true, false, [], ◌∷◌, ◌++◌, arith, Bytes, All, Bool-cases, inl,
  inr, All-append, leb, if◌then◌else◌, Result, ok, err, refl, sym, List, none, some, length, or_err,
  ◌>>=◌,
}
use casino_transaction_syste.Prelude.Int.{ℤ, pos, max_int64}
use casino_transaction_syste.Go.Strings.Trim.{IsSpace, IsGraphic, trim_space_lem}
use casino_transaction_syste.Go.Strings.{contains, split, trim_space}
use casino_transaction_syste.Go.Strings.Split.{Lacks, split_once, contains-append}
use casino_transaction_syste.Go.Strconv.{parse_int}
use casino_transaction_syste.Go.Strconv.Digits.{IsDigit, value, parse_int-value}
use casino_transaction_syste.Money.{
  AmountError, invalid_amount, invalid_decimal_part, amount_overflow, strip_sign, pad, combine,
  parse_parts, parse_decimal, parse_trimmed, parse_to_minor_units,
}
use casino_transaction_syste.Money.Decimal.{
  Sign, unsigned, plus, minus, Decimal, IsDecimal, unsigned_text, with_sign, render, hundredths,
  whole_value, is_negative, signed, expected,
}

abbrev verdict : Sign → ℕ → ℕ → Result AmountError ℤ
verdict sign whole frac =
    if leb (whole * 100 + frac) max_int64
    then ok (signed sign (whole * 100 + frac))
    else if leb whole max_int64
    then err amount_overflow
    else err invalid_amount

combine-verdict :
    (sign : Sign) (whole frac : ℕ)
    → whole ≤ max_int64
    → frac ≤ 99
    → combine (is_negative sign) (pos whole) (pos frac) ≡ verdict sign whole frac
unfolding combine
combine-verdict unsigned whole frac h k = ground arith
combine-verdict plus whole frac h k = ground arith
combine-verdict minus whole frac h k = ground arith

pub hundredths-le : (frac : Bytes) → All IsDigit frac → length frac ≤ 2 → hundredths frac ≤ 99
hundredths-le [] h k = omega arith
hundredths-le (a ∷ []) h k = omega arith
hundredths-le (a ∷ b ∷ []) h k = omega arith
hundredths-le (a ∷ b ∷ c ∷ s) h k = absurd (omega arith)

-- What follows the whole part: the padded fraction is read as hundredths.
pub combine_fraction :
    (neg : Bool) (whole : ℤ) (frac : Bytes)
    → All IsDigit frac
    → length frac ≤ 2
    → (pad frac >>= λ digits. or_err invalid_decimal_part (parse_int digits) >>= combine neg whole)
      ≡ combine neg whole (pos (hundredths frac))
combine_fraction neg whole [] h k = rw (parse_int-value b'0' (b'0' ∷ []) (omega arith))
combine_fraction neg whole (a ∷ []) h k =
    let tens : value 0 (a ∷ b'0' ∷ []) ≡ hundredths (a ∷ []) = omega arith in
    rw (parse_int-value a (b'0' ∷ []) (h.0, omega arith))
      (rw tens (ground (arith, hundredths-le (a ∷ []) h k)))
combine_fraction neg whole (a ∷ b ∷ []) h k =
    rw (parse_int-value a (b ∷ []) h) (ground (arith, hundredths-le (a ∷ b ∷ []) h k))
combine_fraction neg whole (a ∷ b ∷ c ∷ s) h k = absurd (omega arith)

verdict_too_long :
    (sign : Sign) (whole frac : ℕ)
    → leb whole max_int64 ≡ false
    → verdict sign whole frac ≡ err invalid_amount
verdict_too_long sign whole frac h = ground arith

module _ (d : Decimal) (h : IsDecimal d) where
  abbrev parts : List Bytes
  parts = (d.first ∷ d.whole) ∷ d.frac ∷ []

  parse_parts_fits :
      (neg : Bool) (w : ℤ)
      → parse_int (d.first ∷ d.whole) ≡ some w
      → parse_parts neg parts ≡ combine neg w (pos (hundredths d.frac))
  unfolding parse_parts
  parse_parts_fits neg w e = rw e (combine_fraction neg w d.frac h.frac_digits h.two_places)

  parse_parts_long :
      (neg : Bool)
      → parse_int (d.first ∷ d.whole) ≡ none
      → parse_parts neg parts ≡ err invalid_amount
  unfolding parse_parts
  parse_parts_long neg e = rw e

  pub parse_parts-expected : parse_parts (is_negative d.sign) parts ≡ expected d
  parse_parts-expected =
      let whole : ℕ = whole_value d in
      elim (Bool-cases (leb whole max_int64)) [
        | inl fits ↦
            parse_parts_fits (is_negative d.sign) (pos whole)
              (parse_int-value d.first d.whole h.whole_digits ∙ rw fits)
            ∙ combine-verdict d.sign whole (hundredths d.frac) (ground arith)
                (hundredths-le d.frac h.frac_digits h.two_places)
        | inr long ↦
            parse_parts_long (is_negative d.sign)
              (parse_int-value d.first d.whole h.whole_digits ∙ rw long)
            ∙ sym (verdict_too_long d.sign whole (hundredths d.frac) long)
      ]

pub digit-ne-point : (s : Bytes) → All IsDigit s → Lacks b'.' s
digit-ne-point [] h = tt
digit-ne-point (c ∷ s) h = (omega arith, digit-ne-point s h.1)

pub digit-IsGraphic : (s : Bytes) → All IsDigit s → All IsGraphic s
digit-IsGraphic [] h = tt
digit-IsGraphic (c ∷ s) h = ((omega arith, omega arith), digit-IsGraphic s h.1)

module _ (d : Decimal) (h : IsDecimal d) where
  split-unsigned_text : split (unsigned_text d) b'.' ≡ (d.first ∷ d.whole) ∷ d.frac ∷ []
  split-unsigned_text =
      split_once (d.first ∷ d.whole) b'.' d.frac (digit-ne-point (d.first ∷ d.whole) h.whole_digits)
        (digit-ne-point d.frac h.frac_digits)

  strip_sign-render :
      (sign : Sign)
      → strip_sign (with_sign sign (unsigned_text d)) ≡ (is_negative sign, unsigned_text d)
  strip_sign-render unsigned = let low = h.whole_digits.0 in ground arith
  strip_sign-render plus = refl
  strip_sign-render minus = refl

  parse_decimal-expected : parse_decimal (render d) ≡ expected d
  unfolding parse_decimal
  parse_decimal-expected =
      rw (strip_sign-render d.sign, split-unsigned_text) (parse_parts-expected d h)

  contains-render : (sign : Sign) → contains (with_sign sign (unsigned_text d)) b'.' ≡ true
  contains-render unsigned = contains-append (d.first ∷ d.whole) b'.' d.frac
  contains-render plus = contains-append (b'+' ∷ d.first ∷ d.whole) b'.' d.frac
  contains-render minus = contains-append (b'-' ∷ d.first ∷ d.whole) b'.' d.frac

pub parse_trimmed_point : (s : Bytes) → contains s b'.' ≡ true → parse_trimmed s ≡ parse_decimal s
unfolding parse_trimmed contains
parse_trimmed_point [] h = cc
parse_trimmed_point (c ∷ s) h = rw h

pub unsigned_text-IsGraphic : (d : Decimal) → IsDecimal d → All IsGraphic (unsigned_text d)
unsigned_text-IsGraphic d h =
    All-append IsGraphic (d.first ∷ d.whole) (b'.' ∷ d.frac)
      (digit-IsGraphic (d.first ∷ d.whole) h.whole_digits)
      ((omega arith, omega arith), digit-IsGraphic d.frac h.frac_digits)

trim_space-render :
    (l r : Bytes) (d : Decimal) (sign : Sign)
    → All IsSpace l
    → All IsSpace r
    → IsDecimal d
    → trim_space (l ++ with_sign sign (unsigned_text d) ++ r) ≡ with_sign sign (unsigned_text d)
trim_space-render l r d unsigned hl hr h =
    trim_space_lem l d.first (d.whole ++ b'.' ∷ d.frac) r hl (unsigned_text-IsGraphic d h) hr
trim_space-render l r d plus hl hr h =
    trim_space_lem l b'+' (unsigned_text d) r hl
      ((omega arith, omega arith), unsigned_text-IsGraphic d h) hr
trim_space-render l r d minus hl hr h =
    trim_space_lem l b'-' (unsigned_text d) r hl
      ((omega arith, omega arith), unsigned_text-IsGraphic d h) hr

-- A decimal text with at most two places, with any white space round it, is read as exactly its
-- value in minor units if the magnitude is at most 2^63 - 1, and is refused as an overflow or as
-- invalid otherwise: no input of this form wraps around.
pub parse-render :
    (l r : Bytes) (d : Decimal)
    → All IsSpace l
    → All IsSpace r
    → IsDecimal d
    → parse_to_minor_units (l ++ render d ++ r) ≡ expected d
unfolding parse_to_minor_units
parse-render l r d hl hr h =
    rw
      (
        trim_space-render l r d d.sign hl hr h,
        parse_trimmed_point (render d) (contains-render d h d.sign),
      )
      (parse_decimal-expected d h)
