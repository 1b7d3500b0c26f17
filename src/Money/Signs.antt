-- ===== src/Money/Signs.antt =====
-- Amounts without a point, and amounts with a second sign behind the first.
use casino_transaction_syste.Prelude.{
  ℕ, ◌-◌, ◌*◌, ◌^◌, ◌≤◌, ◌≡◌, refl, ◌∙◌, true, false, [], ◌∷◌, ◌++◌, arith, Bytes, All, Result, ok,
  or_err, leb,
}
use casino_transaction_syste.Prelude.Int.{ℤ, pos, sub_ℕ, max_int64}
use casino_transaction_syste.Go.Strings.{contains, split, trim_space}
use casino_transaction_syste.Go.Strings.Trim.{IsSpace, IsGraphic, trim_space_lem}
use casino_transaction_syste.Go.Strings.Split.{Lacks, split_once, contains-append}
use casino_transaction_syste.Go.Strconv.{in_range}
use casino_transaction_syste.Go.Strconv.Digits.{
  IsDigit, value, parse_int-value, parse_int-minus, parse_int-plus,
}
use casino_transaction_syste.Money.{
  AmountError, invalid_amount, combine, parse_parts, parse_decimal, parse_trimmed,
  parse_to_minor_units,
}
use casino_transaction_syste.Money.Decimal.{
  Sign, unsigned, plus, minus, Decimal, IsDecimal, unsigned_text, with_sign, hundredths,
  whole_value, is_negative,
}
use casino_transaction_syste.Money.Parsing.{
  digit-ne-point, digit-IsGraphic, unsigned_text-IsGraphic, hundredths-le, combine_fraction,
  parse_trimmed_point,
}

-- The integer itself, wherever it is an int64: a text without a point counts minor units.
abbrev pub expected_units : Sign → ℕ → Result AmountError ℤ
expected_units sign n = or_err invalid_amount (in_range (is_negative sign) n)

lacks_point : (s : Bytes) → All IsDigit s → contains s b'.' ≡ false
unfolding contains
lacks_point [] h = refl
lacks_point (c ∷ s) h = ground (arith, lacks_point s h.1)

module _ (c : ℕ) (s : Bytes) (h : All IsDigit (c ∷ s)) where
  parse_trimmed_units :
      (sign : Sign) → parse_trimmed (with_sign sign (c ∷ s)) ≡ expected_units sign (value 0 (c ∷ s))
  unfolding parse_trimmed
  parse_trimmed_units unsigned = rw (lacks_point (c ∷ s) h, parse_int-value c s h)
  parse_trimmed_units plus =
      let no_point : contains (b'+' ∷ c ∷ s) b'.' ≡ false =
        unfold contains in lacks_point (c ∷ s) h in
      rw (no_point, parse_int-plus c s h)
  parse_trimmed_units minus =
      let no_point : contains (b'-' ∷ c ∷ s) b'.' ≡ false =
        unfold contains in lacks_point (c ∷ s) h in
      rw (no_point, parse_int-minus c s h)

  trim_space-units :
      (l r : Bytes) (sign : Sign)
      → All IsSpace l
      → All IsSpace r
      → trim_space (l ++ with_sign sign (c ∷ s) ++ r) ≡ with_sign sign (c ∷ s)
  trim_space-units l r unsigned hl hr = trim_space_lem l c s r hl (digit-IsGraphic (c ∷ s) h) hr
  trim_space-units l r plus hl hr =
      trim_space_lem l b'+' (c ∷ s) r hl ((omega arith, omega arith), digit-IsGraphic (c ∷ s) h) hr
  trim_space-units l r minus hl hr =
      trim_space_lem l b'-' (c ∷ s) r hl ((omega arith, omega arith), digit-IsGraphic (c ∷ s) h) hr

-- Digits without a point, signed or not, with any white space round them, are read as that many
-- minor units if they fit an int64, and are invalid otherwise.
pub parse_units :
    (l r : Bytes) (sign : Sign) (c : ℕ) (s : Bytes)
    → All IsSpace l
    → All IsSpace r
    → All IsDigit (c ∷ s)
    → parse_to_minor_units (l ++ with_sign sign (c ∷ s) ++ r)
      ≡ expected_units sign (value 0 (c ∷ s))
unfolding parse_to_minor_units
parse_units l r sign c s hl hr h =
    rw (trim_space-units c s h l r sign hl hr) (parse_trimmed_units c s h sign)

combine_negative :
    (whole frac : ℕ)
    → 1 ≤ whole
    → whole * 100 ≤ max_int64
    → frac ≤ 99
    → combine true (sub_ℕ 0 whole) (pos frac) ≡ ok (pos (whole * 100 - frac))
unfolding combine
combine_negative whole frac p h k = ground arith

module _ (d : Decimal) (h : IsDecimal d) (p : 1 ≤ whole_value d)
    (fits : whole_value d * 100 ≤ max_int64) where
  parse_parts_minus :
      parse_parts true ((b'-' ∷ d.first ∷ d.whole) ∷ d.frac ∷ [])
      ≡ combine true (sub_ℕ 0 (whole_value d)) (pos (hundredths d.frac))
  unfolding parse_parts
  parse_parts_minus =
      let low : leb (whole_value d) (2 ^ 63) ≡ true = ground arith in
      rw (parse_int-minus d.first d.whole h.whole_digits, low)
        (combine_fraction true (sub_ℕ 0 (whole_value d)) d.frac h.frac_digits h.two_places)

  parse_decimal_minus :
      parse_decimal (b'-' ∷ b'-' ∷ unsigned_text d)
      ≡ ok (pos (whole_value d * 100 - hundredths d.frac))
  unfolding parse_decimal
  parse_decimal_minus =
      let minus-digits : Lacks b'.' (b'-' ∷ d.first ∷ d.whole) =
        (omega arith, digit-ne-point (d.first ∷ d.whole) h.whole_digits) in
      let cut : split (b'-' ∷ unsigned_text d) b'.' ≡ (b'-' ∷ d.first ∷ d.whole) ∷ d.frac ∷ [] =
        split_once (b'-' ∷ d.first ∷ d.whole) b'.' d.frac minus-digits
          (digit-ne-point d.frac h.frac_digits) in
      rw cut (
        parse_parts_minus
        ∙ combine_negative (whole_value d) (hundredths d.frac) p fits
            (hundredths-le d.frac h.frac_digits h.two_places))

  -- A decimal text behind two minus signs is accepted, as a positive amount from which the fraction
  -- is taken away: for a whole part of 1 or more whose value in minor units fits an int64.
  pub parse_two_minus :
      (l r : Bytes)
      → All IsSpace l
      → All IsSpace r
      → parse_to_minor_units (l ++ (b'-' ∷ b'-' ∷ unsigned_text d) ++ r)
        ≡ ok (pos (whole_value d * 100 - hundredths d.frac))
  unfolding parse_to_minor_units
  parse_two_minus l r hl hr =
      let graphic : All IsGraphic (b'-' ∷ b'-' ∷ unsigned_text d) =
        ((omega arith, omega arith), ((omega arith, omega arith), unsigned_text-IsGraphic d h)) in
      rw
        (
          trim_space_lem l b'-' (b'-' ∷ unsigned_text d) r hl graphic hr,
          parse_trimmed_point (b'-' ∷ b'-' ∷ unsigned_text d)
              (contains-append (b'-' ∷ b'-' ∷ d.first ∷ d.whole) b'.' d.frac),
        )
        parse_decimal_minus
