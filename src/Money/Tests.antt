-- ===== src/Money/Tests.antt =====
-- Amounts from pkg/money/amount_test.go and the cases at the limits.
use casino_transaction_syste.Prelude.{
  ◌≡◌, refl, codes, ok, err, ◌-◌, ◌*◌, ◌^◌, [], ◌∷◌, ◌++◌, arith,
}
use casino_transaction_syste.Prelude.Int.{pos, negsuc}
use casino_transaction_syste.Go.Strings.{trim_space, contains, split}
use casino_transaction_syste.Go.Strconv.{parse_int}
use casino_transaction_syste.Go.Strconv.Digits.{value}
use casino_transaction_syste.Money.Decimal.{
  minus, plus, Decimal, IsDecimal, unsigned_text, with_sign, render, hundredths, whole_value,
  expected,
}
use casino_transaction_syste.Money.Parsing.{parse-render}
use casino_transaction_syste.Money.Signs.{expected_units, parse_units, parse_two_minus}
use casino_transaction_syste.Money.{
  parse_trimmed, parse_decimal, parse_parts, combine, parse_to_minor_units, empty_amount,
  invalid_amount, too_many_decimals, invalid_decimal_part, amount_overflow,
}

parse_ok :
    (parse_to_minor_units (codes "12345") ≡ ok (pos 12345))
    × (parse_to_minor_units (codes " 123.4 ") ≡ ok (pos 12340))
    × (parse_to_minor_units (codes "-12.34") ≡ ok (negsuc 1233))
    × (parse_to_minor_units (codes "92233720368547758.07") ≡ ok (pos (2 ^ 63 - 1)))
unfolding parse_to_minor_units parse_trimmed parse_decimal parse_parts combine trim_space contains
    split parse_int
parse_ok = (refl, refl, refl, refl)

parse_err :
    (parse_to_minor_units (codes "  ") ≡ err empty_amount)
    × (parse_to_minor_units (codes ".50") ≡ err invalid_amount)
    × (parse_to_minor_units (codes "1.234") ≡ err too_many_decimals)
    × (parse_to_minor_units (codes "1.x") ≡ err invalid_decimal_part)
    × (parse_to_minor_units (codes "92233720368547758.08") ≡ err amount_overflow)
unfolding parse_to_minor_units parse_trimmed parse_decimal parse_parts combine trim_space contains
    split parse_int
parse_err = (refl, refl, refl, refl, refl)

-- Signs behind the first one.
parse_signs :
    (parse_to_minor_units (codes "--5.25") ≡ ok (pos 475))
    × (parse_to_minor_units (codes "5.+1") ≡ ok (pos 501))
    × (parse_to_minor_units (codes "5.-1") ≡ err amount_overflow)
    × (parse_to_minor_units (codes "5.-") ≡ ok (pos 500))
unfolding parse_to_minor_units parse_trimmed parse_decimal parse_parts combine trim_space contains
    split parse_int
parse_signs = (refl, refl, refl, refl)

-- -12.3
abbrev loss : Decimal
loss = record { sign = minus; first = b'1'; whole = codes "2"; frac = codes "3" }

loss-IsDecimal : IsDecimal loss
loss-IsDecimal = record {
  whole_digits = omega arith;
  frac_digits = omega arith;
  two_places = omega arith;
}

parse-render_example : parse_to_minor_units (codes " " ++ render loss ++ codes "  ") ≡ expected loss
parse-render_example =
    parse-render (codes " ") (codes "  ") loss (refl, tt) (refl, (refl, tt)) loss-IsDecimal

parse_units_example :
    parse_to_minor_units (codes " " ++ with_sign plus (codes "1050") ++ [])
    ≡ expected_units plus (value 0 (codes "1050"))
parse_units_example = parse_units (codes " ") [] plus b'1' (codes "050") (refl, tt) tt (omega arith)

parse_two_minus_example :
    parse_to_minor_units (codes " " ++ (b'-' ∷ b'-' ∷ unsigned_text loss) ++ [])
    ≡ ok (pos (whole_value loss * 100 - hundredths loss.frac))
parse_two_minus_example =
    parse_two_minus loss loss-IsDecimal (omega arith) (omega arith) (codes " ") [] (refl, tt) tt
