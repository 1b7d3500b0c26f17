-- ===== src/TimeUtil/Tests.antt =====
-- Timestamps from pkg/timeutil/parser_test.go and the case at the limit.
use casino_transaction_syste.Prelude.{◌≡◌, refl, ◌*◌, codes, none, some, [], arith}
use casino_transaction_syste.Prelude.Int.{pos}
use casino_transaction_syste.Go.Strconv.{parse_int}
use casino_transaction_syste.TimeUtil.{parse_unix, parse, first_layout}
use casino_transaction_syste.TimeUtil.Written.{Spells, in_milliseconds, parse-Written}

parse_numbers :
    (parse (λ l s. none) (codes "1625097600")
      ≡ some (record { seconds = pos 1625097600; nanos = 0 }))
    × (parse (λ l s. none) (codes "1625097600500")
        ≡ some (record { seconds = pos 1625097600; nanos = 500000000 }))
    × (parse (λ l s. none) (codes "100000000000")
        ≡ some (record { seconds = pos 100000000000; nanos = 0 }))
    × (parse (λ l s. none) [] ≡ none)
    × (parse (λ l s. none) (codes "yesterday") ≡ none)
unfolding parse parse_int parse_unix first_layout
parse_numbers = (refl, refl, refl, refl, refl)

-- 2021-07-01T00:00:00.500Z in milliseconds, and how it is spelled.
half_past : Spells 1625097600500 (codes "1625097600500")
half_past = (omega arith, refl)

parse-Written_example :
    parse (λ l s. none) (codes "1625097600500")
    ≡ some (record { seconds = pos 1625097600; nanos = 500 * 1000000 })
parse-Written_example =
    parse-Written (λ l s. none) (record { seconds = pos 1625097600; nanos = 500 * 1000000 })
      (codes "1625097600500")
      (in_milliseconds {sec = 1625097600} {ms = 500} (omega arith) (omega arith) (omega arith)
        half_past)
