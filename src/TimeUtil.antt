-- ===== src/TimeUtil.antt =====
-- pkg/timeutil/parser.go: Unix seconds, Unix milliseconds, or one of five layouts.
pub mod Unix
mod Written
mod Tests
use casino_transaction_syste.Prelude.{
  ℕ, ◌*◌, ◌/◌, ◌%◌, ◌^◌, Bool, ◌&&◌, ◌==◌, if◌then◌else◌, Option, none, some, List, [], ◌∷◌, Bytes,
}
use casino_transaction_syste.Prelude.Int.{ℤ, pos, negsuc, ltb_ℤ, pos_part, neg_part}
use casino_transaction_syste.Go.Strconv.{parse_int}

-- An instant in UTC: whole seconds since 1970, and nanoseconds below a second behind them.
pub record Time : Type 0 where
  pub seconds : ℤ
  pub nanos : ℕ

-- Go's zero `time.Time`: midnight of January 1 in year 1.
abbrev pub zero_time : Time
zero_time = record { seconds = negsuc 62135596799; nanos = 0 }

-- `Time.IsZero`.
unfoldable pub is_zero : Time → Bool
is_zero t = pos_part t.seconds == 0 && neg_part t.seconds == 62135596800 && t.nanos == 0

-- Values above this are milliseconds.
abbrev pub milli_limit : ℕ
milli_limit = 100000000000

-- `time.UnixMilli`, called on positive numbers alone.
abbrev pub unix_milli : ℕ → Time
unix_milli n = record { seconds = pos (n / 1000); nanos = n % 1000 * 1000000 }

unfoldable pub parse_unix : ℤ → Time
parse_unix i =
    if ltb_ℤ (pos milli_limit) i then unix_milli (pos_part i) else record { seconds = i; nanos = 0 }

-- The layouts, in the order in which they are tried.
pub data Layout : Type 0 where
  rfc3339 date_time rfc3339_nano day_month_year year_month_day : Layout

abbrev pub layouts : List Layout
layouts = rfc3339 ∷ date_time ∷ rfc3339_nano ∷ day_month_year ∷ year_month_day ∷ []

-- `time.ParseInLocation` in UTC is a parameter.
module _ (parse_in_utc : Layout → Bytes → Option Time) where
  unfoldable pub first_layout : List Layout → Bytes → Option Time
  first_layout [] value = none
  first_layout (l ∷ ls) value =
      let rest = first_layout ls value in
      elim (parse_in_utc l value) [ some t ↦ some t | none ↦ rest ]

  abbrev numeric_or : Option ℤ → Option Time → Option Time
  numeric_or (some i) other = some (parse_unix i)
  numeric_or none other = other

  -- `none` is one of the two errors, which no caller tells apart.
  unfoldable pub parse : Bytes → Option Time
  parse [] = none
  parse (c ∷ s) = numeric_or (parse_int (c ∷ s)) (first_layout layouts (c ∷ s))
