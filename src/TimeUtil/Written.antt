-- ===== src/TimeUtil/Written.antt =====
-- Instants written as decimal numbers: seconds, or milliseconds since 1970.
use casino_transaction_syste.Prelude.{
  ℕ, ◌+◌, ◌*◌, ◌^◌, ◌≤◌, ◌<◌, ◌≡◌, ◌∙◌, true, false, Option, some, [], ◌∷◌, ap, absurd, arith,
  Bytes, All,
}
use casino_transaction_syste.Prelude.Int.{ℤ, pos, sub_ℕ, max_int64}
use casino_transaction_syste.Go.Strconv.{parse_int, in_range}
use casino_transaction_syste.Go.Strconv.Digits.{IsDigit, value, parse_int-value, parse_int-minus}
use casino_transaction_syste.TimeUtil.{Time, Layout, milli_limit, parse_unix, parse}

-- Digits, at least one, that spell this number.
abbrev pub Spells : ℕ → Bytes → Type 0
Spells n [] = ⊥
Spells n (c ∷ s) = All IsDigit (c ∷ s) × (value 0 (c ∷ s) ≡ n)

-- A text for an instant: its seconds, with a minus before 1970, or its milliseconds, where these are more
-- than the limit. Either number is an int64.
pub data Written : Time → Bytes → Type 0 where
  in_seconds :
      {sec : ℕ} {text : Bytes}
      → sec ≤ milli_limit
      → Spells sec text
      → Written (record { seconds = pos sec; nanos = 0 }) text
  before_1970 :
      {sec : ℕ} {text : Bytes}
      → sec ≤ 2 ^ 63
      → Spells sec text
      → Written (record { seconds = sub_ℕ 0 sec; nanos = 0 }) (b'-' ∷ text)
  in_milliseconds :
      {sec ms : ℕ} {text : Bytes}
      → ms ≤ 999
      → milli_limit < sec * 1000 + ms
      → sec * 1000 + ms ≤ max_int64
      → Spells (sec * 1000 + ms) text
      → Written (record { seconds = pos sec; nanos = ms * 1000000 }) text

in_range-pos : (m n : ℕ) → m ≡ n → n ≤ max_int64 → in_range false m ≡ some (pos n)
in_range-pos m n e h = ground arith

in_range-neg : (m n : ℕ) → m ≡ n → n ≤ 2 ^ 63 → in_range true m ≡ some (sub_ℕ 0 n)
in_range-neg m n e h = rw e (ground arith)

parse_unix-seconds :
    (n : ℕ) → n ≤ milli_limit → parse_unix (pos n) ≡ record { seconds = pos n; nanos = 0 }
unfolding parse_unix
parse_unix-seconds n h = ground arith

parse_unix-minus : (n : ℕ) → parse_unix (sub_ℕ 0 n) ≡ record { seconds = sub_ℕ 0 n; nanos = 0 }
unfolding parse_unix
parse_unix-minus n = ground arith

parse_unix-milliseconds :
    (sec ms : ℕ)
    → ms ≤ 999
    → milli_limit < sec * 1000 + ms
    → parse_unix (pos (sec * 1000 + ms)) ≡ record { seconds = pos sec; nanos = ms * 1000000 }
unfolding parse_unix
parse_unix-milliseconds sec ms h above = ground arith

module _ (parse_in_utc : Layout → Bytes → Option Time) where
  parse-number :
      (c : ℕ) (s : Bytes) (i : ℤ)
      → parse_int (c ∷ s) ≡ some i
      → parse parse_in_utc (c ∷ s) ≡ some (parse_unix i)
  unfolding parse
  parse-number c s i e = rw e

  spelled-number :
      (n : ℕ) (text : Bytes)
      → n ≤ max_int64
      → Spells n text
      → parse parse_in_utc text ≡ some (parse_unix (pos n))
  spelled-number n [] h w = absurd w
  spelled-number n (c ∷ s) h w =
      parse-number c s (pos n) (parse_int-value c s w.0 ∙ in_range-pos (value 0 (c ∷ s)) n w.1 h)

  spelled-minus :
      (n : ℕ) (text : Bytes)
      → n ≤ 2 ^ 63
      → Spells n text
      → parse parse_in_utc (b'-' ∷ text) ≡ some (parse_unix (sub_ℕ 0 n))
  spelled-minus n [] h w = absurd w
  spelled-minus n (c ∷ s) h w =
      parse-number b'-' (c ∷ s) (sub_ℕ 0 n)
        (parse_int-minus c s w.0 ∙ in_range-neg (value 0 (c ∷ s)) n w.1 h)

  -- An instant comes back from every text for it: from its seconds, with a minus before 1970 and up to the
  -- year 5138, and from its milliseconds after 1973-03-03T09:46:40Z, as long as the number is an int64,
  -- and whatever the layouts take.
  pub parse-Written : (t : Time) (text : Bytes) → Written t text → parse parse_in_utc text ≡ some t
  parse-Written t text (in_seconds {sec = sec} h w) =
      spelled-number sec text (omega arith) w ∙ ap some (parse_unix-seconds sec h)
  parse-Written t (c ∷ text) (before_1970 {sec = sec} h w) =
      spelled-minus sec text h w ∙ ap some (parse_unix-minus sec)
  parse-Written t text (in_milliseconds {sec = sec} {ms = ms} k above h w) =
      spelled-number (sec * 1000 + ms) text h w ∙ ap some (parse_unix-milliseconds sec ms k above)
