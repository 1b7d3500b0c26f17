-- ===== src/TimeUtil/Unix.antt =====
-- Numeric timestamps.
use casino_transaction_syste.Prelude.{ℕ, ◌*◌, ◌≤◌, ◌<◌, ◌≡◌, arith}
use casino_transaction_syste.Prelude.Int.{pos}
use casino_transaction_syste.TimeUtil.{milli_limit, parse_unix}

-- An instant after 1973-03-03T09:46:40Z and up to the year 5138 is the same time written in seconds
-- and written in milliseconds.
pub parse_unix_milli :
    (s : ℕ)
    → milli_limit < s * 1000
    → s ≤ milli_limit
    → parse_unix (pos (s * 1000)) ≡ parse_unix (pos s)
unfolding parse_unix
parse_unix_milli s above below = ground arith
