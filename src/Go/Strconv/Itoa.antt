-- ===== src/Go/Strconv/Itoa.antt =====
-- Go's `strconv.Itoa` on numbers that are not negative.
use Prim.Native.String.{◌++◌ as append}
use casino_transaction_syste.Prelude.{ℕ, zero, suc, ◌/◌, ◌%◌, String, ltb, ◌==◌, if◌then◌else◌}

digit : ℕ → String
digit d =
    if d == 0
    then "0"
    else if d == 1
    then "1"
    else if d == 2
    then "2"
    else if d == 3
    then "3"
    else if d == 4
    then "4"
    else if d == 5
    then "5"
    else if d == 6
    then "6"
    else if d == 7
    then "7"
    else if d == 8
    then "8"
    else "9"

-- A number has fewer digits than the fuel, which is the number itself and one more.
digits : ℕ → ℕ → String
digits zero n = ""
digits (suc fuel) n =
    let front = digits fuel (n / 10) in if ltb n 10 then digit n else append front (digit (n % 10))

unfoldable pub itoa : ℕ → String
unfolding digits digit
itoa n = digits (suc n) n
