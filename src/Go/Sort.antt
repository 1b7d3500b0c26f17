-- ===== src/Go/Sort.antt =====
-- What the program uses of the package sort: the order of strings, byte by byte, and sort.Strings.
pub mod Stable
use casino_transaction_syste.Prelude.{
  ℕ, Bool, true, false, if◌then◌else◌, ltb, ◌==◌, List, [], ◌∷◌, Bytes,
}

unfoldable pub leb_bytes : Bytes → Bytes → Bool
leb_bytes [] b = true
leb_bytes (x ∷ a) [] = false
leb_bytes (x ∷ a) (y ∷ b) =
    let rest = leb_bytes a b in if ltb x y then true else if x == y then rest else false

unfoldable pub eq_bytes : Bytes → Bytes → Bool
eq_bytes [] [] = true
eq_bytes [] (y ∷ b) = false
eq_bytes (x ∷ a) [] = false
eq_bytes (x ∷ a) (y ∷ b) = let rest = eq_bytes a b in if x == y then rest else false

unfoldable pub insert : Bytes → List Bytes → List Bytes
insert x [] = x ∷ []
insert x (y ∷ ys) = if leb_bytes x y then x ∷ y ∷ ys else y ∷ insert x ys

unfoldable pub sort_strings : List Bytes → List Bytes
unfolding insert
sort_strings [] = []
sort_strings (x ∷ xs) = insert x (sort_strings xs)
