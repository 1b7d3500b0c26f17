-- ===== src/Go/Strings.antt =====
-- Go's `strings` on the bytes of a text: `TrimSpace`, `Contains` and `Split` at one byte.
pub mod Trim
pub mod Split
use mathlib.Core.List.{reverse}
use casino_transaction_syste.Prelude.{
  ℕ, zero, suc, Bool, false, ◌&&◌, ◌||◌, List, [], ◌∷◌, Bytes, leb, ◌==◌, if◌then◌else◌,
}

-- '\t', '\n', '\v', '\f', '\r' and ' '.
abbrev pub is_ascii_space : ℕ → Bool
is_ascii_space c = leb 9 c && leb c 13 || c == 32

-- U+0085 and U+00A0 in UTF-8.
abbrev is_space_2 : ℕ → ℕ → Bool
is_space_2 a b = a == 0xc2 && (b == 0x85 || b == 0xa0)

-- U+1680, U+2000 to U+200A, U+2028, U+2029, U+202F, U+205F and U+3000 in UTF-8.
abbrev is_space_3 : ℕ → ℕ → ℕ → Bool
is_space_3 a b c =
    a == 0xe1 && (b == 0x9a && c == 0x80)
    || a == 0xe2 && (b == 0x80 && (leb 0x80 c && leb c 0x8a || c == 0xa8 || c == 0xa9 || c == 0xaf))
    || a == 0xe2 && (b == 0x81 && c == 0x9f)
    || a == 0xe3 && (b == 0x80 && c == 0x80)

-- The bytes of the white space character (`unicode.IsSpace`) at the front; 0 if there is none.
unfoldable pub space_size : Bytes → ℕ
space_size [] = 0
space_size (a ∷ []) = if is_ascii_space a then 1 else 0
space_size (a ∷ b ∷ []) = if is_ascii_space a then 1 else if is_space_2 a b then 2 else 0
space_size (a ∷ b ∷ c ∷ s) =
    if is_ascii_space a then 1 else if is_space_2 a b then 2 else if is_space_3 a b c then 3 else 0

-- The same at the end of a text, which is given from its last byte on.
unfoldable pub space_size_back : Bytes → ℕ
space_size_back [] = 0
space_size_back (a ∷ []) = if is_ascii_space a then 1 else 0
space_size_back (a ∷ b ∷ []) = if is_ascii_space a then 1 else if is_space_2 b a then 2 else 0
space_size_back (a ∷ b ∷ c ∷ s) =
    if is_ascii_space a then 1 else if is_space_2 b a then 2 else if is_space_3 c b a then 3 else 0

-- Drops the white space in front. The number counts the bytes left of the character that is dropped.
unfoldable pub trim_front : (Bytes → ℕ) → ℕ → Bytes → Bytes
trim_front size n [] = []
trim_front size (suc n) (c ∷ s) = trim_front size n s
trim_front size zero (c ∷ s) = elim (size (c ∷ s)) [ zero ↦ c ∷ s | suc n ↦ trim_front size n s ]

unfoldable pub trim_space : Bytes → Bytes
unfolding trim_front space_size space_size_back
trim_space s = reverse (trim_front space_size_back 0 (reverse (trim_front space_size 0 s)))

unfoldable pub contains : Bytes → ℕ → Bool
contains [] b = false
contains (c ∷ s) b = c == b || contains s b

abbrev pub cons_first : ℕ → List Bytes → List Bytes
cons_first c [] = (c ∷ []) ∷ []
cons_first c (part ∷ parts) = (c ∷ part) ∷ parts

-- `strings.Split` at a separator of one byte.
unfoldable pub split : Bytes → ℕ → List Bytes
split [] sep = [] ∷ []
split (c ∷ s) sep = let parts = split s sep in if c == sep then [] ∷ parts else cons_first c parts
