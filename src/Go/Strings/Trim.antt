-- ===== src/Go/Strings/Trim.antt =====
-- `trim_space` on a text of visible ASCII characters with spaces round it.
use mathlib.Core.List.{reverse, reverse-append, reverse-reverse}
use casino_transaction_syste.Prelude.{
  ℕ, ◌≤◌, ◌≡◌, ap, true, ◌∙◌, [], ◌∷◌, ◌++◌, append_assoc, arith, Bytes, All, All-append,
}
use casino_transaction_syste.Go.Strings.{
  is_ascii_space, space_size, space_size_back, trim_front, trim_space,
}

abbrev pub IsSpace : ℕ → Type 0
IsSpace c = is_ascii_space c ≡ true

-- A visible ASCII character.
abbrev pub IsGraphic : ℕ → Type 0
IsGraphic c = (33 ≤ c) × (c ≤ 126)

abbrev StartsGraphic : Bytes → Type 0
StartsGraphic [] = Unit
StartsGraphic (c ∷ s) = IsGraphic c

pub All-reverse {ℓ} : (P : ℕ → Type ℓ) (s : Bytes) → All P s → All P (reverse s)
All-reverse P [] h = h
All-reverse P (c ∷ s) h =
    rw (reverse-append (c ∷ []) s) (All-append P _ _ (All-reverse P s h.1) (h.0, tt))

-- What the two measures of a leading character have in common.
record Measures (size : Bytes → ℕ) : Type 0 where
  skips : (c : ℕ) (s : Bytes) → IsSpace c → size (c ∷ s) ≡ 1
  stops : (c : ℕ) (s : Bytes) → IsGraphic c → size (c ∷ s) ≡ 0

space_size_skips : (c : ℕ) (s : Bytes) → IsSpace c → space_size (c ∷ s) ≡ 1
unfolding space_size
space_size_skips c [] h = rw h
space_size_skips c (b ∷ []) h = rw h
space_size_skips c (b ∷ a ∷ s) h = rw h

space_size_stops : (c : ℕ) (s : Bytes) → IsGraphic c → space_size (c ∷ s) ≡ 0
unfolding space_size
space_size_stops c [] h = ground arith
space_size_stops c (b ∷ []) h = ground arith
space_size_stops c (b ∷ a ∷ s) h = ground arith

space_size_back_skips : (c : ℕ) (s : Bytes) → IsSpace c → space_size_back (c ∷ s) ≡ 1
unfolding space_size_back
space_size_back_skips c [] h = rw h
space_size_back_skips c (b ∷ []) h = rw h
space_size_back_skips c (b ∷ a ∷ s) h = rw h

space_size_back_stops : (c : ℕ) (s : Bytes) → IsGraphic c → space_size_back (c ∷ s) ≡ 0
unfolding space_size_back
space_size_back_stops c [] h = ground arith
space_size_back_stops c (b ∷ []) h = ground arith
space_size_back_stops c (b ∷ a ∷ s) h = ground arith

front : Measures space_size
front = record { skips = space_size_skips; stops = space_size_stops }

back : Measures space_size_back
back = record { skips = space_size_back_skips; stops = space_size_back_stops }

module _ {size : Bytes → ℕ} (m : Measures size) where
  trim_front_stops : (s : Bytes) → StartsGraphic s → trim_front size 0 s ≡ s
  unfolding trim_front
  trim_front_stops [] h = ground arith
  trim_front_stops (c ∷ s) h = ground (arith, m.stops c s h)

  trim_front-append :
      (l s : Bytes) → All IsSpace l → StartsGraphic s → trim_front size 0 (l ++ s) ≡ s
  unfolding trim_front
  trim_front-append [] s hl hs = trim_front_stops s hs
  trim_front-append (c ∷ l) s hl hs =
      ground (arith, m.skips c (l ++ s) hl.0, trim_front-append l s hl.1 hs)

StartsGraphic-of_All : (s : Bytes) → All IsGraphic s → StartsGraphic s
StartsGraphic-of_All [] h = tt
StartsGraphic-of_All (c ∷ s) h = h.0

-- Spaces round visible characters are dropped, and nothing else.
pub trim_space_lem :
    (l : Bytes) (c : ℕ) (s r : Bytes)
    → All IsSpace l
    → All IsGraphic (c ∷ s)
    → All IsSpace r
    → trim_space (l ++ (c ∷ s) ++ r) ≡ c ∷ s
unfolding trim_space
trim_space_lem l c s r hl hs hr =
    let text : Bytes = c ∷ s in
    rw (append_assoc l text r, trim_front-append front l (text ++ r) hl hs.0, reverse-append text r)
      (ap reverse (
          trim_front-append back (reverse r) (reverse text) (All-reverse IsSpace r hr)
            (StartsGraphic-of_All (reverse text) (All-reverse IsGraphic text hs)))
        ∙ reverse-reverse text)
