-- ===== src/Metrics/Stats/Sorted.antt =====
-- Sorting floats: the last of the sorted values is the greatest.
use mathlib.Core.Option.{some-injective}
use casino_transaction_syste.Prelude.{
  absurd, ℕ, zero, suc, ◌≡◌, subst, true, false, some, List, [], ◌∷◌, length, arith, All,
  Bool-cases, inl, inr,
}
use casino_transaction_syste.Prelude.Int.{ℤ}
use casino_transaction_syste.Metrics.Float.{Float, IsLawful}
use casino_transaction_syste.Metrics.Stats.{nth, insert_float, sort_floats}

module _ {F : Type 0} (P : F → Type 0) where
  All-nth : (xs : List F) (n : ℕ) (m : F) → All P xs → nth xs n ≡ some m → P m
  unfolding nth
  All-nth [] n m h e = cc
  All-nth (x ∷ xs) zero m h e = subst P (some-injective _ _ e) h.0
  All-nth (x ∷ xs) (suc n) m h e = All-nth xs n m h.1 e

module _ {F : Type 0} (f : Float F) where
  All-insert : (P : F → Type 0) (x : F) (xs : List F) → P x → All P xs → All P (insert_float f x xs)
  unfolding insert_float
  All-insert P x [] p h = (p, tt)
  All-insert P x (y ∷ ys) p h = elim (Bool-cases (f.le x y)) [
    | inl first ↦ rw first (p, h)
    | inr behind ↦ rw behind (h.0, All-insert P x ys p h.1)
  ]

  All-insert_back :
      (P : F → Type 0) (x : F) (xs : List F) → All P (insert_float f x xs) → P x × All P xs
  unfolding insert_float
  All-insert_back P x [] h = h
  All-insert_back P x (y ∷ ys) h = elim (Bool-cases (f.le x y)) [
    | inl first ↦ rw first at h
    | inr behind ↦
        let k = All-insert_back P x ys (rw behind at h).1 in (k.0, ((rw behind at h).0, k.1))
  ]

  All-sort : (P : F → Type 0) (xs : List F) → All P xs → All P (sort_floats f xs)
  unfolding sort_floats
  All-sort P [] h = tt
  All-sort P (x ∷ xs) h = All-insert P x (sort_floats f xs) h.0 (All-sort P xs h.1)

  All-sort_back : (P : F → Type 0) (xs : List F) → All P (sort_floats f xs) → All P xs
  unfolding sort_floats
  All-sort_back P [] h = tt
  All-sort_back P (x ∷ xs) h =
      let k = All-insert_back P x (sort_floats f xs) h in (k.0, All-sort_back P xs k.1)

  -- A value that is a whole number.
  abbrev pub IsWhole : F → Type 0
  IsWhole x = (i : ℤ) × (x ≡ f.of_int i)

  abbrev IsAscending : List F → Type 0
  IsAscending [] = Unit
  IsAscending (x ∷ xs) = All (λ y. f.le x y ≡ true) xs × IsAscending xs

  le-total : IsLawful f → (x y : F) → IsWhole x → IsWhole y → f.le x y ≡ false → f.le y x ≡ true
  le-total w x y (i, e) (j, g) h = rw (e, g) (w.of_int_total i j (cc (e, g, h)))

  All-le_trans :
      IsLawful f
      → (x y : F) (ys : List F) → f.le x y ≡ true
      → All (λ z. f.le y z ≡ true) ys
      → All (λ z. f.le x z ≡ true) ys
  All-le_trans w x y [] e h = tt
  All-le_trans w x y (z ∷ zs) e h = (w.le_trans x y z e h.0, All-le_trans w x y zs e h.1)

  insert-IsAscending :
      IsLawful f
      → (x : F) (xs : List F) → IsWhole x
      → All IsWhole xs
      → IsAscending xs
      → IsAscending (insert_float f x xs)
  unfolding insert_float
  insert-IsAscending w x [] i is a = (tt, tt)
  insert-IsAscending w x (y ∷ ys) i is a = elim (Bool-cases (f.le x y)) [
    | inl first ↦ rw first ((first, All-le_trans w x y ys first a.0), a)
    | inr behind ↦ rw behind (
      All-insert (λ z. f.le y z ≡ true) x ys (le-total w x y i is.0 behind) a.0,
      insert-IsAscending w x ys i is.1 a.1,
    )
  ]

  sort-IsAscending : IsLawful f → (xs : List F) → All IsWhole xs → IsAscending (sort_floats f xs)
  unfolding sort_floats
  sort-IsAscending w [] h = tt
  sort-IsAscending w (x ∷ xs) h =
      insert-IsAscending w x (sort_floats f xs) h.0 (All-sort IsWhole xs h.1)
        (sort-IsAscending w xs h.1)

  le_self : IsLawful f → (x : F) → IsWhole x → f.le x x ≡ true
  le_self w x i = elim (Bool-cases (f.le x x)) [ inl h ↦ h | inr h ↦ le-total w x x i i h ]

  last-greatest :
      IsLawful f
      → (xs : List F) (n : ℕ) (m : F) → All IsWhole xs
      → IsAscending xs
      → length xs ≡ suc n
      → nth xs n ≡ some m
      → All (λ x. f.le x m ≡ true) xs
  unfolding nth
  last-greatest w [] n m is a l e = tt
  last-greatest w (x ∷ []) zero m is a l e =
      (subst (λ y. f.le x y ≡ true) (some-injective _ _ e) (le_self w x is.0), tt)
  last-greatest w (x ∷ []) (suc n) m is a l e = absurd (omega arith)
  last-greatest w (x ∷ y ∷ ys) zero m is a l e = absurd (omega arith)
  last-greatest w (x ∷ y ∷ ys) (suc n) m is a l e = (
    All-nth (λ z. f.le x z ≡ true) (y ∷ ys) n m a.0 e,
    last-greatest w (y ∷ ys) n m is.1 a.1 (omega arith) e,
  )

  -- Of whole values, the last of the sorted ones is the greatest.
  pub sort-greatest :
      IsLawful f
      → (values : List F) (n : ℕ) (m : F) → All IsWhole values
      → length (sort_floats f values) ≡ suc n
      → nth (sort_floats f values) n ≡ some m
      → All (λ x. f.le x m ≡ true) values
  sort-greatest w values n m is l e =
      All-sort_back (λ x. f.le x m ≡ true) values
        (last-greatest w (sort_floats f values) n m (All-sort IsWhole values is)
          (sort-IsAscending w values is) l e)
