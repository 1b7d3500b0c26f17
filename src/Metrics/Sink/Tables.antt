-- ===== src/Metrics/Sink/Tables.antt =====
-- The maps of the sink: the keys with their values, in the order of their first use.
use casino_transaction_syste.Prelude.{
  ◌≡◌, refl, ap, Bool-cases, inl, inr, Bool, true, false, if◌then◌else◌, Option, none, some, List,
  [], ◌∷◌, Bytes, arith,
}
use casino_transaction_syste.Go.Sort.{eq_bytes}
use casino_transaction_syste.Go.Sort.Stable.{eq_bytes_refl, eq_bytes_sound}

abbrev pub Table : Type 0 → Type 0
Table A = List (Bytes × A)

module _ {A : Type 0} where
  unfoldable pub lookup : Bytes → Table A → Option A
  lookup k [] = none
  lookup k ((l, v) ∷ t) = if eq_bytes l k then some v else lookup k t

  unfoldable pub store : Bytes → A → Table A → Table A
  store k v [] = (k, v) ∷ []
  store k v ((l, w) ∷ t) = if eq_bytes l k then (l, v) ∷ t else (l, w) ∷ store k v t

  abbrev pub or_else : A → Option A → A
  or_else d none = d
  or_else d (some v) = v

  abbrev pub is_empty : Table A → Bool
  is_empty [] = true
  is_empty (x ∷ t) = false

  pub lookup-store :
      (j k : Bytes) (v : A) (t : Table A)
      → lookup j (store k v t) ≡ (if eq_bytes k j then some v else lookup j t)
  unfolding lookup store
  lookup-store j k v [] = refl
  lookup-store j k v ((l, w) ∷ t) = grind (
    arith,
    lookup-store j k v t,
    eq_bytes_sound l k,
    eq_bytes_sound l j,
    eq_bytes_sound k j,
    eq_bytes_refl k,
    eq_bytes_refl l,
  )

  pub lookup-update :
      (j k : Bytes) (g : Option A → A) (t : Table A)
      → lookup j (store k (g (lookup k t)) t)
        ≡ (if eq_bytes k j then some (g (lookup j t)) else lookup j t)
  unfolding lookup
  lookup-update j k g t = elim (Bool-cases (eq_bytes k j)) [
    | inl same ↦
        rw (lookup-store j k (g (lookup k t)) t, same)
          (ap (λ i. some (g (lookup i t))) (eq_bytes_sound k j same))
    | inr apart ↦ rw (lookup-store j k (g (lookup k t)) t, apart) refl
  ]
