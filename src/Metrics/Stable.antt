-- ===== src/Metrics/Stable.antt =====
-- The key of a metric does not depend on the order in which the labels are visited.
use casino_transaction_syste.Prelude.{
  ◌≡◌, refl, sym, ◌∙◌, ap, subst, Bool, true, false, if◌then◌else◌, List, [], ◌∷◌, Bytes, arith,
  Permᴰ,
}
use casino_transaction_syste.Go.Sort.{eq_bytes, sort_strings}
use casino_transaction_syste.Go.Sort.Stable.{eq_bytes_refl, eq_bytes_sound, sort_strings-perm}
use casino_transaction_syste.Metrics.{Labels, label_keys, label, further, entries, key}

unfoldable pub has_label : Bytes → Labels → Bool
has_label k [] = false
has_label k ((l, v) ∷ labels) = if eq_bytes l k then true else has_label k labels

-- As a map has them: no key stands twice.
abbrev pub IsMap : Labels → Type 0
IsMap [] = Unit
IsMap ((k, v) ∷ labels) = (has_label k labels ≡ false) × IsMap labels

label_keys-perm : {l k : Labels} → Permᴰ l k → Permᴰ (label_keys l) (label_keys k)
unfolding label_keys
label_keys-perm Permᴰ.nil = Permᴰ.nil
label_keys-perm (Permᴰ.cons e p) = Permᴰ.cons (ap (λ x. x.0) e) (label_keys-perm p)
label_keys-perm (Permᴰ.swap e f) = Permᴰ.swap (ap (λ x. x.0) e) (ap (λ x. x.0) f)
label_keys-perm (Permᴰ.trans p q) = Permᴰ.trans (label_keys-perm p) (label_keys-perm q)

has_label-swap :
    (k : Bytes) (a b : Bytes × Bytes) (l : Labels)
    → has_label k (a ∷ b ∷ l) ≡ has_label k (b ∷ a ∷ l)
unfolding has_label
has_label-swap k (a, v) (b, w) l = ground arith

has_label-perm : (k : Bytes) {l m : Labels} → Permᴰ l m → has_label k l ≡ has_label k m
unfolding has_label
has_label-perm k Permᴰ.nil = refl
has_label-perm k (Permᴰ.cons {a} {b} e p) =
    cc (has_label-perm k p, ap (λ (x : Bytes × Bytes). eq_bytes x.0 k) e)
has_label-perm k (Permᴰ.swap {a} {b} {a'} {b'} {l} e f) = has_label-swap k a b l ∙ cc
has_label-perm k (Permᴰ.trans p q) = has_label-perm k p ∙ has_label-perm k q

IsMap-swap : (a b : Bytes × Bytes) (l : Labels) → IsMap (a ∷ b ∷ l) → IsMap (b ∷ a ∷ l)
unfolding has_label
IsMap-swap (a, v) (b, w) l h = ground (arith, eq_bytes_sound a b, eq_bytes_refl a)

IsMap-perm : {l m : Labels} → Permᴰ l m → IsMap l → IsMap m
IsMap-perm Permᴰ.nil h = tt
IsMap-perm (Permᴰ.cons {a = (a, v)} {b = (b, w)} {l₁ = l} {l₂ = m} e p) h = (
  sym (has_label-perm b p) ∙ ap (λ (x : Bytes × Bytes). has_label x.0 l) (sym e) ∙ h.0,
  IsMap-perm p h.1,
)
IsMap-perm (Permᴰ.swap {a} {b} {a'} {b'} {l} e f) h =
    subst (λ x. IsMap (x ∷ b' ∷ l)) f (subst (λ y. IsMap (b ∷ y ∷ l)) e (IsMap-swap a b l h))
IsMap-perm (Permᴰ.trans p q) h = IsMap-perm q (IsMap-perm p h)

label-swap :
    (k : Bytes) (a b : Bytes × Bytes) (l : Labels)
    → IsMap (a ∷ b ∷ l)
    → label k (a ∷ b ∷ l) ≡ label k (b ∷ a ∷ l)
unfolding label has_label
label-swap k (a, v) (b, w) l h =
    grind (arith, eq_bytes_sound a k, eq_bytes_sound b k, eq_bytes_refl a)

label-perm : (k : Bytes) {l m : Labels} → Permᴰ l m → IsMap l → label k l ≡ label k m
unfolding label
label-perm k Permᴰ.nil h = refl
label-perm k (Permᴰ.cons {a = (a, v)} {b = (b, w)} {l₁ = l} {l₂ = m} e p) h = cc (
  label-perm k p h.1,
  ap (λ (x : Bytes × Bytes). eq_bytes x.0 k) e,
  ap (λ (x : Bytes × Bytes). x.1) e,
)
label-perm k (Permᴰ.swap {a} {b} {a'} {b'} {l} e f) h = label-swap k a b l h ∙ cc
label-perm k (Permᴰ.trans p q) h = label-perm k p h ∙ label-perm k q (IsMap-perm p h)

further-perm :
    {l m : Labels} → Permᴰ l m → IsMap l → (ks : List Bytes) → further l ks ≡ further m ks
unfolding further
further-perm p h [] = refl
further-perm p h (k ∷ ks) = cc (label-perm k p h, further-perm p h ks)

entries-perm :
    {l m : Labels} → Permᴰ l m → IsMap l → (ks : List Bytes) → entries l ks ≡ entries m ks
unfolding entries
entries-perm p h [] = refl
entries-perm p h (k ∷ ks) = cc (label-perm k p h, further-perm p h ks)

is_empty : Labels → Bool
is_empty [] = true
is_empty (x ∷ l) = false

is_empty-perm : {l m : Labels} → Permᴰ l m → is_empty l ≡ is_empty m
unfolding is_empty
is_empty-perm Permᴰ.nil = refl
is_empty-perm (Permᴰ.cons e p) = refl
is_empty-perm (Permᴰ.swap e f) = refl
is_empty-perm (Permᴰ.trans p q) = is_empty-perm p ∙ is_empty-perm q

-- Two visits of the same labels, in any two orders, give a metric the same key.
pub key-perm : (name : Bytes) (l m : Labels) → IsMap l → Permᴰ l m → key name l ≡ key name m
unfolding key is_empty
key-perm name [] [] h p = refl
key-perm name [] (y ∷ m) h p = cc (is_empty-perm p)
key-perm name (x ∷ l) [] h p = cc (is_empty-perm p)
key-perm name (x ∷ l) (y ∷ m) h p =
    cc (sort_strings-perm (label_keys-perm p), entries-perm p h (sort_strings (label_keys (x ∷ l))))
