-- ===== src/Go/Sort/Stable.antt =====
-- The order of strings, and why the result of a sort does not depend on the order of the input.
use casino_transaction_syste.Prelude.{
  ◌≡◌, refl, ◌∙◌, true, false, List, [], ◌∷◌, Bytes, arith, Permᴰ,
}
use casino_transaction_syste.Go.Sort.{leb_bytes, eq_bytes, insert, sort_strings}

leb-total : (a b : Bytes) → leb_bytes a b ≡ false → leb_bytes b a ≡ true
unfolding leb_bytes
leb-total [] b h = cc
leb-total (x ∷ a) [] h = refl
leb-total (x ∷ a) (y ∷ b) h = ground (arith, leb-total a b)

leb-antisym : (a b : Bytes) → leb_bytes a b ≡ true → leb_bytes b a ≡ true → a ≡ b
unfolding leb_bytes
leb-antisym [] [] h k = refl
leb-antisym [] (y ∷ b) h k = cc
leb-antisym (x ∷ a) [] h k = cc
leb-antisym (x ∷ a) (y ∷ b) h k = ground (arith, leb-antisym a b)

leb_trans : (a b c : Bytes) → leb_bytes a b ≡ true → leb_bytes b c ≡ true → leb_bytes a c ≡ true
unfolding leb_bytes
leb_trans [] b c h k = refl
leb_trans (x ∷ a) [] c h k = cc
leb_trans (x ∷ a) (y ∷ b) [] h k = cc
leb_trans (x ∷ a) (y ∷ b) (z ∷ c) h k = ground (arith, leb_trans a b c)

pub eq_bytes_refl : (a : Bytes) → eq_bytes a a ≡ true
unfolding eq_bytes
eq_bytes_refl [] = refl
eq_bytes_refl (x ∷ a) = ground (arith, eq_bytes_refl a)

pub eq_bytes_sound : (a b : Bytes) → eq_bytes a b ≡ true → a ≡ b
unfolding eq_bytes
eq_bytes_sound [] [] h = refl
eq_bytes_sound [] (y ∷ b) h = cc
eq_bytes_sound (x ∷ a) [] h = cc
eq_bytes_sound (x ∷ a) (y ∷ b) h = ground (arith, eq_bytes_sound a b)

insert_comm : (a b : Bytes) (l : List Bytes) → insert a (insert b l) ≡ insert b (insert a l)
unfolding insert
insert_comm a b [] = grind (arith, leb-total a b, leb-antisym a b)
insert_comm a b (y ∷ ys) = grind (
  arith,
  leb-total a b,
  leb-antisym a b,
  leb_trans a b y,
  leb_trans b a y,
  leb-total a y,
  leb-total b y,
  insert_comm a b ys,
)

pub sort_strings-perm : {l k : List Bytes} → Permᴰ l k → sort_strings l ≡ sort_strings k
unfolding sort_strings
sort_strings-perm Permᴰ.nil = refl
sort_strings-perm (Permᴰ.cons {a} {b} {l₁ = l} {l₂ = k} e p) = cc (e, sort_strings-perm p)
sort_strings-perm (Permᴰ.swap {a} {b} {a'} {b'} {l} e f) = insert_comm a b (sort_strings l) ∙ cc
sort_strings-perm (Permᴰ.trans p q) = sort_strings-perm p ∙ sort_strings-perm q
