-- ===== src/Service/Table/Shop.antt =====
-- A database that keeps the keys of its rows in a list.
use package.text.Mathlib.Text.{◌==◌ as str_eq}
use package.text.Mathlib.TextEquality.{eq_iff}
use casino_transaction_syste.Prelude.{
  absurd, ◌≡◌, ◌⊎◌, ◌↔◌, refl, sym, ap, subst, Bool, true, false, ◌&&◌, ◌||◌, ◌==◌, if◌then◌else◌,
  Bool-cases, String, inl, inr, Option, none, some, List, [], ◌∷◌, Result, ok, err, arith,
}
use casino_transaction_syste.Prelude.Int.{ℤ, pos_part, neg_part}
use casino_transaction_syste.TimeUtil.{Time, zero_time}
use casino_transaction_syste.Domain.{Transaction}
use casino_transaction_syste.Errors.{GoError}
use casino_transaction_syste.Kafka.Trace.{Has}
use casino_transaction_syste.Repository.{Arg, number, text, time, Row, Rows, Database, null_time}
use casino_transaction_syste.Repository.Statements.{all_args}
use casino_transaction_syste.Service.Table.{
  Key, keys_of, row_key, selecting, IsSelected, IsShown, Each, IsPostgres, map_time,
}

-- What the tables and the context of a test hold.
pub record Shop : Type 0 where
  pub rows : List Key
  pub cancelled : Bool

abbrev pub keys_in : List Arg → List Key
keys_in (number u ∷ text t ∷ number a ∷ time at ∷ args) =
    record { user_id = u; type = t; amount = a; timestamp = at } ∷ keys_in args
keys_in args = []

abbrev pub eq_ℤ : ℤ → ℤ → Bool
eq_ℤ a b = pos_part a == pos_part b && neg_part a == neg_part b

abbrev pub wanted : List Arg → Key → Bool
wanted [] k = true
wanted (number u ∷ args) k = eq_ℤ k.user_id u && wanted args k
wanted (text t ∷ args) k = str_eq k.type t && wanted args k
wanted (time at ∷ args) k = false

abbrev pub row_of : Key → Row
row_of k = record {
  user_id = k.user_id;
  type = k.type;
  amount = k.amount;
  timestamp = k.timestamp;
  created_at = zero_time;
}

abbrev pub shown : List Arg → List Key → List (Result GoError Row)
shown args [] = []
shown args (k ∷ ks) = if wanted args k then ok (row_of k) ∷ shown args ks else shown args ks

abbrev same_time : Option Time → Option Time → Bool
same_time none none = true
same_time (some a) (some b) = eq_ℤ a.seconds b.seconds && a.nanos == b.nanos
same_time none (some b) = false
same_time (some a) none = false

abbrev same_key : Key → Key → Bool
same_key a b =
    eq_ℤ a.user_id b.user_id
    && (str_eq a.type b.type && (eq_ℤ a.amount b.amount && same_time a.timestamp b.timestamp))

abbrev stored : Key → List Key → Bool
stored k [] = false
stored k (j ∷ ks) = same_key j k || stored k ks

-- ON CONFLICT DO NOTHING: only keys that are not there yet.
abbrev pub add_keys : List Key → List Key → List Key
add_keys [] rows = rows
add_keys (k ∷ ks) rows = let rest = add_keys ks rows in if stored k rest then rest else k ∷ rest

abbrev pub shop : Database Shop
shop = record {
  exec = λ st w. (none, record w { rows = add_keys (keys_in st.args) w.rows });
  query = λ st w. (ok (record { scans = shown st.args w.rows; end = none; close = none }), w);
}

abbrev pub whole : Time → Time
whole t = t

map_time-whole : (o : Option Time) → map_time whole o ≡ o
map_time-whole none = refl
map_time-whole (some t) = refl

pub keys_in-all_args : (ts : List Transaction) → keys_in (all_args ts) ≡ keys_of whole ts
keys_in-all_args [] = refl
keys_in-all_args (t ∷ ts) = rw (keys_in-all_args ts, map_time-whole (null_time t.timestamp)) refl

eq_ℤ-iff : (a b : ℤ) → (eq_ℤ a b ≡ true) ↔ (a ≡ b)
eq_ℤ-iff a b = ((λ h. ground arith), (λ e. ground arith))

time-IsSame : (a b : Time) → (eq_ℤ a.seconds b.seconds && a.nanos == b.nanos) ≡ true → a ≡ b
time-IsSame a b h =
    let seconds = (eq_ℤ-iff a.seconds b.seconds).0 (ground arith) in
    let nanos : a.nanos ≡ b.nanos = ground arith in
    λ i. record { seconds = seconds i; nanos = nanos i }

same_time-IsSame : (a b : Option Time) → same_time a b ≡ true → a ≡ b
same_time-IsSame none none h = refl
same_time-IsSame (some a) (some b) h = ap some (time-IsSame a b h)
same_time-IsSame none (some b) h = cc
same_time-IsSame (some a) none h = cc

same_key-IsSame : (a b : Key) → same_key a b ≡ true → a ≡ b
same_key-IsSame a b h =
    let user = (eq_ℤ-iff a.user_id b.user_id).0 (ground arith) in
    let type = (eq_iff a.type b.type).0 (ground arith) in
    let amount = (eq_ℤ-iff a.amount b.amount).0 (ground arith) in
    let timestamp = same_time-IsSame a.timestamp b.timestamp (ground arith) in
    λ i. record { user_id = user i; type = type i; amount = amount i; timestamp = timestamp i }

stored-Has : (k : Key) (ks : List Key) → stored k ks ≡ true → Has k ks
stored-Has k [] h = cc
stored-Has k (j ∷ ks) h = elim (Bool-cases (same_key j k)) [
  | inl e ↦ inl (same_key-IsSame j k e)
  | inr e ↦ inr (stored-Has k ks (rw e at h))
]

pub Has-right : (k : Key) (a b : List Key) → Has k b → Has k (add_keys a b)
Has-right k [] b h = h
Has-right k (x ∷ a) b h = elim (Bool-cases (stored x (add_keys a b))) [
  | inl there ↦ rw there (Has-right k a b h)
  | inr new ↦ rw new (inr (Has-right k a b h))
]

pub Has-left : (k : Key) (a b : List Key) → Has k a → Has k (add_keys a b)
Has-left k [] b h = absurd h
Has-left k (x ∷ a) b (inl e) = elim (Bool-cases (stored x (add_keys a b))) [
  | inl there ↦ rw there (subst (λ j. Has j (add_keys a b)) e (stored-Has x (add_keys a b) there))
  | inr new ↦ rw new (inl e)
]
Has-left k (x ∷ a) b (inr h) = elim (Bool-cases (stored x (add_keys a b))) [
  | inl there ↦ rw there (Has-left k a b h)
  | inr new ↦ rw new (inr (Has-left k a b h))
]

pub Has-split : (k : Key) (a b : List Key) → Has k (add_keys a b) → Has k b ⊎ Has k a
Has-split k [] b h = inl h
Has-split k (x ∷ a) b h = elim (Bool-cases (stored x (add_keys a b))) [
  | inl there ↦ elim (Has-split k a b (rw there at h)) [ inl y ↦ inl y | inr z ↦ inr (inr z) ]
  | inr new ↦ elim (rw new at h) [
    | inl e ↦ inr (inl e)
    | inr later ↦ elim (Has-split k a b later) [ inl y ↦ inl y | inr z ↦ inr (inr z) ]
  ]
]

pub wanted_iff :
    (u : Option ℤ) (t : Option String) (k : Key)
    → (wanted (selecting u t).args k ≡ true) ↔ IsSelected u t k
wanted_iff none none k = ((λ h. tt), (λ h. refl))
wanted_iff (some u) none k =
    ((λ h. (eq_ℤ-iff k.user_id u).0 (ground arith)), (λ h. rw ((eq_ℤ-iff k.user_id u).1 h) refl))
wanted_iff none (some t) k =
    ((λ h. (eq_iff k.type t).0 (ground arith)), (λ h. rw ((eq_iff k.type t).1 h) refl))
wanted_iff (some u) (some t) k = (
  (λ h. ((eq_ℤ-iff k.user_id u).0 (ground arith), (eq_iff k.type t).0 (ground arith))),
  (λ h. rw ((eq_ℤ-iff k.user_id u).1 h.0, (eq_iff k.type t).1 h.1) refl),
)

pub shown-Each :
    (P : Key → Type 0) (args : List Arg) (ks : List Key)
    → ((k : Key) → Has k ks → wanted args k ≡ true → P k)
    → Each (λ r. P (row_key r)) (shown args ks)
shown-Each P args [] f = tt
shown-Each P args (k ∷ ks) f = elim (Bool-cases (wanted args k)) [
  | inl e ↦ rw e (f k (inl refl) e, shown-Each P args ks (λ j h. f j (inr h)))
  | inr e ↦ rw e (shown-Each P args ks (λ j h. f j (inr h)))
]

pub IsShown-shown :
    (args : List Arg) (ks : List Key) (k : Key)
    → wanted args k ≡ true
    → Has k ks
    → IsShown k (shown args ks)
IsShown-shown args [] k e h = absurd h
IsShown-shown args (j ∷ ks) k e h = elim (Bool-cases (wanted args j)) [
  | inl shows ↦
      rw shows (elim h [ inl same ↦ inl same | inr later ↦ inr (IsShown-shown args ks k e later) ])
  | inr hides ↦ rw hides (elim h [
    | inl same ↦ absurd (cc (ap (wanted args) same))
    | inr later ↦ IsShown-shown args ks k e later
  ])
]

abbrev scans_or : List (Result GoError Row) → Result GoError Rows → List (Result GoError Row)
scans_or d (ok rows) = rows.scans
scans_or d (err e) = d

pub scans-of :
    {rs : List (Result GoError Row)} {rows : Rows}
    → Path (Result GoError Rows) (ok (record { scans = rs; end = none; close = none })) (ok rows)
    → rs ≡ rows.scans
scans-of {rs} e = ap (scans_or rs) e

unfoldable pub shop-IsPostgres : IsPostgres shop
shop-IsPostgres = record {
  IsRow = λ k w. Has k w.rows;
  column = whole;
  insert_keeps = λ ts w k h. Has-right k (keys_in (all_args ts)) w.rows h;
  insert_only = λ ts w k h. elim (Has-split k (keys_in (all_args ts)) w.rows h) [
    | inl old ↦ inl old
    | inr new ↦ inr (subst (Has k) (keys_in-all_args ts) new)
  ];
  insert_adds = λ ts w k e h.
      Has-left k (keys_in (all_args ts)) w.rows (subst (Has k) (sym (keys_in-all_args ts)) h);
  select_keeps = λ u t w k h. h;
  select_only = λ u t w rows e.
      subst (λ x. Each (λ r. Has (row_key r) w.rows × IsSelected u t (row_key r)) x) (scans-of e)
        (shown-Each (λ k. Has k w.rows × IsSelected u t k) (selecting u t).args w.rows
          (λ k h x. (h, (wanted_iff u t k).0 x)));
  select_all = λ u t w rows k e ends h x.
      subst (IsShown k) (scans-of e)
        (IsShown-shown (selecting u t).args w.rows k ((wanted_iff u t k).1 x) h);
}
