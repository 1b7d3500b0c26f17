-- ===== src/Service/ReadOnly.antt =====
-- The API as NewApiApp of bootstrap wires it: the router over the handler, the service and the
-- repository.
use text.Mathlib.Text.{◌==◌ as str_eq}
use casino_transaction_syste.Prelude.{
  ◌≡◌, ◌⊎◌, inl, inr, Bool-cases, subst, ap, arith, refl, sym, ◌∙◌, Bool, true, false, String,
  Option, none, some, List, [], ◌∷◌, Bytes, Result, ok, err,
}
use casino_transaction_syste.Go.Strconv.{parse_int}
use casino_transaction_syste.Prelude.Int.{ℤ, pos, ◌≤ℤ◌, leb_ℤ}
use casino_transaction_syste.Domain.{
  TransactionType, bet, win, check_type, DomainError, Transaction,
}
use casino_transaction_syste.Domain.Valid.{known_type}
use casino_transaction_syste.Errors.{GoError}
use casino_transaction_syste.Repository.{
  Rows, Database, scan_all, ended, scanned, queried, get, get_statement,
}
use casino_transaction_syste.Service.{get_transactions as service_get}
use casino_transaction_syste.Service.Answers.{backend_over}
use casino_transaction_syste.Http.{
  Answer, TransactionResponse, Backend, responses, encoded, served, with_filters, user_of,
  user_of_parsed, type_of, type_of_checked, get_transactions,
}
use casino_transaction_syste.Http.Router.{Reading, Mux, serve}
use casino_transaction_syste.Http.Serving.{
  Routed, transactions_routed, health_routed, elsewhere, serve-Routed,
}

module _ {R W : Type 0} where
  -- `encodes` is the JSON encoder.
  unfoldable pub new_api :
      Reading R → Mux R → Database W → (List TransactionResponse → Bool) → R → W → Answer W
  unfolding serve backend_over
  new_api reading mux db encodes = serve reading mux (backend_over db encodes)

abbrev pub IsKnown : Option TransactionType → Type 0
IsKnown f = (f ≡ none) ⊎ (f ≡ some bet) ⊎ (f ≡ some win)

-- A user that is asked for, with 0 for all, and a type that is asked for.
pub record IsChecked (i : ℤ) (f : Option TransactionType) : Type 0 where
  pub user : pos 0 ≤ℤ i
  pub known : IsKnown f

-- What one request sends to the database.
pub data Reads {W : Type 0} (db : Database W) (w : W) : W → Type 0 where
  nothing : Reads db w w
  selects :
      {user : ℤ} {filter : Option TransactionType}
      → IsChecked user filter
      → Reads db w (db.query (get_statement user filter) w).1

-- What holds of a result that is no error.
abbrev OnOk : {A : Type 0} → (A → Type 0) → Result String A → Type 0
OnOk P (err e) = Unit
OnOk P (ok a) = P a

abbrev IsUser : ℤ → Type 0
IsUser i = pos 0 ≤ℤ i

user_of_parsed-checked : (p : Option ℤ) → OnOk IsUser (user_of_parsed p)
user_of_parsed-checked none = tt
user_of_parsed-checked (some i) = elim (Bool-cases (leb_ℤ i (pos 0))) [
  | inl e ↦ rw e tt
  | inr e ↦ rw e (ground arith)
]

user_of-checked : (q : Bytes) → OnOk IsUser (user_of q)
unfolding user_of
user_of-checked [] = omega arith
user_of-checked (c ∷ q) = user_of_parsed-checked (parse_int (c ∷ q))

some_known : {t : TransactionType} → (t ≡ bet) ⊎ (t ≡ win) → IsKnown (some t)
some_known (inl e) = inr (inl (ap some e))
some_known (inr e) = inr (inr (ap some e))

type_of_checked-known :
    (t : TransactionType) (c : Option DomainError)
    → check_type t ≡ c
    → OnOk IsKnown (type_of_checked t c)
type_of_checked-known t none e = some_known (known_type t e)
type_of_checked-known t (some d) e = tt

type_of-known : (t : String) → OnOk IsKnown (type_of t)
unfolding type_of
type_of-known t = elim (Bool-cases (str_eq t "")) [
  | inl e ↦ rw e (inl refl)
  | inr e ↦ rw e (type_of_checked-known t (check_type t) refl)
]

module _ {W : Type 0} where
  ended-keeps :
      (found : List Transaction) (end close : Option GoError) (w : W)
      → (ended found end close w).world ≡ w
  ended-keeps found (some e) close w = refl
  ended-keeps found none close w = refl

  scanned-keeps :
      (r : Result GoError (List Transaction)) (rows : Rows) (w : W) → (scanned r rows w).world ≡ w
  scanned-keeps (err e) rows w = refl
  scanned-keeps (ok found) rows w = ended-keeps found rows.end rows.close w

  queried-keeps : (r : Result GoError Rows) (w : W) → (queried r w).world ≡ w
  queried-keeps (err e) w = refl
  queried-keeps (ok rows) w = scanned-keeps (scan_all [] rows.scans) rows w

  get-world :
      (db : Database W) (user : ℤ) (filter : Option TransactionType) (w : W)
      → (service_get (some db) user filter w).1 ≡ (db.query (get_statement user filter) w).1
  unfolding service_get get
  get-world db user filter w =
      let (r, w') = db.query (get_statement user filter) w in queried-keeps r w'

  encoded-keeps : (b : Bool) (rs : List TransactionResponse) (w : W) → (encoded b rs w).world ≡ w
  encoded-keeps true rs w = refl
  encoded-keeps false rs w = refl

  served-keeps :
      (backend : Backend W) (r : Result GoError (List Transaction)) (w : W)
      → (served backend r w).world ≡ w
  served-keeps backend (err e) w = refl
  served-keeps backend (ok ts) w = encoded-keeps (backend.encodes (responses ts)) (responses ts) w

module _ {W : Type 0} (db : Database W) (encodes : List TransactionResponse → Bool) (w : W) where
  with_filters-Reads :
      (user : Result String ℤ) (filter : Result String (Option TransactionType))
      → OnOk IsUser user
      → OnOk IsKnown filter
      → Reads db w (with_filters (backend_over db encodes) user filter w).world
  unfolding backend_over
  with_filters-Reads (err e) filter h k = nothing
  with_filters-Reads (ok i) (err e) h k = nothing
  with_filters-Reads (ok i) (ok f) h k =
      let (r, w') = service_get (some db) i f w in
      subst (Reads db w) (sym (served-keeps (backend_over db encodes) r w' ∙ get-world db i f w))
        (selects (record { user = h; known = k }))

  get_transactions-Reads :
      (user_id : Bytes) (transaction_type : String)
      → Reads db w (get_transactions (backend_over db encodes) user_id transaction_type w).world
  unfolding get_transactions
  get_transactions-Reads user_id transaction_type =
      with_filters-Reads (user_of user_id) (type_of transaction_type) (user_of-checked user_id)
        (type_of-known transaction_type)

  -- The world of an answer of the router.
  Routed-Reads :
      {R : Type 0} {reading : Reading R} {r : R} {a : Answer W} {p : Option String}
      → Routed reading (backend_over db encodes) r w a p
      → Reads db w a.world
  Routed-Reads {reading = reading} {r = r} (transactions_routed answer counted) =
      subst (λ x. Reads db w x.world) (sym answer)
        (get_transactions-Reads (reading.user_id r) (reading.transaction_type r))
  Routed-Reads (health_routed quiet status) = subst (Reads db w) (sym quiet.world) nothing
  Routed-Reads (elsewhere h k quiet) = subst (Reads db w) (sym quiet.world) nothing

-- A request to the API, whatever it is and whatever the mux and the database do, runs at most one
-- statement and nothing else on the database: the query of `Get` for a user that is not negative and for
-- no type, "bet" or "win".
pub new_api-Reads :
    {R W : Type 0} (reading : Reading R) (mux : Mux R) (db : Database W)
    (encodes : List TransactionResponse → Bool) (r : R) (w : W)
    → Reads db w (new_api reading mux db encodes r w).world
unfolding new_api
new_api-Reads reading mux db encodes r w =
    Routed-Reads db encodes w (serve-Routed reading mux (backend_over db encodes) r w)
