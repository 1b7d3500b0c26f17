-- ===== src/Service/Table/Reading.antt =====
-- `Get` on the table.
use casino_transaction_syste.Prelude.{
  ◌≡◌, ◌⊎◌, refl, sym, ap, ◌∙◌, subst, if◌then◌else◌, Bool-cases, inl, inr, Option, none, some,
  List, [], ◌∷◌, ◌++◌, Result, ok, err,
}
use casino_transaction_syste.Prelude.Int.{ℤ, pos, ltb_ℤ}
use casino_transaction_syste.Go.Strconv.Itoa.{itoa}
use casino_transaction_syste.TimeUtil.{Time, zero_time}
use casino_transaction_syste.Domain.{Transaction, TransactionType}
use casino_transaction_syste.Errors.{GoError}
use casino_transaction_syste.Repository.{
  Row, Rows, Statement, Database, transaction_of, scan_all, ended, scanned, queried, get,
  get_statement, join,
}
use casino_transaction_syste.Service.{get_transactions}
use casino_transaction_syste.Service.Table.{
  Key, row_key, selecting, IsSelected, IsShown, Each, IsPostgres,
}

-- The user that the query asks for, as `userID > 0` decides it.
abbrev pub user_filter : ℤ → Option ℤ
user_filter user = if ltb_ℤ (pos 0) user then some user else none

-- The transaction is the row with this key, as the program reads it.
pub record IsOf (k : Key) (t : Transaction) : Type 0 where
  pub user : t.user_id ≡ k.user_id
  pub type : t.type ≡ k.type
  pub amount : t.amount ≡ k.amount
  pub time : (at : Time) → k.timestamp ≡ some at → t.timestamp ≡ at
  pub no_time : k.timestamp ≡ none → t.timestamp ≡ zero_time

abbrev pub Listed : Key → List Transaction → Type 0
Listed k [] = ⊥
Listed k (t ∷ ts) = IsOf k t ⊎ Listed k ts

-- Every transaction is a row of which this holds.
abbrev pub EachListed : (Key → Type 0) → List Transaction → Type 0
EachListed P [] = Unit
EachListed P (t ∷ ts) = ((k : Key) × IsOf k t × P k) × EachListed P ts

IsOf-row : (r : Row) → IsOf (row_key r) (transaction_of r)
unfolding transaction_of
IsOf-row r = record {
  user = refl;
  type = refl;
  amount = refl;
  time = λ at e. rw e refl;
  no_time = λ e. rw e refl;
}

Listed-left : (k : Key) (a b : List Transaction) → Listed k a → Listed k (a ++ b)
Listed-left k [] b h = absurd h
Listed-left k (t ∷ a) b (inl h) = inl h
Listed-left k (t ∷ a) b (inr h) = inr (Listed-left k a b h)

Listed-last : (k : Key) (a : List Transaction) (t : Transaction) → IsOf k t → Listed k (a ++ t ∷ [])
Listed-last k [] t h = inl h
Listed-last k (x ∷ a) t h = inr (Listed-last k a t h)

EachListed-last :
    (P : Key → Type 0) (a : List Transaction) (t : Transaction)
    → EachListed P a
    → ((k : Key) × IsOf k t × P k)
    → EachListed P (a ++ t ∷ [])
EachListed-last P [] t h k = (k, tt)
EachListed-last P (x ∷ a) t h k = (h.0, EachListed-last P a t h.1 k)

ok_or : {A : Type 0} → A → Result GoError A → A
ok_or d (ok a) = a
ok_or d (err e) = d

ok_inj : {A : Type 0} {a b : A} → Path (Result GoError A) (ok a) (ok b) → a ≡ b
unfolding ok_or
ok_inj {a = a} e = ap (ok_or a) e

err_ok : {A : Type 0} {a : A} {x : GoError} → ¬ (err x ≡ ok a)
err_ok e = cc

get_statement-selecting :
    (user : ℤ) (filter : Option TransactionType)
    → get_statement user filter ≡ selecting (user_filter user) filter
unfolding get_statement join itoa
get_statement-selecting user none = elim (Bool-cases (ltb_ℤ (pos 0) user)) [
  | inl some_user ↦ rw some_user refl
  | inr all_users ↦ rw all_users refl
]
get_statement-selecting user (some t) = elim (Bool-cases (ltb_ℤ (pos 0) user)) [
  | inl some_user ↦ rw some_user refl
  | inr all_users ↦ rw all_users refl
]

-- The loop over the rows, where no scan fails.
Listed-of_shown :
    (k : Key) (rs : List (Result GoError Row)) (found ts : List Transaction)
    → scan_all found rs ≡ ok ts
    → Listed k found ⊎ IsShown k rs
    → Listed k ts
unfolding scan_all
Listed-of_shown k [] found ts e (inl h) = subst (Listed k) (ok_inj e) h
Listed-of_shown k [] found ts e (inr h) = absurd h
Listed-of_shown k (err x ∷ rs) found ts e h = absurd (err_ok e)
Listed-of_shown k (ok r ∷ rs) found ts e (inl h) =
    Listed-of_shown k rs (found ++ transaction_of r ∷ []) ts e (inl (Listed-left k found _ h))
Listed-of_shown k (ok r ∷ rs) found ts e (inr (inl h)) =
    Listed-of_shown k rs (found ++ transaction_of r ∷ []) ts e (
      inl (
        Listed-last k found (transaction_of r)
          (subst (λ j. IsOf j (transaction_of r)) h (IsOf-row r))))
Listed-of_shown k (ok r ∷ rs) found ts e (inr (inr h)) =
    Listed-of_shown k rs (found ++ transaction_of r ∷ []) ts e (inr h)

each_listed :
    (P : Key → Type 0) (rs : List (Result GoError Row)) (found ts : List Transaction)
    → scan_all found rs ≡ ok ts
    → EachListed P found
    → Each (λ r. P (row_key r)) rs
    → EachListed P ts
unfolding scan_all
each_listed P [] found ts e h k = subst (EachListed P) (ok_inj e) h
each_listed P (err x ∷ rs) found ts e h k = absurd (err_ok e)
each_listed P (ok r ∷ rs) found ts e h k =
    each_listed P rs (found ++ transaction_of r ∷ []) ts e
      (EachListed-last P found (transaction_of r) h (row_key r, IsOf-row r, k.0)) k.1

-- Where `Get` returns transactions, its query did not fail, nor did a scan or the rows.
record Got (r : Result GoError Rows) (ts : List Transaction) : Type 0 where
  rows : Rows
  queries : r ≡ ok rows
  scans : scan_all [] rows.scans ≡ ok ts
  ends : rows.end ≡ none

module _ {W : Type 0} where
  ended-Got :
      (found ts : List Transaction) (end close : Option GoError) (w : W)
      → (ended found end close w).value ≡ ok ts
      → (end ≡ none) × (found ≡ ts)
  ended-Got found ts (some e) close w h = absurd (err_ok h)
  ended-Got found ts none close w h = (refl, ok_inj h)

  scanned-Got :
      (r : Result GoError (List Transaction)) (rows : Rows) (ts : List Transaction) (w : W)
      → scan_all [] rows.scans ≡ r
      → (scanned r rows w).value ≡ ok ts
      → Got (ok rows) ts
  scanned-Got (err e) rows ts w same h = absurd (err_ok h)
  scanned-Got (ok found) rows ts w same h =
      let (ends, found_ts) = ended-Got found ts rows.end rows.close w h in
      record { rows = rows; queries = refl; scans = same ∙ ap (λ x. ok x) found_ts; ends = ends }

  queried-Got :
      (r : Result GoError Rows) (ts : List Transaction) (w : W)
      → (queried r w).value ≡ ok ts
      → Got r ts
  queried-Got (err e) ts w h = absurd (err_ok h)
  queried-Got (ok rows) ts w h = scanned-Got (scan_all [] rows.scans) rows ts w refl h

module _ {W : Type 0} (db : Database W) (law : IsPostgres db) where
  -- Where GetTransactions of the service returns transactions, they are those of the table that the
  -- filters select, all users for a user that is not positive: each is such a row as the program reads
  -- it, and each such row is listed.
  pub get_transactions-Selected :
      (user : ℤ) (filter : Option TransactionType) (w : W) (ts : List Transaction)
      → (get_transactions (some db) user filter w).0 ≡ ok ts
      → EachListed (λ k. law.IsRow k w × IsSelected (user_filter user) filter k) ts
        × ((k : Key) → law.IsRow k w → IsSelected (user_filter user) filter k → Listed k ts)
  unfolding get_transactions get
  get_transactions-Selected user filter w ts h =
      let st : Statement = get_statement user filter in
      let same = get_statement-selecting user filter in
      let g = queried-Got (db.query st w).0 ts (db.query st w).1 h in
      let q = sym (ap (λ (x : Statement). (db.query x w).0) same) ∙ g.queries in
      (
        each_listed (λ k. law.IsRow k w × IsSelected (user_filter user) filter k) g.rows.scans [] ts
            g.scans tt (law.select_only (user_filter user) filter w g.rows q),
        λ k row selected.
            Listed-of_shown k g.rows.scans [] ts g.scans
              (inr (law.select_all (user_filter user) filter w g.rows k q g.ends row selected)),
      )
