-- ===== src/Service/Answers.antt =====
-- The handler over the service over the repository: what an error of the driver does to the answer.
use casino_transaction_syste.Prelude.{
  absurd, String, ◌≢◌, refl, Bool, true, false, Option, none, some, List, [], ◌∷◌, ◌++◌, Bytes,
  Result, ok, err, All, arith,
}
use casino_transaction_syste.Prelude.Int.{ℤ}
use casino_transaction_syste.Domain.{TransactionType, Transaction}
use casino_transaction_syste.Errors.{
  GoError, repo_not_initialized, db_unavailable, amount, domain, canceled, deadline_exceeded, other,
  wrapped, non_retryable, root,
}
use casino_transaction_syste.Boundary.{classify}
use casino_transaction_syste.Repository.{
  Statement, Row, Rows, Database, transaction_of, scan_all, ended, scanned, queried, get,
  get_statement,
}
use casino_transaction_syste.Service.{get_transactions as service_get}
use casino_transaction_syste.Service.Composition.{IsForeign}
use casino_transaction_syste.Http.{
  TransactionResponse, Backend, responses, encoded, served, with_filters, user_of, type_of,
  get_transactions,
}

-- The handler's service that bootstrap wires.
unfoldable pub backend_over :
    {W : Type 0} → Database W → (List TransactionResponse → Bool) → Backend W
unfolding service_get
backend_over db encodes = record { get_transactions = service_get (some db); encodes = encodes }

module _ {A : Type 0} where
  abbrev pub IsForeignResult : Result GoError A → Type 0
  IsForeignResult (ok a) = Unit
  IsForeignResult (err e) = IsForeign (some e)

-- The errors of a query, of its rows and of their end are the driver's.
abbrev pub IsForeignQuery : Result GoError Rows → Type 0
IsForeignQuery (err e) = IsForeign (some e)
IsForeignQuery (ok rows) = All IsForeignResult rows.scans × IsForeign rows.end

abbrev pub IsReader : {W : Type 0} → Database W → Type 0
IsReader {W} db = (st : Statement) (w : W) → IsForeignQuery (db.query st w).0

scan_all-Foreign :
    (found : List Transaction) (rs : List (Result GoError Row))
    → All IsForeignResult rs
    → IsForeignResult (scan_all found rs)
unfolding scan_all
scan_all-Foreign found [] h = tt
scan_all-Foreign found (err e ∷ rs) h = h.0
scan_all-Foreign found (ok r ∷ rs) h = scan_all-Foreign (found ++ transaction_of r ∷ []) rs h.1

module _ {W : Type 0} where
  ended-Foreign :
      (found : List Transaction) (end close : Option GoError) (w : W)
      → IsForeign end
      → IsForeignResult (ended found end close w).value
  ended-Foreign found (some e) close w h = h
  ended-Foreign found none close w h = tt

  scanned-Foreign :
      (r : Result GoError (List Transaction)) (rows : Rows) (w : W)
      → IsForeignResult r
      → IsForeign rows.end
      → IsForeignResult (scanned r rows w).value
  scanned-Foreign (err e) rows w h k = h
  scanned-Foreign (ok found) rows w h k = ended-Foreign found rows.end rows.close w k

  queried-Foreign :
      (r : Result GoError Rows) (w : W) → IsForeignQuery r → IsForeignResult (queried r w).value
  queried-Foreign (err e) w h = h
  queried-Foreign (ok rows) w h =
      scanned-Foreign (scan_all [] rows.scans) rows w (scan_all-Foreign [] rows.scans h.0) h.1

  get-Foreign :
      (db : Database W)
      → IsReader db
      → (user : ℤ) (filter : Option TransactionType) (w : W)
      → IsForeignResult (service_get (some db) user filter w).0
  unfolding service_get get
  get-Foreign db d user filter w =
      let (r, w') = db.query (get_statement user filter) w in
      queried-Foreign r w' (d (get_statement user filter) w)

-- An error of the driver is not answered by 503.
Foreign-status : (e : GoError) → IsForeign (some e) → (classify e).http_status ≢ 503
unfolding classify root
Foreign-status (wrapped e) h = Foreign-status e h
Foreign-status repo_not_initialized h = absurd (h.0 refl)
Foreign-status db_unavailable h = absurd (h.1 refl)
Foreign-status (amount a) h = omega arith
Foreign-status (domain d) h = omega arith
Foreign-status canceled h = omega arith
Foreign-status deadline_exceeded h = omega arith
Foreign-status (other n) h = omega arith
Foreign-status (non_retryable e) h = omega arith

module _ {W : Type 0} (backend : Backend W) where
  encoded-status :
      (written : Bool) (resp : List TransactionResponse) (w : W)
      → (encoded written resp w).status ≢ 503
  encoded-status true resp w = omega arith
  encoded-status false resp w = omega arith

  served-status :
      (r : Result GoError (List Transaction)) (w : W)
      → IsForeignResult r
      → (served backend r w).status ≢ 503
  served-status (err e) w h = Foreign-status e h
  served-status (ok ts) w h = encoded-status (backend.encodes (responses ts)) (responses ts) w

module _ {W : Type 0} (db : Database W) (d : IsReader db)
    (encodes : List TransactionResponse → Bool) where
  with_filters-status :
      (user : Result String ℤ) (filter : Result String (Option TransactionType)) (w : W)
      → (with_filters (backend_over db encodes) user filter w).status ≢ 503
  unfolding backend_over
  with_filters-status (err reason) filter w = omega arith
  with_filters-status (ok user) (err reason) w = omega arith
  with_filters-status (ok user) (ok filter) w =
      let (r, w') = service_get (some db) user filter w in
      served-status (backend_over db encodes) r w' (get-Foreign db d user filter w)

  -- Over a database whose errors wrap no sentinel of the program, no request is answered by 503, whatever
  -- the database does.
  pub get_transactions-status :
      (user_id : Bytes) (transaction_type : String) (w : W)
      → (get_transactions (backend_over db encodes) user_id transaction_type w).status ≢ 503
  unfolding get_transactions
  get_transactions-status user_id transaction_type w =
      with_filters-status (user_of user_id) (type_of transaction_type) w
