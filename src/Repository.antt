-- ===== src/Repository.antt =====
-- internal/repository/postgresql.go: `Save`, `SaveBulk` and `Get` of `PostgresRepo`, over
-- database/sql. What they log is left out.
pub mod Statements
mod Tests
use Prim.Native.String.{◌++◌ as append}
use casino_transaction_syste.Prelude.{
  ℕ, ◌+◌, ◌*◌, Bool, true, false, ◌&&◌, not, String, if◌then◌else◌, Option, none, some, List, [],
  ◌∷◌, ◌++◌, length, Result, ok, err,
}
use casino_transaction_syste.Prelude.Int.{ℤ, pos, ltb_ℤ}
use casino_transaction_syste.Go.Strconv.Itoa.{itoa}
use casino_transaction_syste.TimeUtil.{Time, zero_time, is_zero}
use casino_transaction_syste.Domain.{TransactionType, Transaction}
use casino_transaction_syste.Errors.{GoError, repo_not_initialized}

-- What a placeholder stands for; a `sql.NullTime` is an option.
pub data Arg : Type 0 where
  number : ℤ → Arg
  text : String → Arg
  time : Option Time → Arg

pub record Statement : Type 0 where
  pub query : String
  pub args : List Arg

pub record Row : Type 0 where
  pub user_id : ℤ
  pub type : String
  pub amount : ℤ
  pub timestamp : Option Time
  pub created_at : Time

-- What a query yields: the results of `Scan` in turn, then `rows.Err()` and the result of
-- `rows.Close()`.
pub record Rows : Type 0 where
  pub scans : List (Result GoError Row)
  pub end : Option GoError
  pub close : Option GoError

-- ExecContext and QueryContext of the database handle.
pub record Database (W : Type 0) : Type 0 where
  pub exec : Statement → W → Option GoError × W
  pub query : Statement → W → Result GoError Rows × W

-- The metrics: a query counter with its operation, result and reason, and an observed duration.
pub data Report : Type 0 where
  counted : String → String → String → Report
  timed : String → Report

-- The returned error or value, the database after the call, and the metrics in order.
pub record Outcome (W A : Type 0) : Type 0 where
  pub value : Result GoError A
  pub world : W
  pub reports : List Report

abbrev pub null_time : Time → Option Time
null_time t = if is_zero t then none else some t

abbrev pub args_of : Transaction → List Arg
args_of t = number t.user_id ∷ text t.type ∷ number t.amount ∷ time (null_time t.timestamp) ∷ []

abbrev pub insert_into : String
insert_into = "\n\t\tINSERT INTO transactions (user_id, type, amount, timestamp)\n\t\tVALUES "

abbrev pub on_conflict : String
on_conflict = "\n\t\tON CONFLICT (user_id, type, amount, timestamp) DO NOTHING\n\t"

unfoldable pub save_statement : Transaction → Statement
save_statement t = record {
  query = append insert_into (append "($1, $2, $3, $4)" on_conflict);
  args = args_of t;
}

-- The placeholders of the i-th transaction, counted from 0.
unfoldable pub placeholders : ℕ → String
placeholders i = append "($" (
    append (itoa (i * 4 + 1)) (
      append ", $" (
        append (itoa (i * 4 + 2)) (
          append ", $"
            (append (itoa (i * 4 + 3)) (append ", $" (append (itoa (i * 4 + 4)) ")")))))))

-- The loop of `SaveBulk` from index `i` on, with what it has appended so far.
unfoldable pub collect : ℕ → List String → List Arg → List Transaction → List String × List Arg
collect i value_strings value_args [] = (value_strings, value_args)
collect i value_strings value_args (t ∷ ts) =
    collect (i + 1) (value_strings ++ placeholders i ∷ []) (value_args ++ args_of t) ts

-- `strings.Join`.
unfoldable pub join : String → List String → String
join sep [] = ""
join sep (s ∷ []) = s
join sep (s ∷ t ∷ ss) = append s (append sep (join sep (t ∷ ss)))

unfoldable pub bulk_statement : List Transaction → Statement
bulk_statement txs =
    let (value_strings, value_args) = collect 0 [] [] txs in
    record {
      query = append insert_into (append (join "," value_strings) on_conflict);
      args = value_args;
    }

abbrev pub get_base : String
get_base =
    "\n\t\tSELECT user_id, type, amount, timestamp, created_at\n\t\tFROM transactions\n\t\tWHERE 1=1\n\t"

abbrev pub order_by : String
order_by = " ORDER BY timestamp DESC NULLS LAST"

-- The two tests of `Get`, each of which appends an argument and a condition that counts it.
abbrev pub with_user : ℤ → List String × List Arg → List String × List Arg
with_user user (conditions, args) =
    if ltb_ℤ (pos 0) user
    then (
      conditions ++ append "user_id = $" (itoa (length (args ++ number user ∷ []))) ∷ [],
      args ++ number user ∷ [],
    )
    else (conditions, args)

abbrev pub with_type : Option TransactionType → List String × List Arg → List String × List Arg
with_type none built = built
with_type (some t) (conditions, args) = (
  conditions ++ append "type = $" (itoa (length (args ++ text t ∷ []))) ∷ [],
  args ++ text t ∷ [],
)

abbrev pub where_text : List String → String
where_text [] = ""
where_text (c ∷ cs) = append " AND " (join " AND " (c ∷ cs))

unfoldable pub get_statement : ℤ → Option TransactionType → Statement
get_statement user filter =
    let (conditions, args) = with_type filter (with_user user ([], [])) in
    record { query = append (append get_base (where_text conditions)) order_by; args = args }

abbrev or_zero : Option Time → Time
or_zero none = zero_time
or_zero (some t) = t

unfoldable pub transaction_of : Row → Transaction
transaction_of r = record {
  id = pos 0;
  user_id = r.user_id;
  type = r.type;
  amount = r.amount;
  timestamp = or_zero r.timestamp;
  created_at = r.created_at;
}

-- The loop over the rows: the transactions so far, until a scan fails.
unfoldable pub scan_all :
    List Transaction → List (Result GoError Row) → Result GoError (List Transaction)
scan_all found [] = ok found
scan_all found (err e ∷ rs) = err e
scan_all found (ok r ∷ rs) = scan_all (found ++ transaction_of r ∷ []) rs

abbrev close_reports : Option GoError → List Report
close_reports none = []
close_reports (some e) = counted "get" "error" "close_rows" ∷ []

-- A method's own reports, and then those of the deferred calls.
abbrev pub finish : {W A : Type 0} → String → Result GoError A → W → List Report → Outcome W A
finish operation value w reports = record {
  value = value;
  world = w;
  reports = reports ++ timed operation ∷ [];
}

module _ {W : Type 0} where
  abbrev pub not_initialized : {A : Type 0} → String → W → Outcome W A
  not_initialized operation w =
      finish operation (err repo_not_initialized) w
        (counted operation "error" "repo_not_initialized" ∷ [])

  -- What follows ExecContext.
  abbrev pub executed : String → Option GoError → W → Outcome W (Unit {0})
  executed operation (some e) w = finish operation (err e) w (counted operation "error" "exec" ∷ [])
  executed operation none w = finish operation (ok tt) w (counted operation "success" "" ∷ [])

  abbrev pub ended :
      List Transaction → Option GoError → Option GoError → W → Outcome W (List Transaction)
  ended found (some e) close w =
      finish "get" (err e) w (counted "get" "error" "rows" ∷ close_reports close)
  ended found none close w =
      finish "get" (ok found) w (counted "get" "success" "" ∷ close_reports close)

  abbrev pub scanned : Result GoError (List Transaction) → Rows → W → Outcome W (List Transaction)
  scanned (err e) rows w =
      finish "get" (err e) w (counted "get" "error" "scan" ∷ close_reports rows.close)
  scanned (ok found) rows w = ended found rows.end rows.close w

  abbrev pub queried : Result GoError Rows → W → Outcome W (List Transaction)
  queried (err e) w = finish "get" (err e) w (counted "get" "error" "query" ∷ [])
  queried (ok rows) w = scanned (scan_all [] rows.scans) rows w

  -- The handle is `none` where `r.db` is nil; the metrics sink is never nil.
  unfoldable pub save : Option (Database W) → Transaction → W → Outcome W (Unit {0})
  save none t w = not_initialized "save" w
  save (some db) t w = let (r, w') = db.exec (save_statement t) w in executed "save" r w'

  unfoldable pub save_bulk : Option (Database W) → List Transaction → W → Outcome W (Unit {0})
  save_bulk none txs w = not_initialized "save_bulk" w
  save_bulk (some db) [] w = finish "save_bulk" (ok tt) w []
  save_bulk (some db) (t ∷ ts) w =
      let (r, w') = db.exec (bulk_statement (t ∷ ts)) w in executed "save_bulk" r w'

  unfoldable pub get :
      Option (Database W) → ℤ → Option TransactionType → W → Outcome W (List Transaction)
  get none user filter w = not_initialized "get" w
  get (some db) user filter w = let (r, w') = db.query (get_statement user filter) w in queried r w'
