-- ===== src/Service/Table.antt =====
-- The table `transactions` as migrations/000001_init.up.sql declares it: a set of rows, each known by its
-- unique key, in which two missing timestamps are equal. PostgreSQL is a parameter; what the repository
-- relies on is that its statements mean what its documentation says.
pub mod Writing
pub mod Reading
pub mod Histories
pub mod Shop
mod Tests
use Prim.Native.String.{◌++◌ as append}
use casino_transaction_syste.Prelude.{
  ◌≡◌, ◌⊎◌, String, Option, none, some, List, [], ◌∷◌, ◌++◌, Result, ok, err,
}
use casino_transaction_syste.Prelude.Int.{ℤ}
use casino_transaction_syste.TimeUtil.{Time}
use casino_transaction_syste.Domain.{Transaction}
use casino_transaction_syste.Errors.{GoError}
use casino_transaction_syste.Kafka.Trace.{Has}
use casino_transaction_syste.Repository.{
  Arg, number, text, Statement, Row, Rows, Database, null_time, join,
}
use casino_transaction_syste.Repository.Statements.{all_args, rows_from}

-- unique_transaction_key
pub record Key : Type 0 where
  pub user_id : ℤ
  pub type : String
  pub amount : ℤ
  pub timestamp : Option Time

abbrev map_time : (Time → Time) → Option Time → Option Time
map_time f none = none
map_time f (some t) = some (f t)

-- The key of the row that an insert of the transaction asks for; the column keeps a time to some
-- precision.
abbrev pub key_of : (Time → Time) → Transaction → Key
key_of column t = record {
  user_id = t.user_id;
  type = t.type;
  amount = t.amount;
  timestamp = map_time column (null_time t.timestamp);
}

abbrev pub keys_of : (Time → Time) → List Transaction → List Key
keys_of column [] = []
keys_of column (t ∷ ts) = key_of column t ∷ keys_of column ts

abbrev pub row_key : Row → Key
row_key r = record {
  user_id = r.user_id;
  type = r.type;
  amount = r.amount;
  timestamp = r.timestamp;
}

-- The insert with a row of VALUES for each transaction, which ignores those that are there.
abbrev pub inserting : List Transaction → Statement
inserting ts = record {
  query = append "\n\t\tINSERT INTO transactions (user_id, type, amount, timestamp)\n\t\tVALUES " (
      append (join "," (rows_from 0 ts))
        "\n\t\tON CONFLICT (user_id, type, amount, timestamp) DO NOTHING\n\t");
  args = all_args ts;
}

-- The text of the query before its conditions and behind them.
abbrev pub select_from : String
select_from =
    "\n\t\tSELECT user_id, type, amount, timestamp, created_at\n\t\tFROM transactions\n\t\tWHERE 1=1\n\t"

abbrev pub newest_first : String
newest_first = " ORDER BY timestamp DESC NULLS LAST"

-- The query with a condition on the user, on the type, on both or on neither.
abbrev pub selecting : Option ℤ → Option String → Statement
selecting none none = record { query = append select_from newest_first; args = [] }
selecting (some u) none = record {
  query = append (append select_from " AND user_id = $1") newest_first;
  args = number u ∷ [];
}
selecting none (some t) = record {
  query = append (append select_from " AND type = $1") newest_first;
  args = text t ∷ [];
}
selecting (some u) (some t) = record {
  query = append (append select_from " AND user_id = $1 AND type = $2") newest_first;
  args = number u ∷ text t ∷ [];
}

abbrev pub IsSelected : Option ℤ → Option String → Key → Type 0
IsSelected none none k = Unit
IsSelected (some u) none k = k.user_id ≡ u
IsSelected none (some t) k = k.type ≡ t
IsSelected (some u) (some t) k = (k.user_id ≡ u) × (k.type ≡ t)

-- Some row of a result has the key, unless a scan fails before it.
abbrev pub IsShown : Key → List (Result GoError Row) → Type 0
IsShown k [] = ⊥
IsShown k (err e ∷ rs) = Unit
IsShown k (ok r ∷ rs) = (row_key r ≡ k) ⊎ IsShown k rs

abbrev pub Each : (Row → Type 0) → List (Result GoError Row) → Type 0
Each P [] = Unit
Each P (err e ∷ rs) = Each P rs
Each P (ok r ∷ rs) = P r × Each P rs

-- The behaviour of PostgreSQL that the repository relies on.
pub record IsPostgres {W : Type 0} (db : Database W) : Type 1 where
  -- the rows of the table, and the precision of its column `timestamp`
  pub IsRow : Key → W → Type 0
  pub column : Time → Time
  -- an insert with ON CONFLICT DO NOTHING: no row goes, no row comes but those asked for, and all of
  -- these are there where the statement succeeds; where it fails, the client may not know what it did
  pub insert_keeps :
      (ts : List Transaction) (w : W) (k : Key) → IsRow k w → IsRow k (db.exec (inserting ts) w).1
  pub insert_only :
      (ts : List Transaction) (w : W) (k : Key)
      → IsRow k (db.exec (inserting ts) w).1
      → IsRow k w ⊎ Has k (keys_of column ts)
  pub insert_adds :
      (ts : List Transaction) (w : W) (k : Key)
      → (db.exec (inserting ts) w).0 ≡ none
      → Has k (keys_of column ts)
      → IsRow k (db.exec (inserting ts) w).1
  -- a query: it changes no row, and its rows are those of the table that its conditions select, all of
  -- them where no error ends it
  pub select_keeps :
      (u : Option ℤ) (t : Option String) (w : W) (k : Key)
      → IsRow k w
      → IsRow k (db.query (selecting u t) w).1
  pub select_only :
      (u : Option ℤ) (t : Option String) (w : W) (rows : Rows)
      → (db.query (selecting u t) w).0 ≡ ok rows
      → Each (λ r. IsRow (row_key r) w × IsSelected u t (row_key r)) rows.scans
  pub select_all :
      (u : Option ℤ) (t : Option String) (w : W) (rows : Rows) (k : Key)
      → (db.query (selecting u t) w).0 ≡ ok rows
      → rows.end ≡ none
      → IsRow k w
      → IsSelected u t k
      → IsShown k rows.scans
