-- ===== src/Service/Table/Writing.antt =====
-- `Save` and `SaveBulk` on the table.
use casino_transaction_syste.Prelude.{
  ◌≡◌, ◌⊎◌, refl, sym, ◌∙◌, subst, String, inl, Option, none, some, List, [], ◌∷◌,
}
use casino_transaction_syste.Domain.{Transaction}
use casino_transaction_syste.Errors.{GoError}
use casino_transaction_syste.Kafka.Trace.{Has}
use casino_transaction_syste.Repository.{
  Database, executed, save, save_bulk, save_statement, bulk_statement,
}
use casino_transaction_syste.Repository.Statements.{bulk_statement-rows, bulk_one}
use casino_transaction_syste.Service.Table.{Key, keys_of, inserting, IsPostgres}
use casino_transaction_syste.Service.{error_of, register_transaction, register_transactions}

module _ {W : Type 0} (db : Database W) (law : IsPostgres db) where
  -- What a call that registers these transactions does to the table.
  pub record Writes (ts : List Transaction) (w : W) (out : Option GoError × W) : Type 0 where
    pub keeps : (k : Key) → law.IsRow k w → law.IsRow k out.1
    pub only : (k : Key) → law.IsRow k out.1 → law.IsRow k w ⊎ Has k (keys_of law.column ts)
    pub adds : out.0 ≡ none → (k : Key) → Has k (keys_of law.column ts) → law.IsRow k out.1

  Writes-exec : (ts : List Transaction) (w : W) → Writes ts w (db.exec (inserting ts) w)
  Writes-exec ts w = record {
    keeps = law.insert_keeps ts w;
    only = law.insert_only ts w;
    adds = λ e k. law.insert_adds ts w k e;
  }

  executed-of :
      (operation : String) (out : Option GoError × W)
      → (error_of (executed operation out.0 out.1).value, (executed operation out.0 out.1).world)
        ≡ out
  executed-of operation (none, w) = refl
  executed-of operation (some e, w) = refl

  pub register_transactions-Writes :
      (ts : List Transaction) (w : W) → Writes ts w (register_transactions (some db) ts w)
  unfolding register_transactions save_bulk
  register_transactions-Writes [] w = record {
    keeps = λ k h. h;
    only = λ k h. inl h;
    adds = λ e k h. absurd h;
  }
  register_transactions-Writes (t ∷ ts) w =
      subst (Writes (t ∷ ts) w)
        (sym (executed-of "save_bulk" (db.exec (bulk_statement (t ∷ ts)) w)))
        (subst (λ st. Writes (t ∷ ts) w (db.exec st w)) (sym (bulk_statement-rows (t ∷ ts)))
          (Writes-exec (t ∷ ts) w))

  pub register_transaction-Writes :
      (t : Transaction) (w : W) → Writes (t ∷ []) w (register_transaction (some db) t w)
  unfolding register_transaction save
  register_transaction-Writes t w =
      subst (Writes (t ∷ []) w) (sym (executed-of "save" (db.exec (save_statement t) w))) (
        subst (λ st. Writes (t ∷ []) w (db.exec st w))
          (sym (bulk_statement-rows (t ∷ [])) ∙ bulk_one t) (Writes-exec (t ∷ []) w))
