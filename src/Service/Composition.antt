-- ===== src/Service/Composition.antt =====
-- The consumer over the service over the repository: what an error of the driver does to the retries.
use casino_transaction_syste.Prelude.{
  String, ℕ, zero, suc, ◌+◌, ◌≡◌, ◌≢◌, ◌==◌, Bool, true, false, Option, none, some, List, [], ◌∷◌,
  Result, ok, err, arith, absurd, Bool-cases, inl, inr,
}
use casino_transaction_syste.Domain.{Transaction}
use casino_transaction_syste.Errors.{GoError, root, repo_not_initialized, db_unavailable}
use casino_transaction_syste.Boundary.{classify}
use casino_transaction_syste.Boundary.Classes.{classify_retryable}
use casino_transaction_syste.Repository.{
  Statement, Database, executed, save, save_bulk, save_statement, bulk_statement,
}
use casino_transaction_syste.Service.{error_of, register_transaction, register_transactions}
use casino_transaction_syste.Kafka.Message.{Message}
use casino_transaction_syste.Kafka.Consumer.State.{State, M, stored, Wt, Wt-mono}
use casino_transaction_syste.Kafka.Consumer.Config.{Consumer, rounds, parsed}
use casino_transaction_syste.Kafka.Consumer.Process.{
  by_class, unless_done, judge, attempts, process_parsed, process_message,
}
use casino_transaction_syste.Kafka.Consumer.Batch.{
  BulkEnd, bulk_by_class, bulk_unless_done, bulk_judge, bulk_attempts,
}
use casino_transaction_syste.Kafka.Retries.{AtMost}

-- The consumer that bootstrap wires: its service is the one over this database.
unfoldable pub over : {W : Type 0} → Database W → Consumer W → Consumer W
unfolding register_transaction register_transactions
over db c = record c {
  outside = record c.outside {
    register = register_transaction (some db);
    register_all = register_transactions (some db);
  };
}

-- An error of the driver is not one of the program's own sentinels, and wraps none.
abbrev pub IsForeign : Option GoError → Type 0
IsForeign none = Unit
IsForeign (some e) = (root e ≢ repo_not_initialized) × (root e ≢ db_unavailable)

abbrev pub IsDriver : {W : Type 0} → Database W → Type 0
IsDriver {W} db = (st : Statement) (w : W) → IsForeign (db.exec st w).0

foreign-Final : (e : GoError) → IsForeign (some e) → (classify e).retryable ≡ false
foreign-Final e h = elim (Bool-cases (classify e).retryable) [
  | inr final ↦ final
  | inl again ↦ elim ((classify_retryable e).0 again) [
    | inl a ↦ absurd (h.0 a)
    | inr b ↦ absurd (h.1 b)
  ]
]

module _ {W : Type 0} where
  executed-Foreign :
      (operation : String) (r : Option GoError) (w : W)
      → IsForeign r
      → IsForeign (error_of (executed operation r w).value)
  executed-Foreign operation none w h = tt
  executed-Foreign operation (some e) w h = h

  register-Foreign :
      (db : Database W)
      → IsDriver db
      → (t : Transaction) (w : W) → IsForeign (register_transaction (some db) t w).0
  unfolding register_transaction save
  register-Foreign db d t w =
      let (r, w') = db.exec (save_statement t) w in
      executed-Foreign "save" r w' (d (save_statement t) w)

  register_all-Foreign :
      (db : Database W)
      → IsDriver db
      → (ts : List Transaction) (w : W) → IsForeign (register_transactions (some db) ts w).0
  unfolding register_transactions save_bulk
  register_all-Foreign db d [] w = tt
  register_all-Foreign db d (t ∷ ts) w =
      let (r, w') = db.exec (bulk_statement (t ∷ ts)) w in
      executed-Foreign "save_bulk" r w' (d (bulk_statement (t ∷ ts)) w)

-- A loop over retries ends behind an error that is not retryable.
module _ {W : Type 0} (c : Consumer W) where
  by_class-Final :
      (again : M W (Option GoError)) (last : Bool) (attempt : ℕ) (e : GoError) (retryable : Bool)
      (s : State W)
      → retryable ≡ false
      → Wt (by_class c again last attempt e retryable s) (λ _. AtMost c 0 s)
  by_class-Final again last attempt e false s h = omega arith
  by_class-Final again last attempt e true s h = absurd cc

  judge-Final :
      (again : M W (Option GoError)) (last : Bool) (attempt : ℕ) (r : Option GoError) (s : State W)
      → IsForeign r
      → Wt (judge c again last attempt r s) (λ _. AtMost c 0 s)
  judge-Final again last attempt none s h = omega arith
  judge-Final again last attempt (some e) s h = unless_done-Final (c.outside.app_err s.world)
    where
      unless_done-Final :
          (done : Option GoError)
          → Wt (unless_done c again last attempt e done s) (λ _. AtMost c 0 s)
      unless_done-Final (some d) = omega arith
      unless_done-Final none =
          by_class-Final again last attempt e (classify e).retryable s (foreign-Final e h)

  bulk_by_class-Final :
      (again : M W BulkEnd) (attempt : ℕ) (e : GoError) (retryable : Bool) (s : State W)
      → retryable ≡ false
      → Wt (bulk_by_class c again attempt e retryable s) (λ _. AtMost c 0 s)
  bulk_by_class-Final again attempt e false s h = omega arith
  bulk_by_class-Final again attempt e true s h = absurd cc

  bulk_judge-Final :
      (again : M W BulkEnd) (attempt : ℕ) (r : Option GoError) (s : State W)
      → IsForeign r
      → Wt (bulk_judge c again attempt r s) (λ _. AtMost c 0 s)
  bulk_judge-Final again attempt none s h = omega arith
  bulk_judge-Final again attempt (some e) s h = bulk_unless_done-Final (c.outside.app_err s.world)
    where
      bulk_unless_done-Final :
          (done : Option GoError)
          → Wt (bulk_unless_done c again attempt e done s) (λ _. AtMost c 0 s)
      bulk_unless_done-Final (some d) = omega arith
      bulk_unless_done-Final none =
          bulk_by_class-Final again attempt e (classify e).retryable s (foreign-Final e h)

module _ {W : Type 0} (db : Database W) (d : IsDriver db) (c : Consumer W) where
  attempts-Once :
      (left attempt : ℕ) (t : Transaction) (s : State W)
      → Wt (attempts (over db c) left attempt t s) (λ _. AtMost c 1 s)
  unfolding attempts over
  attempts-Once zero attempt t s = omega arith
  attempts-Once (suc left) attempt t s =
      let (r, w) = register_transaction (some db) t s.world in
      let u : State W = record s { world = w; trace = stored (t ∷ []) r ∷ s.trace } in
      let again : M W (Option GoError) = attempts (over db c) left (attempt + 1) t in
      Wt-mono (judge (over db c) again (left == 0) attempt r u) (λ _ x h. omega arith)
        (judge-Final (over db c) again (left == 0) attempt r u (register-Foreign db d t s.world))

  process_parsed-Once :
      (r : Result GoError Transaction) (s : State W)
      → Wt (process_parsed (over db c) r s) (λ _. AtMost c 1 s)
  process_parsed-Once (err e) s = omega arith
  process_parsed-Once (ok t) s = attempts-Once (rounds (over db c)) 0 t s

  -- Over a database whose errors wrap no sentinel of the program, processMessageWithRetries returns and
  -- inserts at most once, whatever the number of retries in the configuration is.
  pub process_message-Once :
      (msg : Message) (s : State W) → Wt (process_message (over db c) msg s) (λ _. AtMost c 1 s)
  unfolding process_message
  process_message-Once msg s = process_parsed-Once (parsed (over db c) msg) s

  -- Over such a database the loop of flushBatch over the bulk insert returns, and inserts at most once.
  pub bulk_attempts-Once :
      (left attempt : ℕ) (ts : List Transaction) (last : Option GoError) (s : State W)
      → Wt (bulk_attempts (over db c) left attempt ts last s) (λ _. AtMost c 1 s)
  unfolding bulk_attempts over
  bulk_attempts-Once zero attempt ts last s = omega arith
  bulk_attempts-Once (suc left) attempt ts last s =
      let (r, w) = register_transactions (some db) ts s.world in
      let u : State W = record s { world = w; trace = stored ts r ∷ s.trace } in
      let again : M W BulkEnd = bulk_attempts (over db c) left (attempt + 1) ts r in
      Wt-mono (bulk_judge (over db c) again attempt r u) (λ _ x h. omega arith)
        (bulk_judge-Final (over db c) again attempt r u (register_all-Foreign db d ts s.world))

  -- What one loop over retries may insert.
  pub record InsertsOnce : Type 0 where
    pub alone :
        (msg : Message) (s : State W) → Wt (process_message (over db c) msg s) (λ _. AtMost c 1 s)
    pub in_bulk :
        (ts : List Transaction) (s : State W)
        → Wt (bulk_attempts (over db c) (rounds (over db c)) 0 ts none s) (λ _. AtMost c 1 s)
