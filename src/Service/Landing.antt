-- ===== src/Service/Landing.antt =====
-- From Kafka to the API: the consumer that bootstrap wires over a database, with the loop and all its
-- workers, and what a later query of the API lists.
mod Sample
mod Tests
use casino_transaction_syste.Prelude.{
  ℕ, ◌<◌, ◌≡◌, refl, ◌⊎◌, absurd, sym, subst, inl, inr, Option, none, some, List, [], ◌∷◌, ◌++◌,
  Bytes, Result, ok, All,
}
use casino_transaction_syste.Prelude.Int.{ℤ, pos, IsInt64}
use casino_transaction_syste.Domain.{Transaction}
use casino_transaction_syste.Errors.{GoError}
use casino_transaction_syste.Repository.{Database}
use casino_transaction_syste.Service.{register_transaction, register_transactions, get_transactions}
use casino_transaction_syste.Service.Composition.{over}
use casino_transaction_syste.Service.Table.{Key, key_of, keys_of, IsPostgres}
use casino_transaction_syste.Service.Table.Writing.{
  Writes, register_transaction-Writes, register_transactions-Writes,
}
use casino_transaction_syste.Service.Table.Reading.{Listed, get_transactions-Selected}
use casino_transaction_syste.Kafka.Message.{Message}
use casino_transaction_syste.Kafka.Settings.{IsUsable}
use casino_transaction_syste.Kafka.Outside.{Outside, IsLawful, IsPatient}
use casino_transaction_syste.Kafka.Consumer.State.{State, Action, stored, dead_lettered, committed}
use casino_transaction_syste.Kafka.Consumer.Config.{Consumer, parsed}
use casino_transaction_syste.Kafka.Trace.{Has, IsStored, IsDeadLettered, IsCommitted, IsSafe}
use casino_transaction_syste.Kafka.Delivery.Evolution.{IsSound}
use casino_transaction_syste.Kafka.Delivery.Flushing.{IsDone}
use casino_transaction_syste.Kafka.Fetch.Invariant.{only}
use casino_transaction_syste.Kafka.Keeping.{IsKept}
use casino_transaction_syste.Kafka.System.{System, begin, Reach}
use casino_transaction_syste.Kafka.System.Steps.{IsHarmless}
use casino_transaction_syste.Kafka.System.Keeping.{Reach-Keeps}
use casino_transaction_syste.Kafka.System.Complete.{pending, Located, Reach-IsKept}

module _ {W : Type 0} (db : Database W) (law : IsPostgres db) where
  -- What does not use the database leaves its rows alone.
  pub record IsAside (o : Outside W) : Type 0 where
    pub write_messages :
        (k v : Bytes) (w : W) (j : Key) → law.IsRow j w → law.IsRow j (o.write_messages k v w).1
    pub commit_messages :
        (ms : List Message) (w : W) (j : Key)
        → law.IsRow j w
        → law.IsRow j (o.commit_messages ms w).1
    pub cancel : (w : W) (j : Key) → law.IsRow j w → law.IsRow j (o.cancel w)
    pub now : (w : W) (j : Key) → law.IsRow j w → law.IsRow j (o.now w).1
    pub random : (n : ℕ) (w : W) (j : Key) → law.IsRow j w → law.IsRow j (o.random n w).1
    pub sleep : (d : ℤ) (w : W) (j : Key) → law.IsRow j w → law.IsRow j (o.sleep d w)
    pub wait : (w : W) (j : Key) → law.IsRow j w → law.IsRow j (o.wait w)

  -- Every transaction that the service has accepted has its row.
  abbrev pub HasLanded : W → List Action → Type 0
  HasLanded w past = (t : Transaction) → IsStored t past → law.IsRow (key_of law.column t) w

  Has-key :
      (t : Transaction) (ts : List Transaction)
      → Has t ts
      → Has (key_of law.column t) (keys_of law.column ts)
  Has-key t [] h = absurd h
  Has-key t (x ∷ ts) (inl e) = inl (subst (λ y. key_of law.column x ≡ key_of law.column y) e refl)
  Has-key t (x ∷ ts) (inr h) = inr (Has-key t ts h)

  HasLanded-stored :
      (ts : List Transaction) (w w' : W) (r : Option GoError) (past : List Action)
      → Writes db law ts w (r, w')
      → HasLanded w past
      → HasLanded w' (stored ts r ∷ past)
  HasLanded-stored ts w w' none past x h t (inl new) = x.adds refl _ (Has-key t ts new)
  HasLanded-stored ts w w' none past x h t (inr old) = x.keeps _ (h t old)
  HasLanded-stored ts w w' (some e) past x h t old = x.keeps _ (h t old)

  over-IsKept : (c : Consumer W) → IsAside c.outside → IsKept HasLanded (over db c).outside
  unfolding over
  over-IsKept c aside = record {
    register = λ t w past h.
        HasLanded-stored (t ∷ []) w (register_transaction (some db) t w).1
          (register_transaction (some db) t w).0 past (register_transaction-Writes db law t w) h;
    register_all = λ ts w past h.
        HasLanded-stored ts w (register_transactions (some db) ts w).1
          (register_transactions (some db) ts w).0 past (register_transactions-Writes db law ts w)
          h;
    write_messages = λ m k v w past h t s. aside.write_messages k v w _ (h t s);
    commit_messages = λ ms w past h t s. aside.commit_messages ms w _ (h t s);
    cancel = λ w past h t s. aside.cancel w _ (h t s);
    now = λ w past h t s. aside.now w _ (h t s);
    random = λ n w past h t s. aside.random n w _ (h t s);
    sleep = λ d w past h t s. aside.sleep d w _ (h t s);
    wait = λ w past h t s. aside.wait w _ (h t s);
  }

module _ {W : Type 0} (db : Database W) (law : IsPostgres db) (c : Consumer W) where
  -- The message is committed; it is a dead letter, or a list of transactions has its own.
  abbrev pub IsAnswered : List Transaction → List Action → Message → Type 0
  IsAnswered ts past m =
      IsCommitted m past
      × (IsDeadLettered m past
          ⊎ ((t : Transaction) × (parsed c m ≡ ok t) × Listed (key_of law.column t) ts))

  -- All messages of a partition that were fetched are answered by the list, or not done yet, in order.
  pub record Landed (ts : List Transaction) (s : System W) (p : ℕ) : Type 0 where
    pub done : List Message
    pub split : only p s.loop.fetched ≡ done ++ pending s p
    pub answered : All (IsAnswered ts s.shared.trace) done

module _ {W : Type 0} (db : Database W) (law : IsPostgres db) (c : Consumer W) where
  IsDone-IsAnswered :
      (ts : List Transaction) (w : W) (past : List Action)
      → HasLanded db law w past
      → ((k : Key) → law.IsRow k w → Listed k ts)
      → (ms : List Message) → All (IsDone (over db c) past) ms
      → All (IsAnswered db law (over db c) ts past) ms
  IsDone-IsAnswered ts w past landed lists [] h = tt
  IsDone-IsAnswered ts w past landed lists (m ∷ ms) ((inl (t, p, s), sent), h) =
      ((sent, inr (t, p, lists _ (landed t s))), IsDone-IsAnswered ts w past landed lists ms h)
  IsDone-IsAnswered ts w past landed lists (m ∷ ms) ((inr dead, sent), h) =
      ((sent, inl dead), IsDone-IsAnswered ts w past landed lists ms h)

  module _ (lawful : IsLawful (over db c).outside) (calm : IsPatient (over db c).outside)
      (elsewhere : W → W → Type 0) (harmless : IsHarmless (over db c) calm.patience elsewhere)
      (usable : IsUsable (over db c).cfg) (aside : IsAside db law c.outside)
      (untouched : (v w : W) (k : Key) → elsewhere v w → law.IsRow k v → law.IsRow k w) where
    -- In every state that the loop and the workers of Start reach together over a lawful database, under
    -- the conditions for a run of them, where nothing but inserts changes the rows of the table, all that
    -- was stored before is there at the beginning, and the context is not cancelled: if GetTransactions
    -- without filters returns transactions, then the messages fetched of each partition are, in order,
    -- messages that are committed and that are dead letters or whose transactions are listed, and then
    -- those in the batch of the worker, in its channel and at the `select`.
    pub Reach-Landed :
        (from : State W) (s : System W) (ts : List Transaction)
        → calm.patience from.world < (over db c).fuel
        → IsInt64 from.inflight
        → IsSafe (parsed (over db c)) from.trace
        → IsSound (over db c) from
        → HasLanded db law from.world from.trace
        → Reach (over db c) elsewhere (begin from) s
        → (over db c).outside.app_err s.shared.world ≡ none
        → (get_transactions (some db) (pos 0) none s.shared.world).0 ≡ ok ts
        → (p : ℕ) → Landed db law (over db c) ts s p
    Reach-Landed from s ts fuel range safe sound landed reach up got p =
        let kept =
          Reach-IsKept (over db c) lawful calm elsewhere harmless usable from s fuel range safe
            sound reach in
        let at = kept.located up p in
        let now_landed =
          Reach-Keeps (over db c) elsewhere (HasLanded db law) (over-IsKept db law c aside)
            (λ v w past moved h t x. untouched v w _ moved (h t x)) reach landed in
        let lists = (get_transactions-Selected db law (pos 0) none s.shared.world ts got).1 in
        record {
          done = at.done;
          split = at.split;
          answered =
              IsDone-IsAnswered ts s.shared.world s.shared.trace now_landed
                (λ k row. lists k row tt) at.done at.all_done;
        }
