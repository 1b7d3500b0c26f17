-- ===== src/Service/Table/Histories.antt =====
-- Sequences of calls that register transactions, in any order and with repeats.
use casino_transaction_syste.Prelude.{
  ◌≡◌, ◌⊎◌, ◌↔◌, refl, inl, inr, Option, none, some, List, [], ◌∷◌, ◌++◌,
}
use casino_transaction_syste.Domain.{Transaction}
use casino_transaction_syste.Errors.{GoError}
use casino_transaction_syste.Kafka.Trace.{Has}
use casino_transaction_syste.Repository.{Database}
use casino_transaction_syste.Service.{register_transaction, register_transactions}
use casino_transaction_syste.Service.Table.{Key, keys_of, IsPostgres}
use casino_transaction_syste.Service.Table.Writing.{
  Writes, register_transaction-Writes, register_transactions-Writes,
}

-- RegisterTransaction and RegisterTransactions.
pub data Call : Type 0 where
  one : Transaction → Call
  many : List Transaction → Call

abbrev pub asked : Call → List Transaction
asked (one t) = t ∷ []
asked (many ts) = ts

-- All transactions of some calls.
abbrev pub requested : List Call → List Transaction
requested [] = []
requested (c ∷ cs) = asked c ++ requested cs

-- The transactions of a call that returned no error.
abbrev pub accepted : List Transaction → Option GoError → List Transaction
accepted ts none = ts
accepted ts (some e) = []

module _ {W : Type 0} (db : Database W) where
  abbrev pub call : Call → W → Option GoError × W
  call (one t) w = register_transaction (some db) t w
  call (many ts) w = register_transactions (some db) ts w

  -- Calls one after the other: what the calls without an error asked for, and the world at the end.
  unfoldable pub run : List Call → W → List Transaction × W
  run [] w = ([], w)
  run (c ∷ cs) w =
      let (r, w') = call c w in let (ts, v) = run cs w' in (accepted (asked c) r ++ ts, v)

module _ {W : Type 0} (db : Database W) (law : IsPostgres db) where
  call-Writes : (c : Call) (w : W) → Writes db law (asked c) w (call db c w)
  call-Writes (one t) w = register_transaction-Writes db law t w
  call-Writes (many ts) w = register_transactions-Writes db law ts w

  Has-append_left :
      (k : Key) (a b : List Transaction)
      → Has k (keys_of law.column a)
      → Has k (keys_of law.column (a ++ b))
  Has-append_left k [] b h = absurd h
  Has-append_left k (t ∷ a) b (inl e) = inl e
  Has-append_left k (t ∷ a) b (inr h) = inr (Has-append_left k a b h)

  Has-append_right :
      (k : Key) (a b : List Transaction)
      → Has k (keys_of law.column b)
      → Has k (keys_of law.column (a ++ b))
  Has-append_right k [] b h = h
  Has-append_right k (t ∷ a) b h = inr (Has-append_right k a b h)

  Has-split :
      (k : Key) (a b : List Transaction)
      → Has k (keys_of law.column (a ++ b))
      → Has k (keys_of law.column a) ⊎ Has k (keys_of law.column b)
  Has-split k [] b h = inr h
  Has-split k (t ∷ a) b (inl e) = inl (inl e)
  Has-split k (t ∷ a) b (inr h) = elim (Has-split k a b h) [ inl x ↦ inl (inr x) | inr y ↦ inr y ]

  Has-accepted :
      {P : Type 0} (k : Key) (ts : List Transaction) (r : Option GoError)
      → (r ≡ none → Has k (keys_of law.column ts) → P)
      → Has k (keys_of law.column (accepted ts r))
      → P
  Has-accepted k ts none f h = f refl h
  Has-accepted k ts (some e) f h = absurd h

  -- Whatever calls register transactions, and whether or not they fail: no row of the table goes, no row
  -- comes but with the key of a transaction that a call asked for, and each key of a call that returned
  -- no error is there at the end.
  pub run-Writes :
      (cs : List Call) (w : W) (k : Key)
      → (law.IsRow k w ⊎ Has k (keys_of law.column (run db cs w).0) → law.IsRow k (run db cs w).1)
        × (law.IsRow k (run db cs w).1 → law.IsRow k w ⊎ Has k (keys_of law.column (requested cs)))
  unfolding run
  run-Writes [] w k = ((λ h. elim h [ inl x ↦ x | inr y ↦ absurd y ]), (λ h. inl h))
  run-Writes (c ∷ cs) w k =
      let (r, w') = call db c w in
      let ran : Option GoError × W = call db c w in
      let first = call-Writes c w in
      let rest = run-Writes cs ran.1 k in
      let done : List Transaction = accepted (asked c) ran.0 in
      let later : List Transaction = (run db cs ran.1).0 in
      (
        (λ h. elim h [
          | inl old ↦ rest.0 (inl (first.keeps k old))
          | inr new ↦ elim (Has-split k done later new) [
            | inl x ↦ rest.0 (inl (Has-accepted k (asked c) ran.0 (λ e y. first.adds e k y) x))
            | inr y ↦ rest.0 (inr y)
          ]
        ]),
        (λ h. elim (rest.1 h) [
          | inl x ↦ elim (first.only k x) [
            | inl old ↦ inl old
            | inr new ↦ inr (Has-append_left k (asked c) (requested cs) new)
          ]
          | inr y ↦ inr (Has-append_right k (asked c) (requested cs) y)
        ]),
      )

  -- Every key that the calls ask for is asked for by one that returned no error; others may fail.
  abbrev pub AllAccepted : List Call → W → Type 0
  AllAccepted cs w =
      (k : Key)
      → Has k (keys_of law.column (requested cs))
      → Has k (keys_of law.column (run db cs w).0)

  -- Two histories of calls from the same beginning that ask for the same keys, and in each of which some
  -- call with the key returns no error, however many fail or repeat it, end with rows of the same keys:
  -- neither the order of the transactions, nor how the calls group them, nor the failures and repeats
  -- make a difference.
  pub run-agrees :
      (a b : List Call) (w : W)
      → AllAccepted a w
      → AllAccepted b w
      → ((k : Key)
          → Has k (keys_of law.column (requested a)) ↔ Has k (keys_of law.column (requested b)))
      → (k : Key) → law.IsRow k (run db a w).1 ↔ law.IsRow k (run db b w).1
  run-agrees a b w all_a all_b same k =
      ((λ h. carry a b all_b (same k).0 h), (λ h. carry b a all_a (same k).1 h))
    where
      carry :
          (x y : List Call)
          → AllAccepted y w
          → (Has k (keys_of law.column (requested x)) → Has k (keys_of law.column (requested y)))
          → law.IsRow k (run db x w).1
          → law.IsRow k (run db y w).1
      carry x y all f h = elim ((run-Writes x w k).1 h) [
        | inl old ↦ (run-Writes y w k).0 (inl old)
        | inr new ↦ (run-Writes y w k).0 (inr (all k (f new)))
      ]
