-- ===== src/Kafka/Trace/Order.antt =====
-- Commits in the order of a partition: what each commit covers.
use casino_transaction_syste.Prelude.{
  ◌≡◌, refl, sym, subst, inl, inr, List, [], ◌∷◌, ◌++◌, Result, All, All-append,
}
use casino_transaction_syste.Domain.{Transaction}
use casino_transaction_syste.Errors.{GoError}
use casino_transaction_syste.Kafka.Message.{Message}
use casino_transaction_syste.Kafka.Consumer.State.{Action, stored, dead_lettered, committed}
use casino_transaction_syste.Kafka.Trace.{
  Has, IsSettled, IsQuiet, Extends, same, more, All-IsSettled-Extends,
}

-- Some members of a list stand in any list that ends with it.
Has-append_right : {A : Type 0} (a : A) (xs ys : List A) → Has a ys → Has a (xs ++ ys)
Has-append_right a [] ys h = h
Has-append_right a (x ∷ xs) ys h = inr (Has-append_right a xs ys h)

All-mono :
    {A : Type 0} {P Q : A → Type 0} (xs : List A) → ((a : A) → P a → Q a) → All P xs → All Q xs
All-mono [] f h = tt
All-mono (x ∷ xs) f h = (f x h.0, All-mono xs f h.1)

All-Has_self : {A : Type 0} (xs : List A) → All (λ a. Has a xs) xs
All-Has_self [] = tt
All-Has_self (x ∷ xs) = (inl refl, All-mono xs (λ a h. inr h) (All-Has_self xs))

module _ (parsed : Message → Result GoError Transaction) where
  -- Any commit is one of all the given messages, which are settled before it.
  abbrev pub CommitsAll : List Message → List Action → Action → Type 0
  CommitsAll ms past (committed ks r) = (ks ≡ ms) × All (IsSettled parsed past) ms
  CommitsAll ms past _ = Unit

  -- A commit whose messages lie in a part of the log that is settled from its start on.
  pub record IsCovered (log : List Message) (past : List Action) (ks : List Message) : Type 0 where
    pub front : List Message
    pub rest : List Message
    pub split : log ≡ front ++ rest
    pub inside : All (λ k. Has k front) ks
    pub settled : All (IsSettled parsed past) front

  -- Any commit is covered.
  abbrev pub InOrder : List Message → List Action → Action → Type 0
  InOrder log past (committed ks r) = IsCovered log past ks
  InOrder log past _ = Unit

  CommitsAll-of_quiet :
      (ms : List Message) (past : List Action) (a : Action) → IsQuiet past a → CommitsAll ms past a
  CommitsAll-of_quiet ms past (stored ts r) h = tt
  CommitsAll-of_quiet ms past (dead_lettered k r) h = tt
  CommitsAll-of_quiet ms past (committed ks r) h = absurd h

  InOrder-of_quiet :
      (log : List Message) (past : List Action) (a : Action) → IsQuiet past a → InOrder log past a
  InOrder-of_quiet log past (stored ts r) h = tt
  InOrder-of_quiet log past (dead_lettered k r) h = tt
  InOrder-of_quiet log past (committed ks r) h = absurd h

  pub Extends-CommitsAll :
      (ms : List Message) {past now : List Action}
      → Extends IsQuiet past now
      → Extends (CommitsAll ms) past now
  Extends-CommitsAll ms same = same
  Extends-CommitsAll ms (more {now = now} {a = a} p e) =
      more (CommitsAll-of_quiet ms now a p) (Extends-CommitsAll ms e)

  pub Extends-InOrder_quiet :
      (log : List Message) {past now : List Action}
      → Extends IsQuiet past now
      → Extends (InOrder log) past now
  Extends-InOrder_quiet log same = same
  Extends-InOrder_quiet log (more {now = now} {a = a} p e) =
      more (InOrder-of_quiet log now a p) (Extends-InOrder_quiet log e)

  module _ (log earlier ms after : List Message) (split : log ≡ earlier ++ ms ++ after) where
    covered :
        {past now : List Action} (a : Action)
        → All (IsSettled parsed past) earlier
        → Extends (CommitsAll ms) past now
        → CommitsAll ms now a
        → InOrder log now a
    covered (stored ts r) h e p = tt
    covered (dead_lettered k r) h e p = tt
    covered {now = now} (committed ks r) h e p = record {
      front = earlier ++ ms;
      rest = after;
      split = split;
      inside =
          subst (λ ks'. All (λ k. Has k (earlier ++ ms)) ks') (sym p.0)
            (All-mono ms (λ k i. Has-append_right k earlier ms i) (All-Has_self ms));
      settled =
          All-append (IsSettled parsed now) earlier ms (All-IsSettled-Extends parsed earlier e h)
            p.1;
    }

    -- Behind a settled part of the log, committing all of the messages that follow keeps the order.
    pub Extends-InOrder :
        {past now : List Action}
        → All (IsSettled parsed past) earlier
        → Extends (CommitsAll ms) past now
        → Extends (InOrder log) past now
    Extends-InOrder h same = same
    Extends-InOrder h (more {a = a} p e) = more (covered a h e p) (Extends-InOrder h e)
