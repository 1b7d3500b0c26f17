-- ===== src/Kafka/Delivery/Flushing.antt =====
-- The messages of `flushBatch`, one by one.
use casino_transaction_syste.Prelude.{
  ◌++◌, ◌∙◌, append_assoc, All-append, ◌≤◌, ◌≡◌, refl, sym, subst, inl, inr, none, List, [], ◌∷◌,
  ok, All, Option-cases,
}
use casino_transaction_syste.Prelude.Int.{pos, sub_ℕ, IsInt64, ◌+ℤ◌, add_sub_cancel}
use casino_transaction_syste.Domain.{Transaction}
use casino_transaction_syste.Kafka.Message.{Message}
use casino_transaction_syste.Kafka.Outside.{IsLawful}
use casino_transaction_syste.Kafka.Consumer.State.{
  State, Action, ◌>>=◌, pure, Wp, Wp-mono, Wp-continue, add_inflight,
}
use casino_transaction_syste.Kafka.Consumer.Config.{Consumer, rounds, parsed}
use casino_transaction_syste.Kafka.Consumer.Handle.{handle_message}
use casino_transaction_syste.Kafka.Consumer.Batch.{counted, one_by_one}
use casino_transaction_syste.Kafka.Trace.Order.{InOrder, Extends-InOrder}
use casino_transaction_syste.Kafka.Trace.{
  same, Extends-trans, All-IsSettled-Extends, Has, IsStored, IsSettled, IsSafe, IsCommitted,
  Extends, Anything, IsSettled-Extends, IsCommitted-Extends,
}
use casino_transaction_syste.Kafka.Delivery.Evolution.{
  IsSound, Evolves, Evolves-refl, Evolves-trans, Evolves-weaken, Evolves-bracket,
}
use casino_transaction_syste.Kafka.Delivery.Committing.{Handled}
use casino_transaction_syste.Kafka.Delivery.Handling.{handle_message-Handled}

module _ {W : Type 0} (c : Consumer W) where
  -- The transactions are those of the messages, in order.
  abbrev pub Decodes : List Message → List Transaction → Type 0
  Decodes [] [] = Unit
  Decodes (m ∷ ms) (t ∷ ts) = (parsed c m ≡ ok t) × Decodes ms ts
  Decodes _ _ = ⊥

  -- A message that needs no more work.
  abbrev pub IsDone : List Action → Message → Type 0
  IsDone trace m = IsSettled (parsed c) trace m × IsCommitted m trace

  -- What the handling of some messages that began at `s` has done.
  pub record Flushed (s : State W) (msgs : List Message) (s' : State W) : Type 0 where
    pub evolves : Evolves c Anything s s'
    pub safe : IsSafe (parsed c) s.trace → IsSafe (parsed c) s'.trace
    pub complete : IsSound c s → c.outside.app_err s'.world ≡ none → All (IsDone s'.trace) msgs
    -- behind a part of the log that is settled, the commits are in order
    pub ordered :
        (log earlier after : List Message)
        → log ≡ earlier ++ msgs ++ after
        → All (IsSettled (parsed c) s.trace) earlier
        → IsSound c s
        → c.outside.app_err s'.world ≡ none
        → Extends (InOrder (parsed c) log) s.trace s'.trace

  pub IsDone-Extends :
      {P : List Action → Action → Type 0} {past now : List Action} (m : Message)
      → Extends P past now
      → IsDone past m
      → IsDone now m
  IsDone-Extends m e h = (IsSettled-Extends (parsed c) m e h.0, IsCommitted-Extends m e h.1)

  pub All-IsDone-Extends :
      {P : List Action → Action → Type 0} {past now : List Action} (ms : List Message)
      → Extends P past now
      → All (IsDone past) ms
      → All (IsDone now) ms
  All-IsDone-Extends [] e h = tt
  All-IsDone-Extends (m ∷ ms) e h = (IsDone-Extends m e h.0, All-IsDone-Extends ms e h.1)

  pub IsSettled-of_stored :
      (past : List Action) (ms : List Message) (ts : List Transaction)
      → Decodes ms ts
      → ((t : Transaction) → Has t ts → IsStored t past)
      → All (IsSettled (parsed c) past) ms
  IsSettled-of_stored past [] [] d h = tt
  IsSettled-of_stored past [] (t ∷ ts) d h = absurd d
  IsSettled-of_stored past (m ∷ ms) [] d h = absurd d
  IsSettled-of_stored past (m ∷ ms) (t ∷ ts) d h =
      (inl (t, d.0, h t (inl refl)), IsSettled-of_stored past ms ts d.1 (λ x k. h x (inr k)))

  pub IsDone-of_parts :
      (past : List Action) (ms : List Message)
      → All (IsSettled (parsed c) past) ms
      → ((m : Message) → Has m ms → IsCommitted m past)
      → All (IsDone past) ms
  IsDone-of_parts past [] h k = tt
  IsDone-of_parts past (m ∷ ms) h k =
      ((h.0, k m (inl refl)), IsDone-of_parts past ms h.1 (λ x j. k x (inr j)))

  -- A context that is not cancelled now was not cancelled before.
  pub not_cancelled_before :
      {P : List Action → Action → Type 0} {s s' : State W}
      → Evolves c P s s'
      → c.outside.app_err s'.world ≡ none
      → c.outside.app_err s.world ≡ none
  not_cancelled_before {s = s} ev up = elim (Option-cases (c.outside.app_err s.world)) [
    | inl e ↦ e
    | inr (d, e) ↦ absurd (ev.stays (λ p. cc) up)
  ]

module _ {W : Type 0} (c : Consumer W) where
  Handled-InOrder :
      (msg : Message) (msgs : List Message) (s u v : State W)
      → Handled c s msg u
      → Flushed c u msgs v
      → (log earlier after : List Message) → log ≡ earlier ++ (msg ∷ msgs) ++ after
      → All (IsSettled (parsed c) s.trace) earlier
      → IsSound c s
      → c.outside.app_err v.world ≡ none
      → Extends (InOrder (parsed c) log) s.trace v.trace
  Handled-InOrder msg msgs s u v h f log earlier after split settled sound up =
      let done = h.complete sound (not_cancelled_before c f.evolves up) in
      let first : log ≡ earlier ++ msg ∷ [] ++ (msgs ++ after) = split ∙ simp append_assoc in
      let next : log ≡ (earlier ++ msg ∷ []) ++ msgs ++ after = split ∙ simp append_assoc in
      Extends-trans
        (Extends-InOrder (parsed c) log earlier (msg ∷ []) (msgs ++ after) first settled
          h.evolves.extends)
        (f.ordered log (earlier ++ msg ∷ []) after next
          (All-append (IsSettled (parsed c) u.trace) earlier (msg ∷ [])
            (All-IsSettled-Extends (parsed c) earlier h.evolves.extends settled) (done.0, tt))
          (h.evolves.sound sound) up)

module _ {W : Type 0} (c : Consumer W) (law : IsLawful c.outside) (some_round : 1 ≤ rounds c) where
  counted-Handled :
      (msg : Message) (s : State W)
      → IsInt64 s.inflight
      → Wp (counted c (handle_message c msg) s) (λ _. Handled c s msg)
  counted-Handled msg s range =
      let s' : State W = record s { inflight = s.inflight +ℤ pos 1 } in
      Wp-continue (handle_message c msg s') (λ _. add_inflight (sub_ℕ 0 1) >>= λ _. pure tt)
        (λ _. Handled c s msg)
        (Wp-mono (handle_message c msg s')
          (λ _ u h. record {
            evolves =
                Evolves-bracket s u (pos 1) (sub_ℕ 0 1) (add_sub_cancel s.inflight 1 range)
                  h.evolves;
            safe = h.safe;
            complete = h.complete;
          })
          (handle_message-Handled c law msg s' some_round))

  pub one_by_one-Flushed :
      (msgs : List Message) (s : State W)
      → IsInt64 s.inflight
      → Wp (one_by_one c msgs s) (λ _. Flushed c s msgs)
  unfolding one_by_one
  one_by_one-Flushed [] s range = record {
    evolves = Evolves-refl s;
    safe = λ h. h;
    complete = λ sound up. tt;
    ordered = λ log earlier after split settled sound up. same;
  }
  one_by_one-Flushed (msg ∷ msgs) s range =
      Wp-continue (counted c (handle_message c msg) s) (λ _. one_by_one c msgs)
        (λ _. Flushed c s (msg ∷ msgs))
        (Wp-mono (counted c (handle_message c msg) s)
          (λ _ u h.
            Wp-mono (one_by_one c msgs u)
              (λ _ v f. record {
                evolves = Evolves-trans (Evolves-weaken h.evolves) f.evolves;
                safe = λ k. f.safe (h.safe k);
                complete = λ sound up. (
                  IsDone-Extends c msg f.evolves.extends
                      (h.complete sound (not_cancelled_before c f.evolves up)),
                  f.complete (h.evolves.sound sound) up,
                );
                ordered = λ log earlier after split settled sound up.
                    Handled-InOrder c msg msgs s u v h f log earlier after split settled sound up;
              })
              (one_by_one-Flushed msgs u (subst IsInt64 (sym h.evolves.inflight) range)))
          (counted-Handled msg s range))
