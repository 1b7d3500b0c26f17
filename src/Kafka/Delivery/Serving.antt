-- ===== src/Kafka/Delivery/Serving.antt =====
-- What a partition worker has done with the messages that it took, and how the parts add up.
use mathlib.Core.Path.{◌≡⟨◌⟩◌, ◌∎}
use casino_transaction_syste.Prelude.{
  ◌≡◌, refl, sym, ap, ◌∙◌, none, List, [], ◌∷◌, ◌++◌, append-nil, append_assoc, ok, All, All-append,
}
use casino_transaction_syste.Domain.{Transaction}
use casino_transaction_syste.Kafka.Message.{Message}
use casino_transaction_syste.Kafka.Consumer.State.{State}
use casino_transaction_syste.Kafka.Consumer.Config.{Consumer, parsed}
use casino_transaction_syste.Kafka.Consumer.Worker.{
  Input, received, closed, ticked, Buffer, no_messages, append,
}
use casino_transaction_syste.Kafka.Trace.{IsSafe, Anything}
use casino_transaction_syste.Kafka.Trace.Order.{InOrder, Extends-InOrder}
use casino_transaction_syste.Kafka.Trace.{
  IsSettled, Extends, Extends-trans, same, All-IsSettled-Extends,
}
use casino_transaction_syste.Kafka.Consumer.State.{Action}
use casino_transaction_syste.Kafka.Delivery.Evolution.{
  Evolves-weaken, IsSound, Evolves, Evolves-refl, Evolves-trans,
}
use casino_transaction_syste.Kafka.Delivery.Committing.{Handled}
use casino_transaction_syste.Kafka.Delivery.Flushing.{
  Decodes, IsDone, Flushed, All-IsDone-Extends, not_cancelled_before,
}

-- The messages that a worker receives before its channel is closed.
abbrev pub taken : List Input → List Message
taken [] = []
taken (closed ∷ is) = []
taken (ticked ∷ is) = taken is
taken (received msg ∷ is) = msg ∷ taken is

module _ {W : Type 0} (c : Consumer W) where
  -- The buffered transactions are those of the buffered messages.
  abbrev pub IsDecoded : Buffer → Type 0
  IsDecoded b = Decodes c b.msgs b.domains

  -- All messages, those of the old buffer and the new ones, are done or in the buffer, in order.
  pub record Accounted (old new left : List Message) (s' : State W) : Type 0 where
    pub done : List Message
    pub split : old ++ new ≡ done ++ left
    pub all_done : All (IsDone c s'.trace) done

  -- What a worker that began at `s` has done with the new messages.
  pub record Served (s : State W) (b : Buffer) (new : List Message) (b' : Buffer) (s' : State W)
      : Type 0 where
    pub evolves : Evolves c Anything s s'
    pub safe : IsSafe (parsed c) s.trace → IsSafe (parsed c) s'.trace
    pub decoded : IsDecoded b'
    pub complete : IsSound c s → c.outside.app_err s'.world ≡ none → Accounted b.msgs new b'.msgs s'
    -- behind a part of the log that is settled, the commits are in order
    pub ordered :
        (log earlier after : List Message)
        → log ≡ earlier ++ (b.msgs ++ new) ++ after
        → All (IsSettled (parsed c) s.trace) earlier
        → IsSound c s
        → c.outside.app_err s'.world ≡ none
        → Extends (InOrder (parsed c) log) s.trace s'.trace

  pub Accounted-trans :
      {u v : State W} (a b d m n : List Message)
      → Evolves c Anything u v
      → Accounted a m b u
      → Accounted b n d v
      → Accounted a (m ++ n) d v
  Accounted-trans {v = v} a b d m n ev x y = record {
    done = x.done ++ y.done;
    split =
        sym (append_assoc a m n)
        ∙ ap (λ l. l ++ n) x.split
        ∙ append_assoc x.done b n
        ∙ ap (λ l. x.done ++ l) y.split
        ∙ sym (append_assoc x.done y.done d);
    all_done =
        All-append (IsDone c v.trace) x.done y.done
          (All-IsDone-Extends c x.done ev.extends x.all_done) y.all_done;
  }

  regroup :
      (earlier a m n after done left : List Message)
      → a ++ m ≡ done ++ left
      → earlier ++ (a ++ (m ++ n)) ++ after ≡ (earlier ++ done) ++ (left ++ n) ++ after
  regroup earlier a m n after done left h =
      earlier ++ (a ++ (m ++ n)) ++ after
      ≡⟨ (simp append_assoc) ⟩ earlier ++ ((a ++ m) ++ (n ++ after))
      ≡⟨ ap (λ l. earlier ++ (l ++ (n ++ after))) h ⟩ earlier ++ ((done ++ left) ++ (n ++ after))
      ≡⟨ (simp append_assoc) ⟩ (earlier ++ done) ++ (left ++ n) ++ after ∎

  All-IsSettled_of_done :
      (past : List Action) (ms : List Message)
      → All (IsDone c past) ms
      → All (IsSettled (parsed c) past) ms
  All-IsSettled_of_done past [] h = tt
  All-IsSettled_of_done past (m ∷ ms) h = (h.0.0, All-IsSettled_of_done past ms h.1)

  pub Served-trans :
      {s u v : State W} {b b' b'' : Buffer} (m n : List Message)
      → Served s b m b' u
      → Served u b' n b'' v
      → Served s b (m ++ n) b'' v
  Served-trans {u = u} {b = b} {b' = b'} {b'' = b''} m n x y = record {
    evolves = Evolves-trans x.evolves y.evolves;
    safe = λ h. y.safe (x.safe h);
    decoded = y.decoded;
    complete = λ sound up.
        Accounted-trans b.msgs b'.msgs b''.msgs m n y.evolves
          (x.complete sound (not_cancelled_before c y.evolves up))
          (y.complete (x.evolves.sound sound) up);
    ordered = λ log earlier after split settled sound up.
        let x' = x.complete sound (not_cancelled_before c y.evolves up) in
        let first : log ≡ earlier ++ (b.msgs ++ m) ++ (n ++ after) = split ∙ simp append_assoc in
        let next : log ≡ (earlier ++ x'.done) ++ (b'.msgs ++ n) ++ after =
          split ∙ regroup earlier b.msgs m n after x'.done b'.msgs x'.split in
        Extends-trans
          (x.ordered log earlier (n ++ after) first settled sound
            (not_cancelled_before c y.evolves up))
          (y.ordered log (earlier ++ x'.done) after next
            (All-append (IsSettled (parsed c) u.trace) earlier x'.done
              (All-IsSettled-Extends (parsed c) earlier x.evolves.extends settled)
              (All-IsSettled_of_done u.trace x'.done x'.all_done))
            (x.evolves.sound sound) up);
  }

  pub Served-idle : (s : State W) (b : Buffer) → IsDecoded b → Served s b [] b s
  Served-idle s b h = record {
    evolves = Evolves-refl s;
    safe = λ k. k;
    decoded = h;
    complete = λ sound up. record { done = []; split = append-nil b.msgs; all_done = tt };
    ordered = λ log earlier after split settled sound up. same;
  }

  pub Served-of_Flushed :
      {s u : State W} (b : Buffer) → Flushed c s b.msgs u → Served s b [] no_messages u
  Served-of_Flushed b f = record {
    evolves = f.evolves;
    safe = f.safe;
    decoded = tt;
    complete = λ sound up. record { done = b.msgs; split = refl; all_done = f.complete sound up };
    ordered = λ log earlier after split settled sound up.
        f.ordered log earlier after (split ∙ simp append-nil) settled sound up;
  }

  pub Served-of_Handled :
      {s u : State W} (msg : Message)
      → Handled c s msg u
      → Served s no_messages (msg ∷ []) no_messages u
  Served-of_Handled msg h = record {
    evolves = Evolves-weaken h.evolves;
    safe = h.safe;
    decoded = tt;
    complete =
        λ sound up. record { done = msg ∷ []; split = refl; all_done = (h.complete sound up, tt) };
    ordered = λ log earlier after split settled sound up.
        Extends-InOrder (parsed c) log earlier (msg ∷ []) after split settled h.evolves.extends;
  }

  Decodes-append :
      (b : Buffer) (msg : Message) (t : Transaction)
      → IsDecoded b
      → parsed c msg ≡ ok t
      → IsDecoded (append b msg t)
  Decodes-append b msg t h p = go b.msgs b.domains h
    where
      go :
          (ms : List Message) (ts : List Transaction)
          → Decodes c ms ts
          → Decodes c (ms ++ msg ∷ []) (ts ++ t ∷ [])
      go [] [] d = (p, tt)
      go [] (x ∷ ts) d = absurd d
      go (m ∷ ms) [] d = absurd d
      go (m ∷ ms) (x ∷ ts) d = (d.0, go ms ts d.1)

  -- A valid message has joined the buffer.
  pub Served-appended :
      (s : State W) (b : Buffer) (msg : Message) (t : Transaction)
      → IsDecoded b
      → parsed c msg ≡ ok t
      → Served s b (msg ∷ []) (append b msg t) s
  Served-appended s b msg t h p = record {
    evolves = Evolves-refl s;
    safe = λ k. k;
    decoded = Decodes-append b msg t h p;
    complete = λ sound up. record { done = []; split = refl; all_done = tt };
    ordered = λ log earlier after split settled sound up. same;
  }
