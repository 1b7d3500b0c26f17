-- ===== src/Kafka/System/Complete.antt =====
-- Where every message is that the fetch loop has fetched.
use casino_transaction_syste.Prelude.{
  ℕ, ◌<◌, ◌≡◌, sym, ap, ◌∙◌, Bool, true, none, List, [], ◌∷◌, ◌++◌, append-nil, append_assoc, arith,
  All, inl, inr,
}
use casino_transaction_syste.Prelude.Int.{IsInt64}
use casino_transaction_syste.Kafka.Message.{Message}
use casino_transaction_syste.Kafka.Settings.{IsUsable}
use casino_transaction_syste.Kafka.Outside.{IsLawful, IsPatient}
use casino_transaction_syste.Kafka.Fetch.{Place, fetching, sending, returned, Loop}
use casino_transaction_syste.Kafka.Fetch.Workers.{queue_of}
use casino_transaction_syste.Kafka.Fetch.Invariant.{only, only-append, Handed}
use casino_transaction_syste.Kafka.Fetch.Reachable.{Reach-IsOrderly}
use casino_transaction_syste.Kafka.Consumer.State.{State, Wt, Wt-mono}
use casino_transaction_syste.Kafka.Consumer.Config.{Consumer, parsed}
use casino_transaction_syste.Kafka.Consumer.Worker.{Input, partition_worker}
use casino_transaction_syste.Kafka.Termination.Serving.{partition_worker-Steady}
use casino_transaction_syste.Kafka.Trace.{IsSafe}
use casino_transaction_syste.Kafka.Delivery.Evolution.{IsSound}
use casino_transaction_syste.Kafka.Delivery.Flushing.{IsDone}
use casino_transaction_syste.Kafka.System.{System, begin, Reach}
use casino_transaction_syste.Kafka.System.Steps.{IsHarmless, IsHealthy, Reach-IsHealthy}

-- The message that waits at the `select`.
abbrev pub waiting : Place → List Message
waiting fetching = []
waiting (sending m) = m ∷ []
waiting (returned e) = []

-- What of a partition is not done yet: the batch of its worker, its channel, and the `select`.
abbrev pub pending : {W : Type 0} → System W → ℕ → List Message
pending s p = (s.buffers p).msgs ++ queue_of p s.loop.channels ++ only p (waiting s.loop.place)

module _ {W : Type 0} (c : Consumer W) where
  pub record Located (s : System W) (p : ℕ) : Type 0 where
    pub done : List Message
    pub split : only p s.loop.fetched ≡ done ++ pending s p
    pub all_done : All (IsDone c s.shared.trace) done

  pub record IsKept (from : State W) (s : System W) : Type 0 where
    pub safe : IsSafe (parsed c) s.shared.trace
    pub inflight : s.shared.inflight ≡ from.inflight
    -- whatever a worker receives next, it comes back to its `select` or ends
    pub returns :
        (is : List Input) (p : ℕ)
        → Wt (partition_worker c is (s.buffers p) s.shared) (λ _ _. Unit {0})
    pub located : c.outside.app_err s.shared.world ≡ none → (p : ℕ) → Located s p

fetched_of_Handed :
    (place : Place) (cancelled : Bool) (fetched sent : List Message)
    → ¬ (cancelled ≡ true)
    → Handed place cancelled fetched sent
    → fetched ≡ sent ++ waiting place
fetched_of_Handed fetching cancelled fetched sent up h = h ∙ sym (append-nil sent)
fetched_of_Handed (sending m) cancelled fetched sent up h = h
fetched_of_Handed (returned e) cancelled fetched sent up (inl h) = h ∙ sym (append-nil sent)
fetched_of_Handed (returned e) cancelled fetched sent up (inr (m, h, d)) = absurd (up d)

module _ {W : Type 0} (c : Consumer W) (law : IsLawful c.outside) (calm : IsPatient c.outside)
    (elsewhere : W → W → Type 0) (harmless : IsHarmless c calm.patience elsewhere)
    (usable : IsUsable c.cfg) where
  Located-of_IsHealthy :
      (from : State W) (s : System W)
      → IsHealthy c law calm from s
      → c.outside.app_err s.shared.world ≡ none
      → (p : ℕ) → Located c s p
  Located-of_IsHealthy from s h up p =
      let l : Loop = s.loop in
      let o = Reach-IsOrderly h.reached in
      let a = h.complete up p in
      let all =
        fetched_of_Handed l.place l.cancelled l.fetched l.sent (λ d. h.sighted d up) o.handed in
      record {
        done = a.done;
        split =
            ap (only p) all
            ∙ only-append p l.sent (waiting l.place)
            ∙ ap (λ ms. ms ++ only p (waiting l.place))
                (o.streams p ∙ ap (λ ms. ms ++ queue_of p l.channels) a.split)
            ∙ simp append_assoc;
        all_done = a.all_done;
      }

  -- In every state that the loop and the workers of Start reach together, for lawful calls, a usable
  -- configuration, a harmless outside, fewer failures to come than fuel, an inflight counter that is an int64, and a
  -- beginning whose commits were of settled messages and whose fatal error, if any, came with a
  -- cancelled context: every commit was of settled messages; the inflight counter is what it was; a
  -- worker comes back from whatever it receives; and unless the context is cancelled, the messages
  -- fetched of each partition are, in order, messages that are settled with their commits accepted,
  -- then the batch of its worker, its channel, and the message that waits at the `select`.
  pub Reach-IsKept :
      (from : State W) (s : System W)
      → calm.patience from.world < c.fuel
      → IsInt64 from.inflight
      → IsSafe (parsed c) from.trace
      → IsSound c from
      → Reach c elsewhere (begin from) s
      → IsKept c from s
  Reach-IsKept from s fuel range safe sound reach =
      let h = Reach-IsHealthy c law calm harmless usable fuel range safe sound reach in
      record {
        safe = h.safe;
        inflight = h.inflight;
        returns = λ is p.
            Wt-mono (partition_worker c is (s.buffers p) s.shared) (λ _ _ _. tt)
              ((partition_worker-Steady c calm is (s.buffers p)).at s.shared
                (omega (arith, h.calmer, fuel)));
        located = Located-of_IsHealthy from s h;
      }
