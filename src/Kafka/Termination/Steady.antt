-- ===== src/Kafka/Termination/Steady.antt =====
-- An action that returns from every state with less than so many failures to come, and leaves no more
-- of them; one rule for each way to build an action.
use native.Mathlib.Nat.{le_trans}
use casino_transaction_syste.Prelude.{ℕ, suc, ◌≤◌, ◌<◌, Option, none, some, List, arith}
use casino_transaction_syste.Prelude.Int.{ℤ}
use casino_transaction_syste.Errors.{GoError}
use casino_transaction_syste.Kafka.Consumer.State.{
  State, M, Action, Metric, ◌>>=◌, pure, call, ask, emit, move, add_inflight, Wt, Wt-mono,
  Wt-continue,
}

module _ {W : Type 0} (patience : W → ℕ) where
  pub record Steady {A : Type 0} (n : ℕ) (m : M W A) : Type 0 where
    pub at :
        (s : State W) → patience s.world < n → Wt (m s) (λ _ u. patience u.world ≤ patience s.world)

module _ {W : Type 0} {patience : W → ℕ} {n : ℕ} where
  pub Steady-emit : (m : Metric) → Steady patience n (emit m)
  Steady-emit m = record { at = λ s h. omega arith }

  pub Steady-add_inflight : (k : ℤ) → Steady patience n (add_inflight k)
  Steady-add_inflight k = record { at = λ s h. omega arith }

  pub Steady-move :
      (f : W → W) → ((w : W) → patience (f w) ≤ patience w) → Steady patience n (move f)
  Steady-move f h = record { at = λ s k. h s.world }

module _ {W A : Type 0} {patience : W → ℕ} {n : ℕ} where
  pub Steady-pure : (a : A) → Steady patience n (pure a)
  Steady-pure a = record { at = λ s h. omega arith }

  pub Steady-ask : (f : W → A) → Steady patience n (ask f)
  Steady-ask f = record { at = λ s h. omega arith }

  pub Steady-call :
      (f : W → A × W) (seen : A → List Action)
      → ((w : W) → patience (f w).1 ≤ patience w)
      → Steady patience n (call f seen)
  Steady-call f seen h = record { at = λ s k. h s.world }

module _ {W A B : Type 0} {patience : W → ℕ} {n : ℕ} where
  pub Steady-bind :
      (m : M W A) (f : A → M W B)
      → Steady patience n m
      → ((a : A) → Steady patience n (f a))
      → Steady patience n (m >>= f)
  Steady-bind m f h k = record {
    at = λ s p.
        Wt-continue (m s) f (λ _ u. patience u.world ≤ patience s.world)
          (Wt-mono (m s)
            (λ a u q. Wt-mono (f a u) (λ b v r. le_trans r q) ((k a).at u (omega arith)))
            (h.at s p));
  }

-- A call that can fail only so often: each error that it returns uses up one failure.
module _ {W : Type 0} (patience : W → ℕ) where
  abbrev pub Spends : Option GoError → ℕ → ℕ → Type 0
  Spends none now before = now ≤ before
  Spends (some e) now before = now < before

  pub record Limited (m : M W (Option GoError)) : Type 0 where
    pub at : (s : State W) → Wt (m s) (λ r u. Spends r (patience u.world) (patience s.world))

module _ {W B : Type 0} {patience : W → ℕ} {n : ℕ} where
  -- One round of a loop that starts again after an error, with one failure less to come.
  pub Steady-round :
      (m : M W (Option GoError)) (f : Option GoError → M W B)
      → Limited patience m
      → Steady patience (suc n) (f none)
      → ((e : GoError) → Steady patience n (f (some e)))
      → Steady patience (suc n) (m >>= f)
  Steady-round m f h k l = record {
    at = λ s p.
        Wt-continue (m s) f (λ _ u. patience u.world ≤ patience s.world)
          (Wt-mono (m s) (λ r u q. after s p r u q) (h.at s));
  }
    where
      after :
          (s : State W)
          → patience s.world < suc n
          → (r : Option GoError) (u : State W)
          → Spends patience r (patience u.world) (patience s.world)
          → Wt (f r u) (λ _ v. patience v.world ≤ patience s.world)
      after s p none u q = Wt-mono (f none u) (λ b v i. le_trans i q) (k.at u (omega arith))
      after s p (some e) u q =
          Wt-mono (f (some e) u) (λ b v i. omega arith) ((l e).at u (omega arith))

module _ {W : Type 0} {patience : W → ℕ} {n : ℕ} where
  pub Steady-Limited : (m : M W (Option GoError)) → Limited patience m → Steady patience n m
  Steady-Limited m h = record { at = λ s p. Wt-mono (m s) (λ r u q. weaken s r u q) (h.at s) }
    where
      weaken :
          (s : State W) (r : Option GoError) (u : State W)
          → Spends patience r (patience u.world) (patience s.world)
          → patience u.world ≤ patience s.world
      weaken s none u q = q
      weaken s (some e) u q = omega arith

pub ruleset steady_rules = (
  Steady-emit, Steady-add_inflight, Steady-move, Steady-pure, Steady-ask, Steady-call, Steady-bind,
)
