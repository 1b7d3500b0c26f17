-- ===== src/Kafka/Keeping.antt =====
-- A property of the world and the trace that every call of the outside keeps, and that the methods of the
-- consumer keep with them; one rule for each way to build an action.
pub mod Methods
pub mod DeadLetters
pub mod Batches
use casino_transaction_syste.Prelude.{ℕ, ◌≡◌, Option, none, some, List, [], ◌∷◌, ◌++◌, Bytes}
use casino_transaction_syste.Prelude.Int.{ℤ}
use casino_transaction_syste.Domain.{Transaction}
use casino_transaction_syste.Errors.{GoError}
use casino_transaction_syste.Kafka.Message.{Message}
use casino_transaction_syste.Kafka.Outside.{Outside}
use casino_transaction_syste.Kafka.Consumer.State.{
  State, M, Action, stored, dead_lettered, committed, Metric, ◌>>=◌, pure, out_of_fuel, call, ask,
  emit, move, add_inflight, Wp, Wp-mono, Wp-continue,
}

module _ {W : Type 0} (P : W → List Action → Type 0) where
  pub record Keeps {A : Type 0} (m : M W A) : Type 0 where
    pub at : (s : State W) → P s.world s.trace → Wp (m s) (λ _ u. P u.world u.trace)

  -- Every call keeps the property, with what it puts on the trace.
  pub record IsKept (o : Outside W) : Type 0 where
    pub register :
        (t : Transaction) (w : W) (past : List Action)
        → P w past
        → P (o.register t w).1 (stored (t ∷ []) (o.register t w).0 ∷ past)
    pub register_all :
        (ts : List Transaction) (w : W) (past : List Action)
        → P w past
        → P (o.register_all ts w).1 (stored ts (o.register_all ts w).0 ∷ past)
    pub write_messages :
        (m : Message) (k v : Bytes) (w : W) (past : List Action)
        → P w past
        → P (o.write_messages k v w).1 (dead_lettered m (o.write_messages k v w).0 ∷ past)
    pub commit_messages :
        (ms : List Message) (w : W) (past : List Action)
        → P w past
        → P (o.commit_messages ms w).1 (committed ms (o.commit_messages ms w).0 ∷ past)
    pub cancel : (w : W) (past : List Action) → P w past → P (o.cancel w) past
    pub now : (w : W) (past : List Action) → P w past → P (o.now w).1 past
    pub random : (n : ℕ) (w : W) (past : List Action) → P w past → P (o.random n w).1 past
    pub sleep : (d : ℤ) (w : W) (past : List Action) → P w past → P (o.sleep d w) past
    pub wait : (w : W) (past : List Action) → P w past → P (o.wait w) past

module _ {W : Type 0} {P : W → List Action → Type 0} where
  pub Keeps-emit : (m : Metric) → Keeps P (emit m)
  Keeps-emit m = record { at = λ s h. h }

  pub Keeps-add_inflight : (k : ℤ) → Keeps P (add_inflight k)
  Keeps-add_inflight k = record { at = λ s h. h }

  pub Keeps-move :
      (f : W → W) → ((w : W) (past : List Action) → P w past → P (f w) past) → Keeps P (move f)
  Keeps-move f h = record { at = λ s k. h s.world s.trace k }

module _ {W A : Type 0} {P : W → List Action → Type 0} where
  pub Keeps-pure : (a : A) → Keeps P (pure a)
  Keeps-pure a = record { at = λ s h. h }

  pub Keeps-out_of_fuel : Keeps P (out_of_fuel {W = W} {A = A})
  Keeps-out_of_fuel = record { at = λ s h. tt }

  pub Keeps-ask : (f : W → A) → Keeps P (ask f)
  Keeps-ask f = record { at = λ s h. h }

  pub Keeps-call :
      (f : W → A × W) (seen : A → List Action)
      → ((w : W) (past : List Action) → P w past → P (f w).1 (seen (f w).0 ++ past))
      → Keeps P (call f seen)
  Keeps-call f seen h = record { at = λ s k. h s.world s.trace k }

module _ {W A B : Type 0} {P : W → List Action → Type 0} where
  pub Keeps-bind :
      (m : M W A) (f : A → M W B) → Keeps P m → ((a : A) → Keeps P (f a)) → Keeps P (m >>= f)
  Keeps-bind m f h k = record {
    at = λ s p.
        Wp-continue (m s) f (λ _ u. P u.world u.trace)
          (Wp-mono (m s) (λ a u q. (k a).at u q) (h.at s p));
  }
