-- ===== src/Kafka/Retries.antt =====
-- How often `processMessageWithRetries` calls the service.
use casino_transaction_syste.Prelude.{
  ℕ, zero, suc, ◌+◌, ◌≤◌, ◌==◌, Bool, true, false, Option, none, some, List, [], ◌∷◌, Result, ok,
  err, arith, subst, ◌≡◌, if◌then◌else◌,
}
use casino_transaction_syste.Prelude.Int.{ℤ, pos, negsuc, pos_part, leb_ℤ}
use casino_transaction_syste.Domain.{Transaction}
use casino_transaction_syste.Errors.{GoError}
use casino_transaction_syste.Boundary.{classify}
use casino_transaction_syste.Kafka.Message.{Message}
use casino_transaction_syste.Kafka.Consumer.State.{State, M, Action, stored, Wt, Wt-mono}
use casino_transaction_syste.Kafka.Consumer.Config.{Consumer, rounds, rounds_of, parsed}
use casino_transaction_syste.Kafka.Consumer.Backoff.{sleep_backoff}
use casino_transaction_syste.Kafka.Consumer.Process.{
  by_class, unless_done, judge, attempts, process_parsed, process_message,
}

-- The calls that store something, also those that failed.
abbrev pub stores : List Action → ℕ
stores [] = 0
stores (stored ts r ∷ past) = suc (stores past)
stores (_ ∷ past) = stores past

module _ {W : Type 0} (c : Consumer W) where
  -- At most n more such calls.
  abbrev pub AtMost : ℕ → State W → State W → Type 0
  AtMost n s s' = stores s'.trace ≤ stores s.trace + n

  module _ (again : M W (Option GoError)) (n : ℕ)
      (next : (s : State W) → Wt (again s) (λ _. AtMost n s)) where
    by_class-AtMost :
        (last : Bool) (attempt : ℕ) (e : GoError) (retryable : Bool) (s : State W)
        → Wt (by_class c again last attempt e retryable s) (λ _. AtMost n s)
    unfolding sleep_backoff
    by_class-AtMost last attempt e false s = omega arith
    by_class-AtMost true attempt e true s = omega arith
    by_class-AtMost false attempt e true s = next _

    unless_done-AtMost :
        (last : Bool) (attempt : ℕ) (e : GoError) (done : Option GoError) (s : State W)
        → Wt (unless_done c again last attempt e done s) (λ _. AtMost n s)
    unless_done-AtMost last attempt e (some d) s = omega arith
    unless_done-AtMost last attempt e none s =
        by_class-AtMost last attempt e (classify e).retryable s

    judge-AtMost :
        (last : Bool) (attempt : ℕ) (r : Option GoError) (s : State W)
        → Wt (judge c again last attempt r s) (λ _. AtMost n s)
    judge-AtMost last attempt none s = omega arith
    judge-AtMost last attempt (some e) s =
        unless_done-AtMost last attempt e (c.outside.app_err s.world) s

  attempts-AtMost :
      (left attempt : ℕ) (t : Transaction) (s : State W)
      → Wt (attempts c left attempt t s) (λ _. AtMost left s)
  unfolding attempts
  attempts-AtMost zero attempt t s = omega arith
  attempts-AtMost (suc left) attempt t s =
      let (r, w) = c.outside.register t s.world in
      let u : State W = record s { world = w; trace = stored (t ∷ []) r ∷ s.trace } in
      let again : M W (Option GoError) = attempts c left (attempt + 1) t in
      Wt-mono (judge c again (left == 0) attempt r u) (λ _ x h. omega arith)
        (judge-AtMost again left (λ v. attempts-AtMost left (attempt + 1) t v) (left == 0) attempt r
          u)

  process_parsed-AtMost :
      (r : Result GoError Transaction) (s : State W)
      → Wt (process_parsed c r s) (λ _. AtMost (rounds c) s)
  process_parsed-AtMost (err e) s = omega arith
  process_parsed-AtMost (ok t) s = attempts-AtMost (rounds c) 0 t s

  -- max_process_retries + 1, and 0 where that is negative.
  abbrev pub tries : ℕ
  tries =
      if leb_ℤ (pos 0) c.cfg.max_process_retries then pos_part c.cfg.max_process_retries + 1 else 0

  rounds-tries : rounds c ≡ tries
  rounds-tries = rounds_of-tries c.cfg.max_process_retries
    where
      rounds_of-tries : (n : ℤ) → rounds_of n ≡ (if leb_ℤ (pos 0) n then pos_part n + 1 else 0)
      rounds_of-tries (pos n) = ground arith
      rounds_of-tries (negsuc n) = ground arith

  -- `processMessageWithRetries` returns, whatever the calls answer, and calls the service at most
  -- max_process_retries + 1 times, or never where that number is negative.
  pub process_message-AtMost :
      (msg : Message) (s : State W) → Wt (process_message c msg s) (λ _. AtMost tries s)
  unfolding process_message
  process_message-AtMost msg s =
      subst (λ n. Wt (process_message c msg s) (λ _. AtMost n s)) rounds-tries
        (process_parsed-AtMost (parsed c msg) s)
