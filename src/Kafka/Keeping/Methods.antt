-- ===== src/Kafka/Keeping/Methods.antt =====
-- The calls of the outside, the tries of `processMessageWithRetries` and the loop over a commit.
use casino_transaction_syste.Prelude.{
  ℕ, zero, suc, ◌+◌, ◌==◌, Bool, true, false, Option, none, some, List, [], ◌∷◌, Result, ok, err,
}
use casino_transaction_syste.Prelude.Int.{pos, pos_part, ◌*ℤ◌}
use casino_transaction_syste.TimeUtil.{Time}
use casino_transaction_syste.Domain.{Transaction}
use casino_transaction_syste.Errors.{GoError}
use casino_transaction_syste.Boundary.{classify}
use casino_transaction_syste.Kafka.Message.{Message}
use casino_transaction_syste.Kafka.Consumer.State.{
  M, Action, Metric, committed, ◌>>=◌, ◌>>◌, call, emit, move,
}
use casino_transaction_syste.Kafka.Consumer.Config.{Consumer, rounds, parsed, app_err, now, random}
use casino_transaction_syste.Kafka.Consumer.Backoff.{delay, sleep_backoff, pause_with_jitter}
use casino_transaction_syste.Kafka.Consumer.Process.{
  register, by_class, unless_done, judge, attempts, process_parsed, process_message,
}
use casino_transaction_syste.Kafka.Consumer.Handle.{
  count_commit, commit, commit_unless_done, commit_judge, commit_loop,
}
use casino_transaction_syste.Kafka.Keeping.{
  Keeps, IsKept, Keeps-emit, Keeps-move, Keeps-pure, Keeps-out_of_fuel, Keeps-ask, Keeps-bind,
}

module _ {W : Type 0} (c : Consumer W) (P : W → List Action → Type 0)
    (kept : IsKept P c.outside) where
  pub now-Keeps : Keeps P (now c)
  now-Keeps = record { at = λ s h. kept.now s.world s.trace h }

  random-Keeps : (n : ℕ) → Keeps P (random c n)
  random-Keeps n = record { at = λ s h. kept.random n s.world s.trace h }

  pub sleep_backoff-Keeps : (attempt : ℕ) → Keeps P (sleep_backoff c attempt)
  unfolding sleep_backoff
  sleep_backoff-Keeps attempt =
      let base : ℕ = pos_part c.cfg.retry_base_delay_ms in
      Keeps-bind (random c (pos_part (c.cfg.retry_jitter_ms *ℤ pos 1000000)))
        (λ jitter. move (c.outside.sleep (delay c.outside.beyond_int64 base attempt jitter)))
        (random-Keeps _) (λ jitter. Keeps-move _ (kept.sleep _))

  pub pause_with_jitter-Keeps : Keeps P (pause_with_jitter c)
  unfolding pause_with_jitter
  pause_with_jitter-Keeps = sleep_backoff-Keeps 0

  pub emit_then : {A : Type 0} (x : Metric) (m : M W A) → Keeps P m → Keeps P (emit x >> m)
  emit_then x m h = Keeps-bind (emit x) (λ _. m) (Keeps-emit x) (λ _. h)

  pub now_then :
      {A : Type 0} (f : Time → M W A) → ((t : Time) → Keeps P (f t)) → Keeps P (now c >>= f)
  now_then f h = Keeps-bind (now c) f now-Keeps h

  pub asked_then :
      {A : Type 0} (f : Option GoError → M W A)
      → ((done : Option GoError) → Keeps P (f done))
      → Keeps P (app_err c >>= f)
  asked_then f h = Keeps-bind (app_err c) f (Keeps-ask c.outside.app_err) h

  pub paused_then : {A : Type 0} (m : M W A) → Keeps P m → Keeps P (pause_with_jitter c >> m)
  paused_then m h = Keeps-bind (pause_with_jitter c) (λ _. m) pause_with_jitter-Keeps (λ _. h)

  -- The tries of `processMessageWithRetries`.
  register-Keeps : (t : Transaction) → Keeps P (register c t)
  register-Keeps t = record { at = λ s h. kept.register t s.world s.trace h }

  module _ (again : M W (Option GoError)) (h : Keeps P again) where
    by_class-Keeps :
        (last : Bool) (attempt : ℕ) (e : GoError) (retryable : Bool)
        → Keeps P (by_class c again last attempt e retryable)
    by_class-Keeps last attempt e false = Keeps-pure _
    by_class-Keeps true attempt e true = Keeps-pure _
    by_class-Keeps false attempt e true = emit_then _ _ (
        emit_then _ _ (
          Keeps-bind (sleep_backoff c attempt) (λ _. again) (sleep_backoff-Keeps attempt) (λ _. h)))

    unless_done-Keeps :
        (last : Bool) (attempt : ℕ) (e : GoError) (done : Option GoError)
        → Keeps P (unless_done c again last attempt e done)
    unless_done-Keeps last attempt e (some d) = Keeps-pure _
    unless_done-Keeps last attempt e none = by_class-Keeps last attempt e (classify e).retryable

    judge-Keeps :
        (last : Bool) (attempt : ℕ) (r : Option GoError) → Keeps P (judge c again last attempt r)
    judge-Keeps last attempt none = Keeps-pure _
    judge-Keeps last attempt (some e) =
        asked_then (unless_done c again last attempt e) (unless_done-Keeps last attempt e)

  attempts-Keeps : (left attempt : ℕ) (t : Transaction) → Keeps P (attempts c left attempt t)
  unfolding attempts
  attempts-Keeps zero attempt t = Keeps-pure _
  attempts-Keeps (suc left) attempt t =
      let again : M W (Option GoError) = attempts c left (attempt + 1) t in
      Keeps-bind (register c t) (λ r. judge c again (left == 0) attempt r) (register-Keeps t)
        (judge-Keeps again (attempts-Keeps left (attempt + 1) t) (left == 0) attempt)

  pub process_message-Keeps : (msg : Message) → Keeps P (process_message c msg)
  unfolding process_message
  process_message-Keeps msg = by_result (parsed c msg)
    where
      by_result : (r : Result GoError Transaction) → Keeps P (process_parsed c r)
      by_result (err e) = Keeps-pure _
      by_result (ok t) = attempts-Keeps (rounds c) 0 t

  -- The commit of one message.
  commit-Keeps : (msg : Message) → Keeps P (commit c msg)
  unfolding commit
  commit-Keeps msg =
      Keeps-bind (call (c.outside.commit_messages (msg ∷ [])) (λ r. committed (msg ∷ []) r ∷ []))
        (count_commit c) (record { at = λ s h. kept.commit_messages (msg ∷ []) s.world s.trace h })
        by_result
    where
      by_result : (r : Option GoError) → Keeps P (count_commit c r)
      by_result none = emit_then _ _ (Keeps-pure _)
      by_result (some e) = emit_then _ _ (Keeps-pure _)

  module _ (again : M W (Unit {0})) (h : Keeps P again) where
    commit_unless_done-Keeps : (done : Option GoError) → Keeps P (commit_unless_done c again done)
    commit_unless_done-Keeps (some d) = Keeps-pure _
    commit_unless_done-Keeps none = paused_then _ h

    commit_judge-Keeps : (r : Option GoError) → Keeps P (commit_judge c again r)
    commit_judge-Keeps none = Keeps-pure _
    commit_judge-Keeps (some e) = asked_then (commit_unless_done c again) commit_unless_done-Keeps

  pub commit_loop-Keeps : (fuel : ℕ) (msg : Message) → Keeps P (commit_loop c fuel msg)
  unfolding commit_loop
  commit_loop-Keeps zero msg = Keeps-out_of_fuel
  commit_loop-Keeps (suc fuel) msg =
      Keeps-bind (commit c msg) (commit_judge c (commit_loop c fuel msg)) (commit-Keeps msg)
        (commit_judge-Keeps (commit_loop c fuel msg) (commit_loop-Keeps fuel msg))
