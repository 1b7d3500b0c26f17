-- ===== src/Kafka/Termination/Loops.antt =====
-- The loops without a bound: over the dead letter writer, and over CommitMessages for one message and
-- for a batch.
use native.Mathlib.Nat.{le_trans, le_refl}
use casino_transaction_syste.Prelude.{
  ℕ, zero, suc, ◌≤◌, ◌≡◌, refl, Bool, true, false, Option, none, some, List, [], ◌∷◌, Bytes, length,
  arith, subst, sym,
}
use casino_transaction_syste.Prelude.Int.{pos, pos_part, ◌*ℤ◌}
use casino_transaction_syste.Errors.{GoError, root, other, wrapped, non_retryable, as_non_retryable}
use casino_transaction_syste.Kafka.Message.{Message}
use casino_transaction_syste.Kafka.Outside.{IsPatient}
use casino_transaction_syste.Kafka.Consumer.State.{
  State, M, Wt, ◌>>=◌, pure, call, emit, move, inc_counter, committed,
}
use casino_transaction_syste.Kafka.Consumer.Config.{Consumer, app_err, now, random}
use casino_transaction_syste.Kafka.Consumer.Backoff.{delay, sleep_backoff, pause_with_jitter}
use casino_transaction_syste.Kafka.Consumer.DeadLetter.{
  DlqEnd, routed, stopped, payload_of, count_written, write_encoded, route_with, route_to_dlq,
  fatal_once, trigger_fatal, dlq_unless_done, dlq_by_kind, dlq_judge, dlq_loop,
}
use casino_transaction_syste.Kafka.Consumer.Handle.{
  count_commit, commit, commit_unless_done, commit_judge, commit_loop,
}
use casino_transaction_syste.Kafka.Consumer.Batch.{
  bulk_commit_unless_done, bulk_commit_judge, bulk_commit_loop,
}
use casino_transaction_syste.Kafka.Termination.Steady.{
  Steady, Limited, Spends, Steady-bind, Steady-pure, Steady-emit, Steady-ask, Steady-round,
  Steady-move,
}

module _ {W : Type 0} (c : Consumer W) (calm : IsPatient c.outside) where
  module _ (n : ℕ) where
    pub now-Steady : Steady calm.patience n (now c)
    now-Steady = record { at = λ s p. calm.now_patience s.world }

    random-Steady : (k : ℕ) → Steady calm.patience n (random c k)
    random-Steady k = record { at = λ s p. calm.random_patience k s.world }

    pub sleep_backoff-Steady : (attempt : ℕ) → Steady calm.patience n (sleep_backoff c attempt)
    unfolding sleep_backoff
    sleep_backoff-Steady attempt =
        let k : ℕ = pos_part (c.cfg.retry_jitter_ms *ℤ pos 1000000) in
        let base : ℕ = pos_part c.cfg.retry_base_delay_ms in
        Steady-bind (random c k)
          (λ jitter. move (c.outside.sleep (delay c.outside.beyond_int64 base attempt jitter)))
          (random-Steady k) (λ jitter. Steady-move _ (calm.sleep_patience _))

    pause_with_jitter-Steady : Steady calm.patience n (pause_with_jitter c)
    unfolding pause_with_jitter
    pause_with_jitter-Steady = sleep_backoff-Steady 0

  count_commit-Spends :
      (r : Option GoError) (s u : State W)
      → Spends calm.patience r (calm.patience u.world) (calm.patience s.world)
      → Wt
          (count_commit c r u)
          (λ r' v. Spends calm.patience r' (calm.patience v.world) (calm.patience s.world))
  count_commit-Spends none s u h = h
  count_commit-Spends (some e) s u h = h

  commit_messages-Spends :
      (ms : List Message) (w : W) (r : Option GoError)
      → (c.outside.commit_messages ms w).0 ≡ r
      → Spends calm.patience r (calm.patience (c.outside.commit_messages ms w).1) (calm.patience w)
  commit_messages-Spends ms w none p = calm.commit_patience ms w
  commit_messages-Spends ms w (some e) p = calm.commit_fails ms w e p

  commit-Limited : (msg : Message) → Limited calm.patience (commit c msg)
  unfolding commit
  commit-Limited msg = record {
    at = λ s.
        count_commit-Spends (c.outside.commit_messages (msg ∷ []) s.world).0 s _
          (commit_messages-Spends (msg ∷ []) s.world _ refl);
  }

  commit_messages-Limited :
      (ms : List Message)
      → Limited calm.patience (call (c.outside.commit_messages ms) (λ r. committed ms r ∷ []))
  commit_messages-Limited ms = record { at = λ s. commit_messages-Spends ms s.world _ refl }

  commit_unless_done-Steady :
      {n : ℕ} (again : M W (Unit {0}))
      → Steady calm.patience n again
      → (done : Option GoError) → Steady calm.patience n (commit_unless_done c again done)
  commit_unless_done-Steady again h (some d) = Steady-pure tt
  commit_unless_done-Steady {n = n} again h none =
      Steady-bind (pause_with_jitter c) (λ _. again) (pause_with_jitter-Steady n) (λ _. h)

  -- With as much fuel as there are failures to come, and one more, the loop returns.
  pub commit_loop-Steady :
      (fuel : ℕ) (msg : Message) → Steady calm.patience fuel (commit_loop c fuel msg)
  unfolding commit_loop
  commit_loop-Steady zero msg = record { at = λ s p. omega arith }
  commit_loop-Steady (suc fuel) msg =
      Steady-round (commit c msg) (commit_judge c (commit_loop c fuel msg)) (commit-Limited msg)
        (Steady-pure tt)
        (λ e.
          Steady-bind _ _ (Steady-ask c.outside.app_err)
            (commit_unless_done-Steady _ (commit_loop-Steady fuel msg)))

  bulk_commit_unless_done-Steady :
      {n : ℕ} (again : M W (Unit {0}))
      → Steady calm.patience n again
      → (done : Option GoError) → Steady calm.patience n (bulk_commit_unless_done c again done)
  bulk_commit_unless_done-Steady again h (some d) = Steady-pure tt
  bulk_commit_unless_done-Steady {n = n} again h none =
      Steady-bind (pause_with_jitter c) (λ _. again) (pause_with_jitter-Steady n) (λ _. h)

  pub bulk_commit_loop-Steady :
      (fuel : ℕ) (ms : List Message) → Steady calm.patience fuel (bulk_commit_loop c fuel ms)
  unfolding bulk_commit_loop
  bulk_commit_loop-Steady zero ms = record { at = λ s p. omega arith }
  bulk_commit_loop-Steady (suc fuel) ms =
      Steady-round (call (c.outside.commit_messages ms) (λ r. committed ms r ∷ []))
        (bulk_commit_judge c (bulk_commit_loop c fuel ms) (length ms)) (commit_messages-Limited ms)
        (Steady-emit _)
        (λ e.
          Steady-bind _ _ (Steady-ask c.outside.app_err)
            (bulk_commit_unless_done-Steady _ (bulk_commit_loop-Steady fuel ms)))

  -- The dead letter queue.
  count_written-Spends :
      (r : Option GoError) (s u : State W)
      → Spends calm.patience r (calm.patience u.world) (calm.patience s.world)
      → Wt
          (count_written c r u)
          (λ r' v. Spends calm.patience r' (calm.patience v.world) (calm.patience s.world))
  count_written-Spends none s u h = h
  count_written-Spends (some e) s u h = h

  write_messages-Spends :
      (k v : Bytes) (w w' : W) (r : Option GoError)
      → calm.patience w' ≤ calm.patience w
      → (c.outside.write_messages k v w').0 ≡ r
      → Spends calm.patience r (calm.patience (c.outside.write_messages k v w').1) (calm.patience w)
  write_messages-Spends k v w w' none q p = le_trans (calm.write_patience k v w') q
  write_messages-Spends k v w w' (some e) q p =
      let fails = calm.write_fails k v w' e p in omega arith

  route_with-Limited :
      (msg : Message) (e : GoError) → Limited calm.patience (route_with c true msg e)
  route_with-Limited msg e = record {
    at = λ s.
        let (t, w) = c.outside.now s.world in
        let (raw, p) = calm.marshals (payload_of c msg e t) in
        subst
          (λ encoded.
            Wt (write_encoded c msg encoded (record s { world = w }))
              (λ r u. Spends calm.patience r (calm.patience u.world) (calm.patience s.world)))
          (sym p)
          (count_written-Spends (c.outside.write_messages msg.key raw w).0 s _
            (write_messages-Spends msg.key raw s.world w _ (calm.now_patience s.world) refl));
  }

  fatal_once-Steady :
      (e : GoError) (fatal : Option GoError) (s : State W)
      → Wt (fatal_once c e fatal s) (λ _ u. calm.patience u.world ≤ calm.patience s.world)
  fatal_once-Steady e none s = calm.cancel_patience s.world
  fatal_once-Steady e (some first) s = le_refl (calm.patience s.world)

  module _ {n : ℕ} (again : M W DlqEnd) where
    dlq_unless_done-Steady :
        (done : Option GoError)
        → Steady calm.patience n again
        → Steady calm.patience n (dlq_unless_done c again done)
    dlq_unless_done-Steady (some d) h = Steady-pure stopped
    dlq_unless_done-Steady none h =
        Steady-bind (pause_with_jitter c) (λ _. again) (pause_with_jitter-Steady n) (λ _. h)

    trigger_fatal-Steady : (e : GoError) → Steady calm.patience n (trigger_fatal c e)
    unfolding trigger_fatal
    trigger_fatal-Steady e = record { at = λ s p. fatal_once-Steady e s.fatal s }

    dlq_by_kind-Steady :
        (e : GoError) (permanent : Bool)
        → (permanent ≡ false → Steady calm.patience n again)
        → Steady calm.patience n (dlq_by_kind c again e permanent)
    dlq_by_kind-Steady e true h =
        Steady-bind (trigger_fatal c (wrapped e)) (λ _. pure stopped)
          (trigger_fatal-Steady (wrapped e)) (λ _. Steady-pure stopped)
    dlq_by_kind-Steady e false h =
        Steady-bind (app_err c) (dlq_unless_done c again) (Steady-ask c.outside.app_err)
          (λ done. dlq_unless_done-Steady done (h refl))

    dlq_judge-Steady :
        (e : GoError)
        → (as_non_retryable e ≡ false → Steady calm.patience n again)
        → Steady calm.patience n (dlq_judge c again (some e))
    dlq_judge-Steady e h =
        Steady-bind
          (emit (inc_counter "kafka_consumer_dlq_total" (("result", "error") ∷ []) (pos 1)))
          (λ _. dlq_by_kind c again e (as_non_retryable e)) (Steady-emit _)
          (λ _. dlq_by_kind-Steady e (as_non_retryable e) h)

  dlq_round :
      {n : ℕ} (b : Bool) (msg : Message) (e : GoError) (again : M W DlqEnd)
      → Steady calm.patience n again
      → Steady calm.patience (suc n) (route_with c b msg e >>= dlq_judge c again)
  unfolding root
  dlq_round true msg e again h =
      Steady-round (route_with c true msg e) (dlq_judge c again) (route_with-Limited msg e)
        (Steady-pure routed) (λ e'. dlq_judge-Steady again e' (λ _. h))
  dlq_round false msg e again h = dlq_judge-Steady again (non_retryable (other 1)) (λ p. cc)

  pub dlq_loop-Steady :
      (fuel : ℕ) (msg : Message) (e : GoError) → Steady calm.patience fuel (dlq_loop c fuel msg e)
  unfolding dlq_loop route_to_dlq
  dlq_loop-Steady zero msg e = record { at = λ s p. omega arith }
  dlq_loop-Steady (suc fuel) msg e =
      dlq_round c.has_writer msg e (dlq_loop c fuel msg e) (dlq_loop-Steady fuel msg e)
