-- ===== src/Kafka/Shutdown.antt =====
-- A shutdown in the middle of a flush, with an invalid message behind the batch.
use casino_transaction_syste.Prelude.{
  ℕ, zero, suc, ◌≤◌, ◌≡◌, refl, subst, sym, ◌∙◌, ap, Bool, true, false, Option, none, some, List,
  [], ◌∷◌, length, Bytes, Result, ok, err, arith,
}
use casino_transaction_syste.Prelude.Int.{pos, sub_ℕ}
use casino_transaction_syste.TimeUtil.{Time, is_zero}
use casino_transaction_syste.Domain.{Transaction}
use casino_transaction_syste.Errors.{GoError, non_retryable, root}
use casino_transaction_syste.Kafka.Message.{Message}
use casino_transaction_syste.Kafka.Outside.{IsPatient}
use casino_transaction_syste.Kafka.Consumer.State.{
  State, M, Action, stored, dead_lettered, committed, ◌>>=◌, ◌>>◌, pure, Wt, Wt-mono, Wt-continue,
}
use casino_transaction_syste.Kafka.Consumer.Config.{Consumer, rounds, parsed, now}
use casino_transaction_syste.Kafka.Consumer.Process.{process_parsed, process_message}
use casino_transaction_syste.Kafka.Consumer.DeadLetter.{
  DlqEnd, routed, stopped, payload_of, count_written, write_encoded, route_with, route_to_dlq,
  dlq_judge, dlq_loop,
}
use casino_transaction_syste.Kafka.Consumer.Handle.{
  lag_unless, observe_lag, count_commit, commit, commit_judge, commit_loop, after_dlq, on_failure,
  after_processing, handle_message,
}
use casino_transaction_syste.Kafka.Consumer.Batch.{
  BulkEnd, aborted, finished, bulk_unless_done, bulk_judge, bulk_attempts, after_bulk,
  gauge_inflight, flush_batch,
}
use casino_transaction_syste.Kafka.Consumer.Worker.{Buffer, no_messages, flush, take_parsed}

module _ {W : Type 0} (c : Consumer W) where
  abbrev pub Traces : List Action → State W → Type 0
  Traces t s = s.trace ≡ t

  module _ (again : M W BulkEnd) where
    bulk_unless_done-aborted :
        (e : GoError) (done : Option GoError) (d : GoError) (v : State W)
        → done ≡ some d
        → Wt (bulk_unless_done c again 0 e done v) (λ end x. (end ≡ aborted) × Traces v.trace x)
    bulk_unless_done-aborted e none d v h = cc
    bulk_unless_done-aborted e (some d') d v h = (refl, refl)

    bulk_judge-aborted :
        (r : Option GoError) (e d : GoError) (v : State W)
        → r ≡ some e
        → c.outside.app_err v.world ≡ some d
        → Wt (bulk_judge c again 0 r v) (λ end x. (end ≡ aborted) × Traces v.trace x)
    bulk_judge-aborted none e d v h k = cc
    bulk_judge-aborted (some e') e d v h k =
        bulk_unless_done-aborted e' (c.outside.app_err v.world) d v k

  after_bulk-aborted :
      (msgs : List Message) (started : Time) (end : BulkEnd) (v : State W)
      → end ≡ aborted
      → Wt (after_bulk c msgs started end v) (λ _. Traces v.trace)
  after_bulk-aborted msgs started aborted v h = refl
  after_bulk-aborted msgs started (finished r) v h = cc

  module _ (ts : List Transaction) (e d : GoError) where
    bulk_attempts-aborted :
        (left : ℕ) (u : State W)
        → 1 ≤ left
        → (c.outside.register_all ts u.world).0 ≡ some e
        → c.outside.app_err (c.outside.register_all ts u.world).1 ≡ some d
        → Wt
            (bulk_attempts c left 0 ts none u)
            (λ end x. (end ≡ aborted) × Traces (stored ts (some e) ∷ u.trace) x)
    unfolding bulk_attempts
    bulk_attempts-aborted zero u p h k = absurd (omega arith)
    bulk_attempts-aborted (suc left) u p h k =
        let (r, w) = c.outside.register_all ts u.world in
        Wt-mono
          (bulk_judge c (bulk_attempts c left 1 ts r) 0 r
            (record u { world = w; trace = stored ts r ∷ u.trace }))
          (λ end x q. (q.0, q.1 ∙ ap (λ r'. stored ts r' ∷ u.trace) h))
          (bulk_judge-aborted (bulk_attempts c left 1 ts r) r e d _ h k)

    -- The flush ends with one failed insert, and nothing is committed.
    flush_batch-aborted :
        (msg : Message) (msgs : List Message) (s : State W)
        → 1 ≤ rounds c
        → (c.outside.register_all ts (c.outside.now s.world).1).0 ≡ some e
        → c.outside.app_err (c.outside.register_all ts (c.outside.now s.world).1).1 ≡ some d
        → Wt (flush_batch c (msg ∷ msgs) ts s) (λ _. Traces (stored ts (some e) ∷ s.trace))
    unfolding flush_batch
    flush_batch-aborted msg msgs s p h k =
        let all : List Message = msg ∷ msgs in
        let last : M W (Unit {0}) = gauge_inflight c (sub_ℕ 0 (length all)) in
        let (started, w) = c.outside.now s.world in
        Wt-continue (bulk_attempts c (rounds c) 0 ts none _)
          (λ end. after_bulk c all started end >> last) (λ _. Traces (stored ts (some e) ∷ s.trace))
          (Wt-mono (bulk_attempts c (rounds c) 0 ts none _)
            (λ end v q.
              Wt-continue (after_bulk c all started end v) (λ _. last)
                (λ _. Traces (stored ts (some e) ∷ s.trace))
                (Wt-mono (after_bulk c all started end v) (λ _ x t. t ∙ q.1)
                  (after_bulk-aborted all started end v q.0)))
            (bulk_attempts-aborted (rounds c) _ p h k))

module _ {W : Type 0} (c : Consumer W) (msg : Message)
    (commits : (ms : List Message) (w : W) → (c.outside.commit_messages ms w).0 ≡ none) where
  abbrev commit_seen : State W → List Action
  commit_seen s = committed (msg ∷ []) none ∷ s.trace

  count_commit-accepted :
      (again : M W (Unit {0})) (r : Option GoError) (v : State W)
      → r ≡ none
      → Wt ((count_commit c r >>= commit_judge c again) v) (λ _. Traces c v.trace)
  count_commit-accepted again none v h = refl
  count_commit-accepted again (some e) v h = cc

  commit_loop-accepted :
      (fuel : ℕ) (s : State W)
      → 1 ≤ fuel
      → Wt (commit_loop c fuel msg s) (λ _. Traces c (commit_seen s))
  unfolding commit_loop commit
  commit_loop-accepted zero s h = absurd (omega arith)
  commit_loop-accepted (suc fuel) s h =
      let (r, w) = c.outside.commit_messages (msg ∷ []) s.world in
      let v : State W = record s { world = w; trace = committed (msg ∷ []) r ∷ s.trace } in
      let p = commits (msg ∷ []) s.world in
      Wt-mono ((count_commit c r >>= commit_judge c (commit_loop c fuel msg)) v)
        (λ _ x t. t ∙ ap (λ r'. committed (msg ∷ []) r' ∷ s.trace) p)
        (count_commit-accepted (commit_loop c fuel msg) r v p)

  module _ (calm : IsPatient c.outside) (writer : c.has_writer ≡ true)
      (writes : (k v : Bytes) (w : W) → (c.outside.write_messages k v w).0 ≡ none) where
    abbrev dead_seen : State W → List Action
    dead_seen s = dead_lettered msg none ∷ s.trace

    count_written-accepted :
        (again : M W DlqEnd) (r : Option GoError) (v : State W)
        → r ≡ none
        → Wt
            ((count_written c r >>= dlq_judge c again) v)
            (λ end x. (end ≡ routed) × Traces c v.trace x)
    count_written-accepted again none v h = (refl, refl)
    count_written-accepted again (some e) v h = cc

    write_encoded-accepted :
        (again : M W DlqEnd) (enc : Result GoError Bytes) (raw : Bytes) (s : State W)
        → enc ≡ ok raw
        → Wt
            ((write_encoded c msg enc >>= dlq_judge c again) s)
            (λ end x. (end ≡ routed) × Traces c (dead_seen s) x)
    write_encoded-accepted again (err e) raw s h = cc
    write_encoded-accepted again (ok raw') raw s h =
        let (r, w) = c.outside.write_messages msg.key raw' s.world in
        let v : State W = record s { world = w; trace = dead_lettered msg r ∷ s.trace } in
        let p = writes msg.key raw' s.world in
        Wt-mono ((count_written c r >>= dlq_judge c again) v)
          (λ end x q. (q.0, q.1 ∙ ap (λ r'. dead_lettered msg r' ∷ s.trace) p))
          (count_written-accepted again r v p)

    route_with-accepted :
        (again : M W DlqEnd) (b : Bool) (e : GoError) (s : State W)
        → b ≡ true
        → Wt
            ((route_with c b msg e >>= dlq_judge c again) s)
            (λ end x. (end ≡ routed) × Traces c (dead_seen s) x)
    route_with-accepted again false e s h = cc
    route_with-accepted again true e s h =
        let (t, w) = c.outside.now s.world in
        let (raw, p) = calm.marshals (payload_of c msg e t) in
        write_encoded-accepted again (c.outside.marshal (payload_of c msg e t)) raw
          (record s { world = w }) p

    dlq_loop-accepted :
        (fuel : ℕ) (e : GoError) (s : State W)
        → 1 ≤ fuel
        → Wt (dlq_loop c fuel msg e s) (λ end x. (end ≡ routed) × Traces c (dead_seen s) x)
    unfolding dlq_loop route_to_dlq
    dlq_loop-accepted zero e s h = absurd (omega arith)
    dlq_loop-accepted (suc fuel) e s h =
        route_with-accepted (dlq_loop c fuel msg e) c.has_writer e s writer

    module _ (fuel : 1 ≤ c.fuel) where
      abbrev both_seen : State W → List Action
      both_seen s = committed (msg ∷ []) none ∷ dead_lettered msg none ∷ s.trace

      after_dlq-accepted :
          (end : DlqEnd) (v : State W)
          → end ≡ routed
          → Wt (after_dlq c msg end v) (λ _. Traces c (commit_seen v))
      after_dlq-accepted stopped v h = cc
      after_dlq-accepted routed v h = commit_loop-accepted c.fuel _ fuel

      on_failure-accepted :
          (started : Time) (e : GoError) (s : State W)
          → Wt (on_failure c msg started e false s) (λ _. Traces c (both_seen s))
      on_failure-accepted started e s =
          Wt-continue (dlq_loop c c.fuel msg e _) (after_dlq c msg) (λ _. Traces c (both_seen s))
            (Wt-mono (dlq_loop c c.fuel msg e _)
              (λ end v q.
                Wt-mono (after_dlq c msg end v)
                  (λ _ x t. t ∙ ap (λ past. committed (msg ∷ []) none ∷ past) q.1)
                  (after_dlq-accepted end v q.0))
              (dlq_loop-accepted c.fuel e _ fuel))

      after_processing-accepted :
          (started : Time) (cause : GoError) (r : Option GoError) (s : State W)
          → r ≡ some (non_retryable cause)
          → Wt (after_processing c msg started r s) (λ _. Traces c (both_seen s))
      unfolding root
      after_processing-accepted started cause r s h =
          subst (λ r'. Wt (after_processing c msg started r' s) (λ _. Traces c (both_seen s)))
            (sym h) (on_failure-accepted started (non_retryable cause) s)

      process_parsed-refused :
          (r : Result GoError Transaction) (cause : GoError) (s : State W)
          → r ≡ err (non_retryable cause)
          → Wt (process_parsed c r s) (λ e x. (e ≡ some (non_retryable cause)) × Traces c s.trace x)
      process_parsed-refused (err e) cause s h = (cc, refl)
      process_parsed-refused (ok t) cause s h = cc

      lag_unless-quiet :
          (b : Bool) (s : State W) → Wt (lag_unless c b msg s) (λ _. Traces c s.trace)
      lag_unless-quiet true s = refl
      lag_unless-quiet false s = refl

      module _ (cause : GoError) (refused : parsed c msg ≡ err (non_retryable cause)) where
        processed :
            (s : State W)
            → Wt
                ((now c >>= λ started. process_message c msg >>= after_processing c msg started) s)
                (λ _. Traces c (both_seen s))
        unfolding process_message
        processed s =
            let (started, w) = c.outside.now s.world in
            let v : State W = record s { world = w } in
            Wt-continue (process_parsed c (parsed c msg) v) (after_processing c msg started)
              (λ _. Traces c (both_seen s))
              (Wt-mono (process_parsed c (parsed c msg) v)
                (λ e x q.
                  Wt-mono (after_processing c msg started e x)
                    (λ _ y t.
                      t
                      ∙ ap (λ past. committed (msg ∷ []) none ∷ dead_lettered msg none ∷ past) q.1)
                    (after_processing-accepted started cause e x q.0))
                (process_parsed-refused (parsed c msg) cause v refused))

        -- A message that is refused is dead-lettered and committed, whatever the context is.
        handle_message-refused :
            (s : State W) → Wt (handle_message c msg s) (λ _. Traces c (both_seen s))
        unfolding handle_message observe_lag
        handle_message-refused s =
            let rest : Unit {0} → M W (Unit {0}) =
              λ _. now c >>= λ started. process_message c msg >>= after_processing c msg started in
            Wt-continue (lag_unless c (is_zero msg.time) msg s) rest (λ _. Traces c (both_seen s))
              (Wt-mono (lag_unless c (is_zero msg.time) msg s)
                (λ _ x q.
                  Wt-mono (rest tt x)
                    (λ _ y t.
                      t ∙ ap (λ past. committed (msg ∷ []) none ∷ dead_lettered msg none ∷ past) q)
                    (processed x))
                (lag_unless-quiet (is_zero msg.time) s))

-- Where the bulk insert of the buffered batch fails under a context that is cancelled by then, and the
-- message behind the batch is not valid, the worker dead-letters and commits that message all the
-- same, if the broker accepts its calls, there is a dead letter writer, a round of retries and fuel, and
-- payloads can be encoded: the batch is neither stored, dead-lettered nor committed, and the later
-- offset is.
pub take_parsed_overtakes :
    {W : Type 0} (c : Consumer W) (calm : IsPatient c.outside) (first : Message)
    (msgs : List Message) (ts : List Transaction) (msg : Message) (cause e d : GoError)
    (s : State W)
    → 1 ≤ rounds c
    → 1 ≤ c.fuel
    → c.has_writer ≡ true
    → parsed c msg ≡ err (non_retryable cause)
    → (c.outside.register_all ts (c.outside.now s.world).1).0 ≡ some e
    → c.outside.app_err (c.outside.register_all ts (c.outside.now s.world).1).1 ≡ some d
    → ((k v : Bytes) (w : W) → (c.outside.write_messages k v w).0 ≡ none)
    → ((ms : List Message) (w : W) → (c.outside.commit_messages ms w).0 ≡ none)
    → Wt
        (take_parsed c
          (record { msgs = first ∷ msgs; domains = ts })
          msg
          (err (non_retryable cause))
          s)
        (λ b s'.
          (b ≡ no_messages)
          × (s'.trace
              ≡ committed (msg ∷ []) none ∷ dead_lettered msg none ∷ stored ts (some e) ∷ s.trace))
unfolding flush
take_parsed_overtakes {W = W} c calm first msgs ts msg cause e d s some_round fuel writer refused
      fails cancelled writes commits =
    let final : List Action =
      committed (msg ∷ []) none ∷ dead_lettered msg none ∷ stored ts (some e) ∷ s.trace in
    let goal : Buffer → State W → Type 0 = λ b s'. (b ≡ no_messages) × (s'.trace ≡ final) in
    let last : M W Buffer = gauge_inflight c (sub_ℕ 0 1) >> pure no_messages in
    Wt-continue (flush_batch c (first ∷ msgs) ts s)
      (λ _. gauge_inflight c (pos 1) >> (handle_message c msg >> last)) goal
      (Wt-mono (flush_batch c (first ∷ msgs) ts s)
        (λ _ x q.
          Wt-continue (handle_message c msg _) (λ _. last) goal
            (Wt-mono (handle_message c msg _)
              (λ _ y t. (
                refl,
                t ∙ ap (λ past. committed (msg ∷ []) none ∷ dead_lettered msg none ∷ past) q,
              ))
              (handle_message-refused c msg commits calm writer writes fuel cause refused _)))
        (flush_batch-aborted c ts e d first msgs s some_round fails cancelled))
