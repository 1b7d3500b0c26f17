-- ===== src/Kafka/Delivery/Processing.antt =====
-- `processMessageWithRetries`: what its result says of the service and of the context.
use casino_transaction_syste.Prelude.{
  ℕ, zero, suc, ◌+◌, ◌≤◌, ◌≡◌, refl, sym, inl, Bool, true, false, ◌||◌, ◌==◌, Option, none, some,
  List, [], ◌∷◌, Result, ok, err, arith,
}
use casino_transaction_syste.Prelude.Int.{pos}
use casino_transaction_syste.Domain.{Transaction, DomainError, validate}
use casino_transaction_syste.Errors.{
  GoError, repo_not_initialized, db_unavailable, amount, domain, canceled, deadline_exceeded, other,
  wrapped, non_retryable, root, is_canceled, is_deadline_exceeded,
}
use casino_transaction_syste.Boundary.{classify}
use casino_transaction_syste.Kafka.Message.{Message}
use casino_transaction_syste.Kafka.Decode.{Codec, checked, converted, decoded, parse_and_validate}
use casino_transaction_syste.Kafka.Dto.{TransactionDto, unmarshal, to_domain}
use casino_transaction_syste.Money.{AmountError}
use casino_transaction_syste.Kafka.Outside.{IsLawful}
use casino_transaction_syste.Kafka.Consumer.State.{
  State, M, Action, Metric, inc_counter, stored, Wp, Wp-mono, Wp-continue,
}
use casino_transaction_syste.Kafka.Consumer.Config.{Consumer, rounds, parsed}
use casino_transaction_syste.Kafka.Consumer.Backoff.{sleep_backoff}
use casino_transaction_syste.Kafka.Consumer.Process.{
  by_class, unless_done, judge, attempts, process_parsed, process_message,
}
use casino_transaction_syste.Kafka.Trace.{IsStored, IsQuiet, same, more}
use casino_transaction_syste.Kafka.Delivery.Evolution.{
  IsCancelled, Evolves, Evolves-refl, Evolves-trans, Evolves-metrics, sleep_backoff-Evolves,
}

-- The test by which `handleMessage` knows a shutdown.
abbrev pub is_shutdown : GoError → Bool
is_shutdown e = is_canceled e || is_deadline_exceeded e

retryable_no_shutdown : (e : GoError) → (classify e).retryable ≡ true → is_shutdown e ≡ false
unfolding classify
retryable_no_shutdown (wrapped e) h = retryable_no_shutdown e h
retryable_no_shutdown repo_not_initialized h = refl
retryable_no_shutdown db_unavailable h = refl
retryable_no_shutdown (amount a) h = cc
retryable_no_shutdown (domain d) h = cc
retryable_no_shutdown canceled h = cc
retryable_no_shutdown deadline_exceeded h = cc
retryable_no_shutdown (other n) h = cc
retryable_no_shutdown (non_retryable e) h = cc

wrapped_no_shutdown :
    (e : GoError) → (classify e).retryable ≡ true → is_shutdown (wrapped e) ≡ false
unfolding root
wrapped_no_shutdown e h = retryable_no_shutdown e h

pub permanent_no_shutdown : (e : GoError) → is_shutdown (non_retryable e) ≡ false
unfolding root
permanent_no_shutdown e = refl

module _ {W : Type 0} (c : Consumer W) where
  -- What a processing that began at `s` with the transaction `t` has done, by its error.
  pub record Processed (s : State W) (t : Transaction) (r : Option GoError) (s' : State W)
      : Type 0 where
    pub evolves : Evolves c IsQuiet s s'
    pub accepted : r ≡ none → IsStored t s'.trace
    pub shutdown : (e : GoError) → r ≡ some e → is_shutdown e ≡ true → IsCancelled c s'.world

module _ {W : Type 0} (c : Consumer W) (law : IsLawful c.outside) (s : State W)
    (t : Transaction) where
  refused :
      (s' : State W) (e : GoError)
      → Evolves c IsQuiet s s'
      → (is_shutdown e ≡ true → IsCancelled c s'.world)
      → Processed c s t (some e) s'
  refused s' e ev h = record { evolves = ev; accepted = λ p. cc; shutdown = λ e' p q. h (cc) }

  module _ (again : M W (Option GoError)) (last : Bool) (attempt : ℕ)
      (next : (s' : State W)
        → last ≡ false
        → Evolves c IsQuiet s s'
        → Wp (again s') (Processed c s t)) where
    by_class-Processed :
        (last' : Bool) (e : GoError) (b : Bool) (s' : State W)
        → last' ≡ last
        → (classify e).retryable ≡ b
        → Evolves c IsQuiet s s'
        → Wp (by_class c again last' attempt e b s') (Processed c s t)
    by_class-Processed last' e false s' q p ev =
        refused s' (non_retryable e) ev (λ h. cc (permanent_no_shutdown e))
    by_class-Processed true e true s' q p ev =
        refused s' (wrapped e) ev (λ h. cc (wrapped_no_shutdown e p))
    by_class-Processed false e true s' q p ev =
        let retried : Metric =
          inc_counter "kafka_consumer_retries_total" (("reason", "process_error") ∷ []) (pos 1) in
        let counted : Metric =
          inc_counter "kafka_consumer_messages_total" (("result", "retried") ∷ []) (pos 1) in
        let s'' : State W = record s' { metrics = counted ∷ retried ∷ s'.metrics } in
        Wp-continue (sleep_backoff c attempt s'') (λ _. again) (Processed c s t)
          (Wp-mono (sleep_backoff c attempt s'')
            (λ _ u slept.
              next u (sym q)
                (Evolves-trans (Evolves-trans ev (Evolves-metrics s' s''.metrics)) slept))
            (sleep_backoff-Evolves c law IsQuiet attempt s''))

    unless_done-Processed :
        (e : GoError) (done : Option GoError) (s' : State W)
        → c.outside.app_err s'.world ≡ done
        → Evolves c IsQuiet s s'
        → Wp (unless_done c again last attempt e done s') (Processed c s t)
    unless_done-Processed e (some d) s' p ev = refused s' d ev (λ h. cc)
    unless_done-Processed e none s' p ev =
        by_class-Processed last e (classify e).retryable s' refl refl ev

    judge-Processed :
        (r : Option GoError) (s' : State W)
        → (r ≡ none → IsStored t s'.trace)
        → Evolves c IsQuiet s s'
        → Wp (judge c again last attempt r s') (Processed c s t)
    judge-Processed none s' h ev = record { evolves = ev; accepted = h; shutdown = λ e p. cc }
    judge-Processed (some e) s' h ev =
        unless_done-Processed e (c.outside.app_err s'.world) s' refl ev

  IsStored-accepted :
      (r : Option GoError) (past : List Action) → r ≡ none → IsStored t (stored (t ∷ []) r ∷ past)
  IsStored-accepted none past h = inl (inl refl)
  IsStored-accepted (some e) past h = cc

  attempts-Processed :
      (left attempt : ℕ) (s' : State W)
      → 1 ≤ left
      → Evolves c IsQuiet s s'
      → Wp (attempts c left attempt t s') (Processed c s t)
  unfolding attempts
  attempts-Processed zero attempt s' h ev = absurd (omega arith)
  attempts-Processed (suc left) attempt s' h ev =
      let (r, w) = c.outside.register t s'.world in
      let s'' : State W = record s' { world = w; trace = stored (t ∷ []) r ∷ s'.trace } in
      let registered : Evolves c IsQuiet s' s'' = record {
        extends = more tt same;
        inflight = refl;
        stays = law.register_cancelled t s'.world;
        sound = λ k f. law.register_cancelled t s'.world (k f);
      } in
      judge-Processed (attempts c left (attempt + 1) t) (left == 0) attempt
        (λ u p ev'. attempts-Processed left (attempt + 1) u (ground arith) ev') r s''
        (IsStored-accepted r s'.trace) (Evolves-trans ev registered)

checked_permanent :
    (t : Transaction) (o : Option DomainError) (e : GoError)
    → checked t o ≡ err e
    → (cause : GoError) × (e ≡ non_retryable cause)
checked_permanent t none e h = cc
checked_permanent t (some d) e h = (domain d, cc)

converted_permanent :
    (r : Result AmountError Transaction) (e : GoError)
    → converted r ≡ err e
    → (cause : GoError) × (e ≡ non_retryable cause)
converted_permanent (err a) e h = (amount a, cc)
converted_permanent (ok t) e h = checked_permanent t (validate t) e h

decoded_permanent :
    (codec : Codec) (o : Option TransactionDto) (e : GoError)
    → decoded codec o ≡ err e
    → (cause : GoError) × (e ≡ non_retryable cause)
decoded_permanent codec none e h = (other 0, cc)
decoded_permanent codec (some dto) e h = converted_permanent (to_domain codec.parse_in_utc dto) e h

-- Every error of decoding or validation is one that is not retried.
pub parse_and_validate_permanent :
    (codec : Codec) (msg : Message) (e : GoError)
    → parse_and_validate codec msg ≡ err e
    → (cause : GoError) × (e ≡ non_retryable cause)
unfolding parse_and_validate
parse_and_validate_permanent codec msg e h =
    decoded_permanent codec (unmarshal codec.json msg.value) e h

parsed_no_shutdown :
    {W : Type 0} (c : Consumer W) (msg : Message) (e : GoError)
    → parsed c msg ≡ err e
    → is_shutdown e ≡ false
parsed_no_shutdown c msg e h =
    let (cause, p) = parse_and_validate_permanent c.codec msg e h in
    rw p (permanent_no_shutdown cause)

module _ {W : Type 0} (c : Consumer W) (law : IsLawful c.outside) (some_round : 1 ≤ rounds c) where
  -- What `processMessageWithRetries` has done: no error means that the message is valid and stored.
  pub record Attempted (msg : Message) (s : State W) (r : Option GoError) (s' : State W)
      : Type 0 where
    pub evolves : Evolves c IsQuiet s s'
    pub accepted : r ≡ none → (t : Transaction) × (parsed c msg ≡ ok t) × IsStored t s'.trace
    pub shutdown : (e : GoError) → r ≡ some e → is_shutdown e ≡ true → IsCancelled c s'.world

  Attempted-of :
      (msg : Message) (s : State W) (p : Result GoError Transaction)
      → parsed c msg ≡ p
      → Wp (process_parsed c p s) (Attempted msg s)
  Attempted-of msg s (err e) h = record {
    evolves = Evolves-refl s;
    accepted = λ q. cc;
    shutdown = λ e' q k. cc (parsed_no_shutdown c msg e h);
  }
  Attempted-of msg s (ok t) h =
      Wp-mono (attempts c (rounds c) 0 t s)
        (λ r s' d. record {
          evolves = d.evolves;
          accepted = λ q. (t, h, d.accepted q);
          shutdown = d.shutdown;
        })
        (attempts-Processed c law s t (rounds c) 0 s some_round (Evolves-refl s))

  pub process_message-Attempted :
      (msg : Message) (s : State W) → Wp (process_message c msg s) (Attempted msg s)
  unfolding process_message
  process_message-Attempted msg s = Attempted-of msg s (parsed c msg) refl
