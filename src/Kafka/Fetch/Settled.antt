-- ===== src/Kafka/Fetch/Settled.antt =====
-- How the fetch loop ends: the error that Start returns, and when the channels are closed.
use casino_transaction_syste.Prelude.{
  ◌≡◌, refl, Bool, true, false, Option, none, some, List, [], ◌∷◌, ◌++◌, Bool-cases, inl, inr,
}
use casino_transaction_syste.Errors.{GoError, is_canceled}
use casino_transaction_syste.Kafka.Message.{Message}
use casino_transaction_syste.Kafka.Fetch.{
  Place, fetching, sending, returned, Loop, start, load_or_store, on_message, leave, on_fetch_error,
  send, receive, fail, fetch, fetch_error, deliver, give_up, take, cancel, fail_fatally, Reach,
  here, next,
}
use casino_transaction_syste.Kafka.Fetch.Workers.{has_channel}

-- The channels are open as long as the loop runs, and closed where it has returned.
abbrev pub Opened : Place → Bool → Type 0
Opened fetching closed = closed ≡ false
Opened (sending m) closed = closed ≡ false
Opened (returned e) closed = closed ≡ true

-- An error that Start returned is the fatal one.
abbrev pub Answered : Place → Option GoError → Type 0
Answered (returned (some e)) fatal = fatal ≡ some e
Answered p fatal = Unit

-- A fatal error, behind those that came before it; one that comes once Start has returned is too late.
abbrev in_time : Place → GoError → List GoError → List GoError
in_time (returned r) e es = es
in_time fetching e es = es ++ e ∷ []
in_time (sending m) e es = es ++ e ∷ []

-- The fatal errors of a run of the loop that came before Start returned, in order.
abbrev pub fatal_errors : {l : Loop} → Reach l → List GoError
fatal_errors here = []
fatal_errors (next {l} before (fail_fatally e)) = in_time l.place e (fatal_errors before)
fatal_errors (next before step) = fatal_errors before

abbrev pub first : List GoError → Option GoError
first [] = none
first (e ∷ es) = some e

-- What Start has returned is the first of them, and until then fatalErr is.
abbrev pub Returns : Place → Option GoError → List GoError → Type 0
Returns (returned r) fatal es = r ≡ first es
Returns fetching fatal es = fatal ≡ first es
Returns (sending m) fatal es = fatal ≡ first es

-- A fatal error has cancelled the context.
abbrev pub Stopped : Option GoError → Bool → Type 0
Stopped none cancelled = Unit
Stopped (some e) cancelled = cancelled ≡ true

pub record IsSettled (l : Loop) (errors : List GoError) : Type 0 where
  pub opened : Opened l.place l.closed
  pub answered : Answered l.place l.fatal
  pub stopped : Stopped l.fatal l.cancelled
  pub returns : Returns l.place l.fatal errors

Opened-fetching : (p : Place) (closed : Bool) → p ≡ fetching → Opened p closed → closed ≡ false
Opened-fetching fetching closed e h = h
Opened-fetching (sending m) closed e h = h
Opened-fetching (returned r) closed e h = cc

Opened-sending :
    (p : Place) (closed : Bool) (m : Message) → p ≡ sending m → Opened p closed → closed ≡ false
Opened-sending fetching closed m e h = h
Opened-sending (sending n) closed m e h = h
Opened-sending (returned r) closed m e h = cc

Answered-returned : (fatal : Option GoError) → Answered (returned fatal) fatal
Answered-returned none = tt
Answered-returned (some e) = refl

Stopped-true : (fatal : Option GoError) → Stopped fatal true
Stopped-true none = tt
Stopped-true (some e) = refl

Returns-fetching :
    (p : Place) (fatal : Option GoError) (es : List GoError)
    → p ≡ fetching
    → Returns p fatal es
    → fatal ≡ first es
Returns-fetching fetching fatal es e h = h
Returns-fetching (sending m) fatal es e h = h
Returns-fetching (returned r) fatal es e h = cc

Returns-sending :
    (p : Place) (fatal : Option GoError) (es : List GoError) (m : Message)
    → p ≡ sending m
    → Returns p fatal es
    → fatal ≡ first es
Returns-sending fetching fatal es m e h = h
Returns-sending (sending n) fatal es m e h = h
Returns-sending (returned r) fatal es m e h = cc

first-append :
    (fatal : Option GoError) (e : GoError) (es : List GoError)
    → fatal ≡ first es
    → (fail e (record start { fatal = fatal })).fatal ≡ first (es ++ e ∷ [])
unfolding fail
first-append none e [] h = refl
first-append none e (x ∷ es) h = cc
first-append (some y) e [] h = cc
first-append (some y) e (x ∷ es) h = h

Returns-fail :
    (p : Place) (e : GoError) (fatal : Option GoError) (es : List GoError)
    → Returns p fatal es
    → Returns p (fail e (record start { fatal = fatal })).fatal (in_time p e es)
Returns-fail fetching e fatal es h = first-append fatal e es h
Returns-fail (sending m) e fatal es h = first-append fatal e es h
Returns-fail (returned r) e fatal es h = h

leave-IsSettled :
    (l : Loop) (es : List GoError) → l.fatal ≡ first es → IsSettled l es → IsSettled (leave l) es
unfolding leave
leave-IsSettled l es e s = record {
  opened = refl;
  answered = Answered-returned l.fatal;
  stopped = s.stopped;
  returns = e;
}

-- The first fatal error stays.
Answered-fail :
    (p : Place) (e : GoError) (fatal : Option GoError)
    → Answered p fatal
    → Answered p (fail e (record start { fatal = fatal })).fatal
unfolding fail
Answered-fail fetching e fatal h = tt
Answered-fail (sending m) e fatal h = tt
Answered-fail (returned none) e fatal h = tt
Answered-fail (returned (some x)) e none h = cc
Answered-fail (returned (some x)) e (some y) h = h

module _ (es : List GoError) where
  on_message-IsSettled :
      (msg : Message) (l : Loop)
      → l.place ≡ fetching
      → IsSettled l es
      → IsSettled (on_message msg l) es
  unfolding on_message load_or_store
  on_message-IsSettled msg l at s =
      let opened = Opened-fetching l.place l.closed at s.opened in
      let returns = Returns-fetching l.place l.fatal es at s.returns in
      elim (Bool-cases (has_channel msg.partition l.channels)) [
        | inl old ↦
            rw old
              (record { opened = opened; answered = tt; stopped = s.stopped; returns = returns })
        | inr new ↦
            rw new
              (record { opened = opened; answered = tt; stopped = s.stopped; returns = returns })
      ]

  on_fetch_error-IsSettled :
      (e : GoError) (l : Loop)
      → l.place ≡ fetching
      → IsSettled l es
      → IsSettled (on_fetch_error e l) es
  unfolding on_fetch_error
  on_fetch_error-IsSettled e l at s = elim (Bool-cases (is_canceled e)) [
    | inl ends ↦ rw ends (leave-IsSettled l es (Returns-fetching l.place l.fatal es at s.returns) s)
    | inr on ↦ rw on (record {
      opened = s.opened;
      answered = s.answered;
      stopped = s.stopped;
      returns = s.returns;
    })
  ]

  send-IsSettled :
      (msg : Message) (l : Loop)
      → l.place ≡ sending msg
      → IsSettled l es
      → IsSettled (send msg l) es
  unfolding send
  send-IsSettled msg l at s = record {
    opened = Opened-sending l.place l.closed msg at s.opened;
    answered = tt;
    stopped = s.stopped;
    returns = Returns-sending l.place l.fatal es msg at s.returns;
  }

  receive-IsSettled : (msg : Message) (l : Loop) → IsSettled l es → IsSettled (receive msg l) es
  unfolding receive
  receive-IsSettled msg l s = record {
    opened = s.opened;
    answered = s.answered;
    stopped = s.stopped;
    returns = s.returns;
  }

  cancel-IsSettled : (l : Loop) → IsSettled l es → IsSettled (record l { cancelled = true }) es
  cancel-IsSettled l s = record {
    opened = s.opened;
    answered = s.answered;
    stopped = Stopped-true l.fatal;
    returns = s.returns;
  }

  fail-IsSettled :
      (e : GoError) (l : Loop) → IsSettled l es → IsSettled (fail e l) (in_time l.place e es)
  unfolding fail
  fail-IsSettled e l s = record {
    opened = s.opened;
    answered = Answered-fail l.place e l.fatal s.answered;
    stopped = Stopped-true (fail e l).fatal;
    returns = Returns-fail l.place e l.fatal es s.returns;
  }

-- In every state that the fetch loop of Start reaches: the channels are open to senders as long as the
-- loop may still send, and closed where it has returned; what Start returned is the first fatal error
-- that came before it returned, or no error where none came; an error that it returned stays the fatal
-- error, which later ones do not replace; and a fatal error has cancelled the context.
pub Reach-IsSettled : {l : Loop} (reach : Reach l) → IsSettled l (fatal_errors reach)
Reach-IsSettled here = record { opened = refl; answered = tt; stopped = tt; returns = refl }
Reach-IsSettled (next {l} before (fetch msg at)) =
    on_message-IsSettled (fatal_errors before) msg l at (Reach-IsSettled before)
Reach-IsSettled (next {l} before (fetch_error e at)) =
    on_fetch_error-IsSettled (fatal_errors before) e l at (Reach-IsSettled before)
Reach-IsSettled (next {l} before (deliver msg at room)) =
    send-IsSettled (fatal_errors before) msg l at (Reach-IsSettled before)
Reach-IsSettled (next {l} before (give_up msg at c)) =
    let s = Reach-IsSettled before in
    leave-IsSettled l (fatal_errors before)
      (Returns-sending l.place l.fatal (fatal_errors before) msg at s.returns) s
Reach-IsSettled (next {l} before (take msg queue at)) =
    receive-IsSettled (fatal_errors before) msg l (Reach-IsSettled before)
Reach-IsSettled (next {l} before cancel) =
    cancel-IsSettled (fatal_errors before) l (Reach-IsSettled before)
Reach-IsSettled (next {l} before (fail_fatally e)) =
    fail-IsSettled (fatal_errors before) e l (Reach-IsSettled before)
