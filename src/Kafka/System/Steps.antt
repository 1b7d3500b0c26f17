-- ===== src/Kafka/System/Steps.antt =====
-- What each step of the system does to its invariant.
use native.Mathlib.Nat.{le_refl, le_trans}
use casino_transaction_syste.Prelude.{
  ℕ, ◌≤◌, ◌<◌, ◌≡◌, ◌==◌, refl, sym, ◌∙◌, subst, true, if◌then◌else◌, Option, none, some, List, [],
  ◌∷◌, ◌++◌, append-nil, arith, Bool-cases, Option-cases, inl, inr,
}
use casino_transaction_syste.Prelude.Int.{IsInt64}
use casino_transaction_syste.Kafka.Message.{Message}
use casino_transaction_syste.Kafka.Outside.{IsLawful, IsPatient}
use casino_transaction_syste.Kafka.Fetch.{Loop, start, receive, take, cancel}
use casino_transaction_syste.Kafka.Fetch as Fetch
use casino_transaction_syste.Kafka.Fetch.Invariant.{only, only-append}
use casino_transaction_syste.Kafka.Consumer.State.{State, Wp, Wt}
use casino_transaction_syste.Kafka.Consumer.Config.{Consumer, parsed}
use casino_transaction_syste.Kafka.Consumer.Worker.{
  Input, received, ticked, Buffer, partition_worker,
}
use casino_transaction_syste.Kafka.Settings.{IsUsable}
use casino_transaction_syste.Kafka.Correctness.{rounds-IsUsable}
use casino_transaction_syste.Kafka.Trace.{IsSafe}
use casino_transaction_syste.Kafka.Delivery.Evolution.{IsCancelled, IsSound}
use casino_transaction_syste.Kafka.Delivery.Flushing.{All-IsDone-Extends, not_cancelled_before}
use casino_transaction_syste.Kafka.Delivery.Serving.{
  taken, IsDecoded, Accounted, Accounted-trans, Served,
}
use casino_transaction_syste.Kafka.Delivery.Working.{partition_worker-Served}
use casino_transaction_syste.Kafka.Termination.Serving.{partition_worker-Steady}
use casino_transaction_syste.Kafka.System.{
  System, begin, put, Step, loops, works, ticks, waits, Reach, here, next,
}

module _ {W A : Type 0} where
  pub Wp_at :
      {r : Option (A × State W)} {a : A} {s : State W} (Q : A → State W → Type 0)
      → r ≡ some (a, s)
      → Wp r Q
      → Q a s
  Wp_at Q e h = subst (λ x. Wp x Q) e h

  Wt_at :
      {r : Option (A × State W)} {a : A} {s : State W} (Q : A → State W → Type 0)
      → r ≡ some (a, s)
      → Wt r Q
      → Q a s
  Wt_at Q e h = subst (λ x. Wt x Q) e h

pub only-snoc :
    (p : ℕ) (ms : List Message) (m : Message)
    → only p (ms ++ m ∷ []) ≡ (if m.partition == p then only p ms ++ m ∷ [] else only p ms)
unfolding only
only-snoc p ms m = ground (arith, only-append p ms (m ∷ []), append-nil (only p ms))

eq_of_test : (p j : ℕ) → (p == j) ≡ true → p ≡ j
eq_of_test p j h = ground arith

-- The two steps of a worker: a message that leaves its channel, and its ticker.
only-receive :
    (j : ℕ) (msg : Message) (l : Loop)
    → only j (receive msg l).received
      ≡ (if msg.partition == j then only j l.received ++ msg ∷ [] else only j l.received)
unfolding receive
only-receive j msg l = only-snoc j l.received msg

only-idle :
    (p j : ℕ) (ms : List Message) → only j ms ≡ (if p == j then only j ms ++ [] else only j ms)
only-idle p j ms = ground (arith, append-nil (only j ms))

-- What happens elsewhere ends no cancellation and adds no failures to come.
pub record IsHarmless {W : Type 0} (c : Consumer W) (patience : W → ℕ) (elsewhere : W → W → Type 0)
    : Type 0 where
  pub stays : (v w : W) → elsewhere v w → IsCancelled c v → IsCancelled c w
  pub less : (v w : W) → elsewhere v w → patience w ≤ patience v

module _ {W : Type 0} (c : Consumer W) (law : IsLawful c.outside) (calm : IsPatient c.outside) where
  -- Of each partition, what its worker received is done or in its batch, in order.
  abbrev pub IsComplete : System W → Type 0
  IsComplete s = (p : ℕ) → Accounted c [] (only p s.loop.received) (s.buffers p).msgs s.shared

  -- What holds of a system that began with this state.
  pub record IsHealthy (from : State W) (s : System W) : Type 0 where
    pub reached : Fetch.Reach s.loop
    pub sighted : s.loop.cancelled ≡ true → IsCancelled c s.shared.world
    pub decoded : (p : ℕ) → IsDecoded c (s.buffers p)
    pub safe : IsSafe (parsed c) s.shared.trace
    pub sound : IsSound c s.shared
    pub calmer : calm.patience s.shared.world ≤ calm.patience from.world
    pub inflight : s.shared.inflight ≡ from.inflight
    pub complete : c.outside.app_err s.shared.world ≡ none → IsComplete s

  unless_cancelled : (w : W) → ¬ IsCancelled c w → c.outside.app_err w ≡ none
  unless_cancelled w h = elim (Option-cases (c.outside.app_err w)) [
    | inl e ↦ e
    | inr (d, e) ↦ absurd (h (λ p. cc))
  ]

  loops-IsHealthy :
      (from : State W) (s : System W) (l : Loop)
      → Fetch.Step s.loop l
      → l.received ≡ s.loop.received
      → (l.cancelled ≡ true → IsCancelled c s.shared.world)
      → IsHealthy from s
      → IsHealthy from (record s { loop = l })
  loops-IsHealthy from s l step same sees h = record {
    reached = Fetch.next h.reached step;
    sighted = sees;
    decoded = h.decoded;
    safe = h.safe;
    sound = h.sound;
    calmer = h.calmer;
    inflight = h.inflight;
    complete = λ up p.
        subst (λ ms. Accounted c [] (only p ms) (s.buffers p).msgs s.shared) (sym same)
          (h.complete up p);
  }

  waits-IsHealthy :
      (from : State W) (s : System W) (w : W)
      → (IsCancelled c s.shared.world → IsCancelled c w)
      → calm.patience w ≤ calm.patience s.shared.world
      → IsHealthy from s
      → IsHealthy from (record s { shared = record s.shared { world = w } })
  waits-IsHealthy from s w stays less h = record {
    reached = h.reached;
    sighted = λ e. stays (h.sighted e);
    decoded = h.decoded;
    safe = h.safe;
    sound = λ f. stays (h.sound f);
    calmer = le_trans less h.calmer;
    inflight = h.inflight;
    complete = λ up p.
        let before = unless_cancelled s.shared.world (λ d. stays d up) in
        let a = h.complete before p in
        record { done = a.done; split = a.split; all_done = a.all_done };
  }

  -- A worker that has served `new` changes its own batch only.
  module _ (from : State W) (s : System W) (l : Loop) (p : ℕ) (new : List Message) (b : Buffer)
      (u : State W) (served : Served c s.shared (s.buffers p) new b u)
      (streams : (j : ℕ)
        → only j l.received
          ≡ (if p == j then only j s.loop.received ++ new else only j s.loop.received)) where
    abbrev after : System W
    after = record { loop = l; buffers = put p b s.buffers; shared = u }

    put-IsDecoded : ((j : ℕ) → IsDecoded c (s.buffers j)) → (j : ℕ) → IsDecoded c (after.buffers j)
    put-IsDecoded h j = elim (Bool-cases (p == j)) [
      | inl same ↦ rw same served.decoded
      | inr apart ↦ rw apart (h j)
    ]

    put-IsComplete :
        IsSound c s.shared → c.outside.app_err u.world ≡ none → IsComplete s → IsComplete after
    put-IsComplete sound up h j = elim (Bool-cases (p == j)) [
      | inl same ↦
          let e : p ≡ j = eq_of_test p j same in
          let mine : Accounted c [] (only p s.loop.received) (s.buffers p).msgs s.shared = h p in
          let both : Accounted c [] (only p s.loop.received ++ new) b.msgs u =
            Accounted-trans c [] (s.buffers p).msgs b.msgs (only p s.loop.received) new
              served.evolves mine (served.complete sound up) in
          let here : Accounted c [] (only j s.loop.received ++ new) b.msgs u =
            subst (λ i. Accounted c [] (only i s.loop.received ++ new) b.msgs u) e both in
          rw (streams j, same) here
      | inr apart ↦
          let a = h j in
          let kept : Accounted c [] (only j s.loop.received) (s.buffers j).msgs u = record {
            done = a.done;
            split = a.split;
            all_done = All-IsDone-Extends c a.done served.evolves.extends a.all_done;
          } in
          rw (streams j, apart) kept
    ]

    served-IsHealthy :
        Fetch.Reach l
        → l.cancelled ≡ s.loop.cancelled
        → calm.patience u.world ≤ calm.patience s.shared.world
        → IsHealthy from s
        → IsHealthy from after
    served-IsHealthy reached same less h = record {
      reached = reached;
      sighted = λ e. served.evolves.stays (h.sighted (sym same ∙ e));
      decoded = put-IsDecoded h.decoded;
      safe = served.safe h.safe;
      sound = served.evolves.sound h.sound;
      calmer = le_trans less h.calmer;
      inflight = served.evolves.inflight ∙ h.inflight;
      complete =
          λ up. put-IsComplete h.sound up (h.complete (not_cancelled_before c served.evolves up));
    }

  module _ (elsewhere : W → W → Type 0) (harmless : IsHarmless c calm.patience elsewhere)
      (usable : IsUsable c.cfg) (from : State W) (s : System W) where
    -- What a worker that returns has done.
    returned-Served :
        (is : List Input) (p : ℕ) (b : Buffer) (u : State W)
        → partition_worker c is (s.buffers p) s.shared ≡ some (b, u)
        → IsInt64 from.inflight
        → IsHealthy from s
        → Served c s.shared (s.buffers p) (taken is) b u
    returned-Served is p b u ran range h = Wp_at (Served c s.shared (s.buffers p) (taken is)) ran (
        partition_worker-Served c law (rounds-IsUsable c usable) is (s.buffers p) s.shared
          (h.decoded p) (subst IsInt64 (sym h.inflight) range))

    returned-patience :
        (is : List Input) (p : ℕ) (b : Buffer) (u : State W)
        → partition_worker c is (s.buffers p) s.shared ≡ some (b, u)
        → calm.patience from.world < c.fuel
        → IsHealthy from s
        → calm.patience u.world ≤ calm.patience s.shared.world
    returned-patience is p b u ran fuel h =
        Wt_at (λ _ v. calm.patience v.world ≤ calm.patience s.shared.world) ran
          ((partition_worker-Steady c calm is (s.buffers p)).at s.shared
            (omega (arith, h.calmer, fuel)))

    receive-cancelled : (msg : Message) → (receive msg s.loop).cancelled ≡ s.loop.cancelled
    unfolding receive
    receive-cancelled msg = refl

    Step-IsHealthy :
        {t : System W}
        → Step c elsewhere s t
        → calm.patience from.world < c.fuel
        → IsInt64 from.inflight
        → IsHealthy from s
        → IsHealthy from t
    Step-IsHealthy (loops l step same sees) fuel range h = loops-IsHealthy from s l step same sees h
    Step-IsHealthy (works msg queue b u at ran) fuel range h =
        served-IsHealthy from s (receive msg s.loop) msg.partition (msg ∷ []) b u
          (returned-Served (received msg ∷ []) msg.partition b u ran range h)
          (λ j. only-receive j msg s.loop) (Fetch.next h.reached (take msg queue at))
          (receive-cancelled msg)
          (returned-patience (received msg ∷ []) msg.partition b u ran fuel h) h
    Step-IsHealthy (ticks p b u ran) fuel range h =
        served-IsHealthy from s s.loop p [] b u (returned-Served (ticked ∷ []) p b u ran range h)
          (λ j. only-idle p j s.loop.received) h.reached refl
          (returned-patience (ticked ∷ []) p b u ran fuel h) h
    Step-IsHealthy (waits w moved) fuel range h =
        waits-IsHealthy from s w (harmless.stays s.shared.world w moved)
          (harmless.less s.shared.world w moved) h

  begin-IsHealthy :
      (from : State W) → IsSafe (parsed c) from.trace → IsSound c from → IsHealthy from (begin from)
  unfolding only
  begin-IsHealthy from safe sound = record {
    reached = Fetch.here;
    sighted = λ e. cc;
    decoded = λ p. tt;
    safe = safe;
    sound = sound;
    calmer = le_refl _;
    inflight = refl;
    complete = λ up p. record { done = []; split = refl; all_done = tt };
  }

  pub Reach-IsHealthy :
      {elsewhere : W → W → Type 0} {from : State W} {s : System W}
      → IsHarmless c calm.patience elsewhere
      → IsUsable c.cfg
      → calm.patience from.world < c.fuel
      → IsInt64 from.inflight
      → IsSafe (parsed c) from.trace
      → IsSound c from
      → Reach c elsewhere (begin from) s
      → IsHealthy from s
  Reach-IsHealthy {from = from} harmless usable fuel range safe sound here =
      begin-IsHealthy from safe sound
  Reach-IsHealthy {elsewhere} {from} harmless usable fuel range safe sound (next {t} before step) =
      Step-IsHealthy elsewhere harmless usable from t step fuel range
        (Reach-IsHealthy harmless usable fuel range safe sound before)
