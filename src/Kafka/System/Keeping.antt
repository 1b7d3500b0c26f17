-- ===== src/Kafka/System/Keeping.antt =====
-- What all calls keep, the loop and the workers keep together.
use casino_transaction_syste.Prelude.{[], ◌∷◌, List}
use casino_transaction_syste.Kafka.Consumer.State.{State, Action}
use casino_transaction_syste.Kafka.Consumer.Config.{Consumer}
use casino_transaction_syste.Kafka.Consumer.Worker.{received, ticked}
use casino_transaction_syste.Kafka.Keeping.{IsKept}
use casino_transaction_syste.Kafka.Keeping.Batches.{partition_worker-Keeps}
use casino_transaction_syste.Kafka.System.{
  System, begin, Step, loops, works, ticks, waits, Reach, here, next,
}
use casino_transaction_syste.Kafka.System.Steps.{Wp_at}

module _ {W : Type 0} (c : Consumer W) (elsewhere : W → W → Type 0) (P : W → List Action → Type 0)
    (kept : IsKept P c.outside)
    (apart : (v w : W) (past : List Action) → elsewhere v w → P v past → P w past) where
  Step-Keeps :
      {s t : System W}
      → Step c elsewhere s t
      → P s.shared.world s.shared.trace
      → P t.shared.world t.shared.trace
  Step-Keeps (loops l step same sees) h = h
  Step-Keeps {s} (works msg queue b u at ran) h =
      Wp_at (λ _ v. P v.world v.trace) ran
        ((partition_worker-Keeps c P kept (received msg ∷ []) (s.buffers msg.partition)).at s.shared
          h)
  Step-Keeps {s} (ticks p b u ran) h =
      Wp_at (λ _ v. P v.world v.trace) ran
        ((partition_worker-Keeps c P kept (ticked ∷ []) (s.buffers p)).at s.shared h)
  Step-Keeps {s} (waits w moved) h = apart s.shared.world w s.shared.trace moved h

  pub Reach-Keeps :
      {from : State W} {s : System W}
      → Reach c elsewhere (begin from) s
      → P from.world from.trace
      → P s.shared.world s.shared.trace
  Reach-Keeps here h = h
  Reach-Keeps (next before step) h = Step-Keeps step (Reach-Keeps before h)
