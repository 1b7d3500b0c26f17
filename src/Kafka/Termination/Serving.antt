-- ===== src/Kafka/Termination/Serving.antt =====
-- The return of `partitionWorker`.
use casino_transaction_syste.Prelude.{
  Bool, true, false, Option, none, some, List, [], ◌∷◌, Result, ok, err,
}
use casino_transaction_syste.Prelude.Int.{pos, sub_ℕ}
use casino_transaction_syste.Domain.{Transaction}
use casino_transaction_syste.Errors.{GoError}
use casino_transaction_syste.Kafka.Message.{Message}
use casino_transaction_syste.Kafka.Outside.{IsPatient}
use casino_transaction_syste.Kafka.Consumer.State.{M, ◌>>=◌, ◌>>◌, pure, move}
use casino_transaction_syste.Kafka.Consumer.Config.{Consumer, parsed, app_err}
use casino_transaction_syste.Kafka.Consumer.Handle.{handle_message}
use casino_transaction_syste.Kafka.Consumer.Batch.{gauge_inflight}
use casino_transaction_syste.Kafka.Consumer.Worker.{
  Input, received, closed, ticked, Buffer, no_messages, append, is_full, flush, flush_if,
  take_parsed, serve_unless_done, partition_worker,
}
use casino_transaction_syste.Kafka.Termination.Steady.{
  Steady, Steady-bind, Steady-pure, Steady-ask, Steady-move,
}
use casino_transaction_syste.Kafka.Termination.Methods.{
  gauge_inflight-Steady, handle_message-Steady, flush_batch-Steady,
}

module _ {W : Type 0} (c : Consumer W) (calm : IsPatient c.outside) where
  flush-Steady : (b : Buffer) → Steady calm.patience c.fuel (flush c b)
  unfolding flush
  flush-Steady b = flush_batch-Steady c calm b.msgs b.domains

  flush_if-Steady : (full : Bool) (b : Buffer) → Steady calm.patience c.fuel (flush_if c full b)
  flush_if-Steady true b =
      Steady-bind (flush c b) (λ _. pure no_messages) (flush-Steady b)
        (λ _. Steady-pure no_messages)
  flush_if-Steady false b = Steady-pure b

  take_parsed-Steady :
      (b : Buffer) (msg : Message) (r : Result GoError Transaction)
      → Steady calm.patience c.fuel (take_parsed c b msg r)
  take_parsed-Steady b msg (ok t) = flush_if-Steady (is_full c (append b msg t)) (append b msg t)
  take_parsed-Steady b msg (err e) =
      let last : M W Buffer = gauge_inflight c (sub_ℕ 0 1) >> pure no_messages in
      Steady-bind (flush c b) (λ _. gauge_inflight c (pos 1) >> (handle_message c msg >> last))
        (flush-Steady b)
        (λ _.
          Steady-bind (gauge_inflight c (pos 1)) (λ _. handle_message c msg >> last)
            (gauge_inflight-Steady c calm (pos 1))
            (λ _.
              Steady-bind (handle_message c msg) (λ _. last) (handle_message-Steady c calm msg)
                (λ _.
                  Steady-bind (gauge_inflight c (sub_ℕ 0 1)) (λ _. pure no_messages)
                    (gauge_inflight-Steady c calm (sub_ℕ 0 1)) (λ _. Steady-pure no_messages))))

  serve_unless_done-Steady :
      (again : Buffer → M W Buffer) (b : Buffer) (msg : Message) (done : Option GoError)
      → ((b' : Buffer) → Steady calm.patience c.fuel (again b'))
      → Steady calm.patience c.fuel (serve_unless_done c again b msg done)
  serve_unless_done-Steady again b msg (some d) h = Steady-pure b
  serve_unless_done-Steady again b msg none h =
      Steady-bind (take_parsed c b msg (parsed c msg)) again
        (take_parsed-Steady b msg (parsed c msg)) h

  wait_then :
      {A : Type 0} (m : M W A)
      → Steady calm.patience c.fuel m
      → Steady calm.patience c.fuel (move c.outside.wait >> m)
  wait_then m h =
      Steady-bind (move c.outside.wait) (λ _. m) (Steady-move c.outside.wait calm.wait_patience)
        (λ _. h)

  pub partition_worker-Steady :
      (is : List Input) (b : Buffer) → Steady calm.patience c.fuel (partition_worker c is b)
  unfolding partition_worker
  partition_worker-Steady [] b = Steady-pure b
  partition_worker-Steady (closed ∷ is) b = wait_then (pure b) (Steady-pure b)
  partition_worker-Steady (ticked ∷ is) b =
      wait_then (flush c b >> partition_worker c is no_messages) (
        Steady-bind (flush c b) (λ _. partition_worker c is no_messages) (flush-Steady b)
          (λ _. partition_worker-Steady is no_messages))
  partition_worker-Steady (received msg ∷ is) b =
      let serve : Option GoError → M W Buffer =
        serve_unless_done c (λ b'. partition_worker c is b') b msg in
      wait_then (app_err c >>= serve) (
        Steady-bind (app_err c) serve (Steady-ask c.outside.app_err) (λ done.
          serve_unless_done-Steady (λ b'. partition_worker c is b') b msg done
            (λ b'. partition_worker-Steady is b')))
