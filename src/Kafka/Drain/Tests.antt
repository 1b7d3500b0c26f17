-- ===== src/Kafka/Drain/Tests.antt =====
-- A drain that runs into its timeout.
use casino_transaction_syste.Prelude.{refl, true}
use casino_transaction_syste.Kafka.Drain.{
  Drain, ended, draining, close_writer, worker_ends, times_out, writer_closes, reader_closes, Run,
  here, next,
}
use casino_transaction_syste.Kafka.Drain.Ending.{IsEnding, draining-IsEnding}

-- One of two workers ends in time.
abbrev late : Drain
late = record {
  phase = ended;
  workers = 1;
  timed_out = true;
  has_writer = true;
  writer_closed = true;
  reader_closed = true;
}

abbrev late_run : Run (draining 2 true) 4 late
unfolding close_writer
late_run =
    next (worker_ends 1 refl)
      (next (times_out refl) (next (writer_closes refl) (next (reader_closes refl) here)))

draining-IsEnding_example : IsEnding (draining 2 true) 4 late
draining-IsEnding_example = draining-IsEnding 2 4 true late late_run
