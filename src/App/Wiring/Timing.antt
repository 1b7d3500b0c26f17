-- ===== src/App/Wiring/Timing.antt =====
-- The durations, where they fit an int64 of nanoseconds.
use casino_transaction_syste.Prelude.{ℕ, ◌*◌, ◌≤◌, ◌≡◌, arith}
use casino_transaction_syste.Prelude.Int.{ℤ, pos, negsuc, pos_part, max_int64, ◌*ℤ◌, ◌≤ℤ◌}
use casino_transaction_syste.Config.{Kafka, positive_or}
use casino_transaction_syste.Kafka.Settings.{normalize}
use casino_transaction_syste.App.Wiring.{Durations, durations_of, seconds, milliseconds}

-- So many of these units, where they are positive and fit an int64 of nanoseconds.
abbrev pub IsTimes : ℤ → ℕ → ℤ → Type 0
IsTimes n unit d = (d ≡ pos (pos_part n * unit)) × (pos 1 ≤ℤ d)

-- What the settings may be at most.
pub record IsBounded (k : Kafka) : Type 0 where
  pub metrics_flush : pos_part k.metrics_flush_sec * 1000000000 ≤ max_int64
  pub batch_flush : pos_part k.batch_flush_interval_sec * 1000000000 ≤ max_int64
  pub drain : pos_part k.shutdown_drain_timeout_sec * 1000000000 ≤ max_int64
  pub process : pos_part k.process_timeout_ms * 1000000 ≤ max_int64

pub record IsExact (k : Kafka) (d : Durations) : Type 0 where
  pub metrics_flush : IsTimes k.metrics_flush_sec 1000000000 d.metrics_flush
  pub batch_flush : IsTimes k.batch_flush_interval_sec 1000000000 d.batch_flush
  pub drain : IsTimes k.shutdown_drain_timeout_sec 1000000000 d.drain
  pub process : IsTimes k.process_timeout_ms 1000000 d.process

seconds-IsTimes :
    (d : ℕ) (n : ℤ)
    → 1 ≤ d
    → d ≤ 60
    → pos_part n * 1000000000 ≤ max_int64
    → IsTimes (positive_or d n) 1000000000 (seconds (positive_or d n))
unfolding ◌*ℤ◌
seconds-IsTimes d (pos n) h k b = (ground arith, ground arith)
seconds-IsTimes d (negsuc n) h k b = (ground arith, ground arith)

milliseconds-IsTimes :
    (n : ℤ)
    → pos_part n * 1000000 ≤ max_int64
    → IsTimes (positive_or 5000 n) 1000000 (milliseconds (positive_or 5000 n))
unfolding ◌*ℤ◌
milliseconds-IsTimes (pos n) b = (ground arith, ground arith)
milliseconds-IsTimes (negsuc n) b = (ground arith, ground arith)

-- Where the settings for Kafka fit an int64 of nanoseconds, zero and negative ones included, the periods
-- of both tickers and both timeouts of the consumer are those of the normalised settings, without a wrap,
-- and they are positive, as time.NewTicker demands.
pub durations_of-IsExact : (k : Kafka) → IsBounded k → IsExact (normalize k) (durations_of k)
unfolding durations_of normalize
durations_of-IsExact k b = record {
  metrics_flush =
      seconds-IsTimes 15 k.metrics_flush_sec (omega arith) (omega arith) b.metrics_flush;
  batch_flush =
      seconds-IsTimes 5 k.batch_flush_interval_sec (omega arith) (omega arith) b.batch_flush;
  drain = seconds-IsTimes 60 k.shutdown_drain_timeout_sec (omega arith) (omega arith) b.drain;
  process = milliseconds-IsTimes k.process_timeout_ms b.process;
}
