-- ===== src/Kafka/Consumer/Backoff.antt =====
-- `sleepBackoff` and `pauseWithJitter`.
use casino_transaction_syste.Prelude.{ℕ, ◌*◌, ◌^◌, leb, if◌then◌else◌, zero}
use casino_transaction_syste.Prelude.Int.{ℤ, pos, ltb_ℤ, ◌+ℤ◌, ◌*ℤ◌, max_int64, pos_part}
use casino_transaction_syste.Kafka.Consumer.State.{M, ◌>>=◌, move}
use casino_transaction_syste.Kafka.Consumer.Config.{Consumer, random}

-- MaxRetryDelay, five seconds, in nanoseconds.
abbrev pub max_retry_delay : ℕ
max_retry_delay = 5000000000

-- `time.Duration(base)` for a float64: exact up to the largest int64.
abbrev to_duration : (ℕ → ℤ) → ℕ → ℤ
to_duration beyond base = if leb base max_int64 then pos base else beyond base

-- The delay in nanoseconds, capped; base and jitter are milliseconds and nanoseconds.
unfoldable pub delay : (ℕ → ℤ) → ℕ → ℕ → ℕ → ℤ
delay beyond base_ms attempt jitter =
    let d = to_duration beyond (base_ms * 2 ^ attempt) *ℤ pos 1000000 +ℤ pos jitter in
    if ltb_ℤ (pos max_retry_delay) d then pos max_retry_delay else d

module _ {W : Type 0} (c : Consumer W) where
  -- The settings are positive once they are normalised. Where the jitter wraps to less than 1, rand.Int63n
  -- panics, which is left out here.
  unfoldable pub sleep_backoff : ℕ → M W (Unit {0})
  sleep_backoff attempt = do
    jitter ← random c (pos_part (c.cfg.retry_jitter_ms *ℤ pos 1000000))
    move (
        c.outside.sleep
          (delay c.outside.beyond_int64 (pos_part c.cfg.retry_base_delay_ms) attempt jitter))

  unfoldable pub pause_with_jitter : M W (Unit {0})
  pause_with_jitter = sleep_backoff zero
