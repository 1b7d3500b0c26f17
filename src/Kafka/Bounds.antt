-- ===== src/Kafka/Bounds.antt =====
-- The delay of `sleepBackoff`.
use casino_transaction_syste.Prelude.{ℕ, ◌+◌, ◌*◌, ◌^◌, ◌≤◌, ◌≡◌, arith, ltb, if◌then◌else◌, leb}
use casino_transaction_syste.Prelude.Int.{ℤ, pos, ◌≤ℤ◌, ◌+ℤ◌, ◌*ℤ◌, max_int64}
use casino_transaction_syste.Kafka.Consumer.Backoff.{delay, max_retry_delay}

-- No delay is longer than five seconds, whatever the arithmetic before it gives.
pub delay-le :
    (beyond : ℕ → ℤ) (base_ms attempt jitter : ℕ)
    → delay beyond base_ms attempt jitter ≤ℤ pos max_retry_delay
unfolding delay
delay-le beyond base_ms attempt jitter = ground arith

exact :
    (beyond : ℕ → ℤ) (base jitter : ℕ)
    → base * 1000000 + jitter ≤ max_int64
    → (if leb base max_int64 then pos base else beyond base) *ℤ pos 1000000 +ℤ pos jitter
      ≡ pos (base * 1000000 + jitter)
unfolding ◌*ℤ◌ ◌+ℤ◌
exact beyond base jitter h = ground arith

-- While base * 2 ^ attempt milliseconds and the jitter fit an int64 of nanoseconds, the delay is
-- their sum, or five seconds where the sum is more.
pub delay-exact :
    (beyond : ℕ → ℤ) (base_ms attempt jitter : ℕ)
    → base_ms * 2 ^ attempt * 1000000 + jitter ≤ max_int64
    → delay beyond base_ms attempt jitter
      ≡ pos (
          if ltb max_retry_delay (base_ms * 2 ^ attempt * 1000000 + jitter)
          then max_retry_delay
          else base_ms * 2 ^ attempt * 1000000 + jitter)
unfolding delay
delay-exact beyond base_ms attempt jitter h =
    rw (exact beyond (base_ms * 2 ^ attempt) jitter h) (ground arith)
