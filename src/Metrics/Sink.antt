-- ===== src/Metrics/Sink.antt =====
-- LogSink of internal/observability/metrics/log_sink.go. Its mutex makes each method one step; the
-- operations of float64 are a parameter.
pub mod Tables
pub mod Windows
pub mod Refinement
use casino_transaction_syste.Prelude.{
  ℕ, ◌+◌, ◌/◌, Bool, true, false, if◌then◌else◌, ◌&&◌, Option, none, some, List, [], ◌∷◌, ◌++◌,
  length, Bytes,
}
use casino_transaction_syste.Prelude.Int.{ℤ, pos, negsuc, sub_ℕ, ◌+ℤ◌}
use casino_transaction_syste.Metrics.{Labels, key}
use casino_transaction_syste.Metrics.Float.{Float}
use casino_transaction_syste.Metrics.Stats.{Stats, duration_stats, ◌>>=◌}
use casino_transaction_syste.Metrics.Sink.Tables.{Table, lookup, store, or_else, is_empty}

-- `d.Milliseconds()` of a duration in nanoseconds, rounded towards zero.
unfoldable pub milliseconds : ℤ → ℤ
milliseconds (pos n) = pos (n / 1000000)
milliseconds (negsuc n) = sub_ℕ 0 ((n + 1) / 1000000)

-- A call of the sink; a duration is in nanoseconds.
pub data Call (F : Type 0) : Type 0 where
  inc_counter : Bytes → Labels → ℤ → Call F
  set_gauge : Bytes → Labels → F → Call F
  observe_duration : Bytes → Labels → ℤ → Call F
  flush : Call F

pub record LogSink (F : Type 0) : Type 0 where
  pub counters : Table ℤ
  pub gauges : Table F
  -- the values of each window
  pub timers : Table (List F)

-- The line "metrics_flush" of the log.
pub record Line (F : Type 0) : Type 0 where
  pub counted : Table ℤ
  pub gauged : Table F
  pub timed : Table (Stats F)

abbrev pub new_log_sink : {F : Type 0} → LogSink F
new_log_sink = record { counters = []; gauges = []; timers = [] }

module _ {F : Type 0} (f : Float F) where
  unfoldable pub add_count : Bytes → Labels → ℤ → LogSink F → LogSink F
  unfolding lookup store key
  add_count name labels value m =
      let k = key name labels in
      record m { counters = store k (or_else (pos 0) (lookup k m.counters) +ℤ value) m.counters }

  unfoldable pub put_gauge : Bytes → Labels → F → LogSink F → LogSink F
  unfolding store key
  put_gauge name labels value m = record m { gauges = store (key name labels) value m.gauges }

  unfoldable pub observe : Bytes → Labels → ℤ → LogSink F → LogSink F
  unfolding lookup store key milliseconds
  observe name labels d m =
      let k = key name labels in
      record m {
        timers =
            store k (or_else [] (lookup k m.timers) ++ f.of_int (milliseconds d) ∷ []) m.timers;
      }

  -- The summaries of the windows that are not empty; `none` is a panic.
  unfoldable pub summaries : Table (List F) → Option (Table (Stats F))
  unfolding duration_stats
  summaries [] = some []
  summaries ((k, []) ∷ t) = summaries t
  summaries ((k, v ∷ vs) ∷ t) = do
    s ← duration_stats f (v ∷ vs)
    rest ← summaries t
    some ((k, s) ∷ rest)

  -- Flush, with the line that it logs.
  unfoldable pub flush_sink : LogSink F → Option (Option (Line F) × LogSink F)
  unfolding summaries
  flush_sink m =
      if is_empty m.counters && is_empty m.gauges && is_empty m.timers then some (none, m) else do
        timed ← summaries m.timers
        some
            (some (record { counted = m.counters; gauged = m.gauges; timed = timed }), new_log_sink)

  -- A call, with what it logs.
  unfoldable pub step : Call F → LogSink F → Option (Option (Line F) × LogSink F)
  unfolding add_count put_gauge observe flush_sink
  step (inc_counter name labels value) m = some (none, add_count name labels value m)
  step (set_gauge name labels value) m = some (none, put_gauge name labels value m)
  step (observe_duration name labels d) m = some (none, observe name labels d m)
  step flush m = flush_sink m

  -- Calls in the order in which they get the mutex.
  unfoldable pub run : List (Call F) → LogSink F → Option (LogSink F)
  unfolding step
  run [] m = some m
  run (c ∷ cs) m = do (line, m') ← step c m; run cs m'
