-- ===== src/Metrics/Flusher/Tests.antt =====
-- A count before the goroutine returns, and one behind it.
use casino_transaction_syste.Prelude.{
  ℕ, ◌≡◌, refl, false, true, some, none, [], ◌∷◌, Bytes, codes, arith,
}
use casino_transaction_syste.Prelude.Int.{pos, ◌+ℤ◌}
use casino_transaction_syste.Metrics.{key}
use casino_transaction_syste.Metrics.Tests.{hundredths, hundredths-IsLawful}
use casino_transaction_syste.Metrics.Sink.{
  Call, inc_counter, Line, LogSink, new_log_sink, flush_sink, summaries, step, add_count,
}
use casino_transaction_syste.Metrics.Sink.Tables.{lookup, store}
use casino_transaction_syste.Metrics.Flusher.{
  Flushing, started, records, ends, cancels, Reach, here, next,
}
use casino_transaction_syste.Metrics.Flusher.Counts.{logged_count, kept_count, tally}
use casino_transaction_syste.Metrics.Flusher.Logged.{Reach-Counted, ended-unlogged}

abbrev committed : Call ℕ
committed = inc_counter (codes "total") [] (pos 2)

abbrev counting : LogSink ℕ
counting = record { counters = (codes "total", pos 2) ∷ []; gauges = []; timers = [] }

abbrev line : Line ℕ
line = record { counted = counting.counters; gauged = []; timed = [] }

-- The goroutine has logged one count and returned.
abbrev returned : Flushing ℕ
returned = record {
  sink = new_log_sink;
  lines = line ∷ [];
  running = false;
  cancelled = true;
  recorded = committed ∷ [];
}

-- A worker counts once more while it drains.
abbrev drained : Flushing ℕ
drained = record returned { sink = counting; recorded = committed ∷ committed ∷ [] }

to_returned : Reach hundredths started returned
unfolding step add_count flush_sink summaries lookup store key ◌+ℤ◌
to_returned =
    let one = next here (records committed none counting tt refl) in
    let two = next one cancels in next two (ends (some line) new_log_sink refl refl refl)

to_drained : Reach hundredths returned drained
unfolding step add_count lookup store key ◌+ℤ◌
to_drained = next here (records committed none counting tt refl)

abbrev total : Bytes
total = codes "total"

Reach-Counted_example :
    logged_count total returned.lines +ℤ kept_count total returned.sink
    ≡ tally total returned.recorded
Reach-Counted_example =
    Reach-Counted hundredths hundredths-IsLawful returned to_returned (omega arith) total

ended-unlogged_example :
    (drained.lines ≡ returned.lines)
    × ((k : Bytes)
        → logged_count k returned.lines +ℤ kept_count k drained.sink ≡ tally k drained.recorded)
ended-unlogged_example =
    ended-unlogged hundredths hundredths-IsLawful returned drained to_returned refl to_drained
      (omega arith)
