-- ===== src/Metrics/Flusher.antt =====
-- The goroutine of `Start` in internal/transport/kafka/consumer.go that flushes the metrics, as a step
-- relation with the calls of the sink and the context.
pub mod Counts
pub mod Logged
mod Tests
use casino_transaction_syste.Prelude.{◌≡◌, Bool, true, false, Option, none, some, List, [], ◌∷◌}
use casino_transaction_syste.Metrics.Float.{Float}
use casino_transaction_syste.Metrics.Sink.{
  LogSink, Line, Call, inc_counter, set_gauge, observe_duration, flush, new_log_sink, flush_sink,
  step,
}

pub record Flushing (F : Type 0) : Type 0 where
  pub sink : LogSink F
  -- what was logged, the newest first
  pub lines : List (Line F)
  -- the goroutine has not returned
  pub running : Bool
  pub cancelled : Bool
  -- the calls of the sink but for Flush, the newest first
  pub recorded : List (Call F)

abbrev pub started : {F : Type 0} → Flushing F
started = record {
  sink = new_log_sink;
  lines = [];
  running = true;
  cancelled = false;
  recorded = [];
}

module _ {F : Type 0} where
  abbrev pub logged : Option (Line F) → List (Line F) → List (Line F)
  logged none lines = lines
  logged (some line) lines = line ∷ lines

  -- A call that records, so not Flush.
  abbrev pub IsRecording : Call F → Type 0
  IsRecording (inc_counter name labels value) = Unit
  IsRecording (set_gauge name labels value) = Unit
  IsRecording (observe_duration name labels d) = Unit
  IsRecording flush = ⊥

module _ {F : Type 0} (f : Float F) where
  pub data Step (s : Flushing F) : Flushing F → Type 0 where
    -- the loop, a worker or a repository uses the sink
    records :
        (call : Call F) (line : Option (Line F)) (m : LogSink F)
        → IsRecording call
        → step f call s.sink ≡ some (line, m)
        → Step s (record s { sink = m; recorded = call ∷ s.recorded })
    -- `<-flushTicker.C`
    ticks :
        (line : Option (Line F)) (m : LogSink F)
        → s.running ≡ true
        → flush_sink f s.sink ≡ some (line, m)
        → Step s (record s { sink = m; lines = logged line s.lines })
    -- `<-ctx.Done()`
    ends :
        (line : Option (Line F)) (m : LogSink F)
        → s.running ≡ true
        → s.cancelled ≡ true
        → flush_sink f s.sink ≡ some (line, m)
        → Step s (record s { sink = m; lines = logged line s.lines; running = false })
    cancels : Step s (record s { cancelled = true })

  pub data Reach (s : Flushing F) : Flushing F → Type 0 where
    here : Reach s s
    next : {t u : Flushing F} → Reach s t → Step t u → Reach s u
