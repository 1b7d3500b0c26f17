-- ===== src/Kafka/Drain.antt =====
-- The deferred function of `Start` behind the fetch loop: the drain of the partition workers with its
-- timeout, `closeWriter` and the close of the reader.
pub mod Ending
mod Tests
use casino_transaction_syste.Prelude.{
  absurd, ℕ, zero, suc, ◌+◌, ◌≤◌, ◌≡◌, ◌⊎◌, inl, inr, refl, Bool, true, false, if◌then◌else◌,
  Option, none, some, arith,
}
use casino_transaction_syste.Errors.{GoError}

-- Where the function is: at the `select`, before closeWriter, before the close of the reader, at the end.
pub data Phase : Type 0 where
  waiting closing_writer closing_reader ended : Phase

pub record Drain : Type 0 where
  pub phase : Phase
  -- the workers that `workersWG` counts
  pub workers : ℕ
  pub timed_out : Bool
  -- `c.writer != nil`
  pub has_writer : Bool
  pub writer_closed : Bool
  pub reader_closed : Bool

-- All channels are closed.
abbrev pub draining : ℕ → Bool → Drain
draining workers has_writer = record {
  phase = waiting;
  workers = workers;
  timed_out = false;
  has_writer = has_writer;
  writer_closed = false;
  reader_closed = false;
}

-- `closeWriter`; its error is only logged.
unfoldable pub close_writer : Drain → Drain
close_writer d =
    if d.has_writer
    then record d { phase = closing_reader; writer_closed = true }
    else record d { phase = closing_reader }

-- A Close that waits for pending writes is a step that comes late; that it returns is taken for granted.
pub data Step (d : Drain) : Drain → Type 0 where
  -- `wg.Done()` of a worker
  worker_ends : (n : ℕ) → d.workers ≡ suc n → Step d (record d { workers = n })
  -- `<-drainDone`
  drained : d.phase ≡ waiting → d.workers ≡ 0 → Step d (record d { phase = closing_writer })
  -- `<-time.After(drainTimeout)`
  times_out : d.phase ≡ waiting → Step d (record d { phase = closing_writer; timed_out = true })
  writer_closes : d.phase ≡ closing_writer → Step d (close_writer d)
  reader_closes :
      d.phase ≡ closing_reader → Step d (record d { phase = ended; reader_closed = true })

-- So many steps.
pub data Run : Drain → ℕ → Drain → Type 0 where
  here : {d : Drain} → Run d 0 d
  next : {d d' d'' : Drain} {n : ℕ} → Step d d' → Run d' n d'' → Run d (suc n) d''
