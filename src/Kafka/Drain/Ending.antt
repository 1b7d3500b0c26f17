-- ===== src/Kafka/Drain/Ending.antt =====
-- How the drain ends, and in which order it closes things.
use casino_transaction_syste.Prelude.{
  absurd, ℕ, suc, ◌+◌, ◌≤◌, ◌≡◌, ◌⊎◌, inl, inr, refl, subst, Bool, true, false, arith, Bool-cases,
}
use casino_transaction_syste.Kafka.Drain.{
  Phase, waiting, closing_writer, closing_reader, ended, Drain, draining, close_writer, Step,
  worker_ends, drained, times_out, writer_closes, reader_closes, Run, here, next,
}

-- The steps that the function itself still makes.
abbrev pub left : Phase → ℕ
left waiting = 3
left closing_writer = 2
left closing_reader = 1
left ended = 0

abbrev pub measure : Drain → ℕ
measure d = left d.phase + d.workers

-- What is closed in a phase, and that the workers have ended or their time is over.
abbrev pub IsClosing : Phase → Drain → Type 0
IsClosing waiting d = (d.writer_closed ≡ false) × (d.reader_closed ≡ false)
IsClosing closing_writer d =
    (d.writer_closed ≡ false) × (d.reader_closed ≡ false) × ((d.workers ≡ 0) ⊎ (d.timed_out ≡ true))
IsClosing closing_reader d =
    (d.writer_closed ≡ d.has_writer)
    × (d.reader_closed ≡ false)
    × ((d.workers ≡ 0) ⊎ (d.timed_out ≡ true))
IsClosing ended d =
    (d.writer_closed ≡ d.has_writer)
    × (d.reader_closed ≡ true)
    × ((d.workers ≡ 0) ⊎ (d.timed_out ≡ true))

-- A step makes the measure smaller, and keeps the order.
record Moves (d d' : Drain) : Type 0 where
  less : 1 + measure d' ≤ measure d
  closing : IsClosing d'.phase d'

fewer_over :
    (workers n : ℕ) (timed_out : Bool)
    → workers ≡ suc n
    → (workers ≡ 0) ⊎ (timed_out ≡ true)
    → (n ≡ 0) ⊎ (timed_out ≡ true)
fewer_over workers n timed_out e (inl none_left) = absurd (omega arith)
fewer_over workers n timed_out e (inr late) = inr late

fewer :
    (p : Phase) (d : Drain) (n : ℕ)
    → d.workers ≡ suc n
    → IsClosing p d
    → IsClosing p (record d { workers = n })
fewer waiting d n e h = h
fewer closing_writer d n e h = (h.0, h.1, fewer_over d.workers n d.timed_out e h.2)
fewer closing_reader d n e h = (h.0, h.1, fewer_over d.workers n d.timed_out e h.2)
fewer ended d n e h = (h.0, h.1, fewer_over d.workers n d.timed_out e h.2)

at_phase : {p : Phase} (d : Drain) → d.phase ≡ p → IsClosing d.phase d → IsClosing p d
at_phase d e h = subst (λ q. IsClosing q d) e h

close_writer-Moves :
    (d : Drain) → d.phase ≡ closing_writer → IsClosing d.phase d → Moves d (close_writer d)
unfolding close_writer
close_writer-Moves d e h =
    let k = at_phase d e h in
    elim (Bool-cases d.has_writer) [
      | inl there ↦ rw there (record { less = rw e (omega arith); closing = (refl, k.1, k.2) })
      | inr missing ↦ rw missing (record { less = rw e (omega arith); closing = (k.0, k.1, k.2) })
    ]

Step-Moves : {d d' : Drain} → Step d d' → IsClosing d.phase d → Moves d d'
Step-Moves {d} (worker_ends n e) h = record { less = omega arith; closing = fewer d.phase d n e h }
Step-Moves {d} (drained e none_left) h =
    let k = at_phase d e h in
    record { less = rw e (omega arith); closing = (k.0, k.1, inl none_left) }
Step-Moves {d} (times_out e) h =
    let k = at_phase d e h in record { less = rw e (omega arith); closing = (k.0, k.1, inr refl) }
Step-Moves {d} (writer_closes e) h = close_writer-Moves d e h
Step-Moves {d} (reader_closes e) h =
    let k = at_phase d e h in record { less = rw e (omega arith); closing = (k.0, refl, k.2) }

-- The function has ended, or can go on without a worker.
abbrev pub CanGo : Drain → Type 0
CanGo d = (d.phase ≡ ended) ⊎ ((d' : Drain) × Step d d' × (d'.workers ≡ d.workers))

go : (p : Phase) (d : Drain) → d.phase ≡ p → CanGo d
unfolding close_writer
go waiting d e = inr (record d { phase = closing_writer; timed_out = true }, times_out e, refl)
go closing_writer d e = inr (close_writer d, writer_closes e, ground arith)
go closing_reader d e =
    inr (record d { phase = ended; reader_closed = true }, reader_closes e, refl)
go ended d e = inl e

-- What is known after so many steps.
pub record IsEnding (from : Drain) (n : ℕ) (d : Drain) : Type 0 where
  pub bounded : n + measure d ≤ measure from
  pub closing : IsClosing d.phase d
  pub going : CanGo d

Run-Ends : {from d : Drain} {n : ℕ} → IsClosing from.phase from → Run from n d → IsEnding from n d
Run-Ends {from} h here = record {
  bounded = omega arith;
  closing = h;
  going = go from.phase from refl;
}
Run-Ends h (next step run) =
    let m = Step-Moves step h in
    let k = Run-Ends m.closing run in
    record { bounded = omega (arith, m.less, k.bounded); closing = k.closing; going = k.going }

-- Where Close of the writer and of the reader return, the drain behind the fetch loop ends: from so many
-- workers, it makes at most three steps more than
-- there are workers, and until it has ended it can go on whatever the workers do. It closes the reader
-- only behind the writer, and both only once all workers have ended or the timeout has passed.
pub draining-IsEnding :
    (workers n : ℕ) (has_writer : Bool) (d : Drain)
    → Run (draining workers has_writer) n d
    → IsEnding (draining workers has_writer) n d
draining-IsEnding workers n has_writer d run = Run-Ends (refl, refl) run
