-- ===== src/Metrics/Flusher/Counts.antt =====
-- Every count that was recorded is logged once, or is still in the sink.
use casino_transaction_syste.Prelude.{
  ℕ, ◌≤◌, ◌^◌, ◌≡◌, refl, sym, ◌∙◌, ap, subst, if◌then◌else◌, Option, none, some, List, [], ◌∷◌,
  length, Bytes, arith, Bool-cases, inl, inr,
}
use casino_transaction_syste.Prelude.Int.{ℤ, pos, ◌+ℤ◌, IsInt64, add-IsInt64}
use casino_transaction_syste.Go.Sort.{eq_bytes}
use casino_transaction_syste.Metrics.{key}
use casino_transaction_syste.Metrics.Float.{Float, IsLawful}
use casino_transaction_syste.Metrics.Sink.{
  LogSink, Line, Call, inc_counter, set_gauge, observe_duration, flush, new_log_sink, flush_sink,
  step,
}
use casino_transaction_syste.Metrics.Sink.Tables.{lookup, or_else}
use casino_transaction_syste.Metrics.Sink.Windows.{
  Each, IsWindow, Reports, flush_sink-Reports, step-Each,
}
use casino_transaction_syste.Metrics.Sink.Refinement.{cell_of, cell_step, after_inj, step-cell}
use casino_transaction_syste.Metrics.Flusher.{
  Flushing, logged, IsRecording, Step, records, ticks, ends, cancels,
}

module _ {F : Type 0} where
  -- What the sink has of a counter, what the log has, and what the calls add up to.
  abbrev pub kept_count : Bytes → LogSink F → ℤ
  kept_count k m = or_else (pos 0) (lookup k m.counters)

  unfoldable pub logged_count : Bytes → List (Line F) → ℤ
  logged_count k [] = pos 0
  logged_count k (line ∷ lines) = logged_count k lines +ℤ or_else (pos 0) (lookup k line.counted)

  unfoldable pub tally : Bytes → List (Call F) → ℤ
  tally k [] = pos 0
  tally k (inc_counter name labels value ∷ cs) =
      if eq_bytes (key name labels) k then tally k cs +ℤ value else tally k cs
  tally k (set_gauge name labels value ∷ cs) = tally k cs
  tally k (observe_duration name labels d ∷ cs) = tally k cs
  tally k (flush ∷ cs) = tally k cs

  logged_count-IsInt64 : (k : Bytes) (lines : List (Line F)) → IsInt64 (logged_count k lines)
  unfolding logged_count
  logged_count-IsInt64 k [] = (omega arith, omega arith)
  logged_count-IsInt64 k (line ∷ lines) = add-IsInt64 (logged_count k lines) _

add_assoc : (a b c : ℤ) → a +ℤ b +ℤ c ≡ a +ℤ (b +ℤ c)
unfolding ◌+ℤ◌
add_assoc a b c = ground arith

add_zero : (a : ℤ) → IsInt64 a → a +ℤ pos 0 ≡ a
unfolding ◌+ℤ◌
add_zero a h = ground arith

module _ {F : Type 0} (f : Float F) where
  -- A flush whose result is known.
  record Flushed (m : LogSink F) (line : Option (Line F)) (m' : LogSink F) : Type 0 where
    reports : Reports f m line
    emptied : m' ≡ new_log_sink

  Reports-of :
      IsLawful f
      → (n : ℕ) → n ≤ 2 ^ 53
      → (m m' : LogSink F) (line : Option (Line F)) → Each (IsWindow f n) m.timers
      → flush_sink f m ≡ some (line, m')
      → Flushed m line m'
  Reports-of w n b m m' line h e =
      let (line', e', r) = flush_sink-Reports f w n b m h in
      record { reports = subst (Reports f m) (line_inj e' e) r; emptied = after_inj f e e' }
    where
      line_or : Option (Option (Line F) × LogSink F) → Option (Line F) → Option (Line F)
      line_or none d = d
      line_or (some (l, x)) d = l

      line_inj :
          {o : Option (Option (Line F) × LogSink F)} {a b : Option (Line F)} {x y : LogSink F}
          → o ≡ some (a, x)
          → o ≡ some (b, y)
          → a ≡ b
      line_inj {a} p q = ap (λ o. line_or o a) (sym p ∙ q)

  -- A flush moves a count from the sink to the log.
  logged-Reports :
      (k : Bytes) (lines : List (Line F)) (m : LogSink F) (line : Option (Line F))
      → Reports f m line
      → logged_count k (logged line lines) ≡ logged_count k lines +ℤ kept_count k m
  unfolding logged_count lookup
  logged-Reports k lines m none r =
      sym (add_zero (logged_count k lines) (logged_count-IsInt64 k lines))
      ∙ ap (λ (x : LogSink F). logged_count k lines +ℤ kept_count k x) (sym r)
  logged-Reports k lines m (some l) r =
      ap (λ t. logged_count k lines +ℤ or_else (pos 0) (lookup k t)) r.0

  -- Where all counts are, as long as the sink has not had too many values to count.
  pub record Counted (s : Flushing F) : Type 0 where
    pub windows : Each (IsWindow f (length s.recorded)) s.sink.timers
    pub counts : (k : Bytes) → logged_count k s.lines +ℤ kept_count k s.sink ≡ tally k s.recorded

  kept-step :
      IsLawful f
      → (n : ℕ) → n ≤ 2 ^ 53
      → (k : Bytes) (call : Call F) (line : Option (Line F)) (m m' : LogSink F)
      → Each (IsWindow f n) m.timers
      → step f call m ≡ some (line, m')
      → kept_count k m' ≡ or_else (pos 0) (cell_step f k call (cell_of k m)).counter
  kept-step w n b k call line m m' h e =
      ap (λ c. or_else (pos 0) c.counter) (step-cell f w n b k call m m' line h e)

  tally-step :
      (k : Bytes) (call : Call F) (cs : List (Call F)) (m : LogSink F) (before : ℤ)
      → IsRecording call
      → before +ℤ kept_count k m ≡ tally k cs
      → before +ℤ or_else (pos 0) (cell_step f k call (cell_of k m)).counter ≡ tally k (call ∷ cs)
  unfolding tally
  tally-step k (inc_counter name labels v) cs m before r h =
      elim (Bool-cases (eq_bytes (key name labels) k)) [
        | inl same ↦ rw same (sym (add_assoc before (kept_count k m) v) ∙ ap (λ (i : ℤ). i +ℤ v) h)
        | inr apart ↦ rw apart h
      ]
  tally-step k (set_gauge name labels v) cs m before r h =
      elim (Bool-cases (eq_bytes (key name labels) k)) [
        | inl same ↦ rw same h
        | inr apart ↦ rw apart h
      ]
  tally-step k (observe_duration name labels d) cs m before r h =
      elim (Bool-cases (eq_bytes (key name labels) k)) [
        | inl same ↦ rw same h
        | inr apart ↦ rw apart h
      ]
  tally-step k flush cs m before r h = absurd r

  -- A flush by the goroutine, whether or not it returns behind it.
  Flushed-Counted :
      (s t : Flushing F) (line : Option (Line F))
      → t.recorded ≡ s.recorded
      → t.lines ≡ logged line s.lines
      → Flushed s.sink line t.sink
      → Counted s
      → Counted t
  unfolding lookup
  Flushed-Counted s t line same new fl h = record {
    windows =
        subst (λ (m : LogSink F). Each (IsWindow f (length t.recorded)) m.timers) (sym fl.emptied)
          tt;
    counts = λ k.
        ap (λ ls. logged_count k ls +ℤ kept_count k t.sink) new
        ∙ ap (λ (m : LogSink F). logged_count k (logged line s.lines) +ℤ kept_count k m) fl.emptied
        ∙ ap (λ (i : ℤ). i +ℤ pos 0) (logged-Reports k s.lines s.sink line fl.reports)
        ∙ add_zero _ (add-IsInt64 (logged_count k s.lines) (kept_count k s.sink))
        ∙ h.counts k
        ∙ ap (tally k) (sym same);
  }

  pub Step-Counted :
      IsLawful f
      → {s t : Flushing F} → Step f s t
      → length t.recorded ≤ 2 ^ 53
      → Counted s
      → Counted t
  Step-Counted w {s} (records call line m recording e) b h =
      let (line', m', e', each) =
        step-Each f w (length s.recorded) (omega arith) call s.sink h.windows in
      record {
        windows =
            subst (λ (x : LogSink F). Each (IsWindow f (length (call ∷ s.recorded))) x.timers)
              (after_inj f e' e) each;
        counts = λ k.
            ap (λ (i : ℤ). logged_count k s.lines +ℤ i)
              (kept-step w (length s.recorded) (omega arith) k call line s.sink m h.windows e)
            ∙ tally-step k call s.recorded s.sink (logged_count k s.lines) recording (h.counts k);
      }
  Step-Counted w {s} {t} (ticks line m on e) b h =
      Flushed-Counted s t line refl refl
        (Reports-of w (length s.recorded) (omega arith) s.sink m line h.windows e) h
  Step-Counted w {s} {t} (ends line m on c e) b h =
      Flushed-Counted s t line refl refl
        (Reports-of w (length s.recorded) (omega arith) s.sink m line h.windows e) h
  Step-Counted w cancels b h = record { windows = h.windows; counts = h.counts }

  pub recorded-grows : {s t : Flushing F} → Step f s t → length s.recorded ≤ length t.recorded
  recorded-grows (records call line m recording e) = omega arith
  recorded-grows (ticks line m on e) = omega arith
  recorded-grows (ends line m on c e) = omega arith
  recorded-grows cancels = omega arith
