-- ===== src/Metrics/Sink/Refinement.antt =====
-- The sink against its specification: each key is a cell of its own that a flush empties.
use casino_transaction_syste.Prelude.{
  ℕ, suc, ◌+◌, ◌≤◌, ◌^◌, ◌≡◌, refl, sym, ◌∙◌, ap, subst, if◌then◌else◌, Option, none, some, List,
  [], ◌∷◌, ◌++◌, length, Bytes, arith, Bool-cases, inl, inr,
}
use casino_transaction_syste.Prelude.Int.{ℤ, pos, ◌+ℤ◌}
use casino_transaction_syste.Go.Sort.{eq_bytes}
use casino_transaction_syste.Metrics.{Labels, key}
use casino_transaction_syste.Metrics.Float.{Float, IsLawful}
use casino_transaction_syste.Metrics.Sink.{
  LogSink, Line, Call, inc_counter, set_gauge, observe_duration, flush, new_log_sink, add_count,
  put_gauge, observe, step, run, milliseconds,
}
use casino_transaction_syste.Metrics.Sink.Tables.{lookup, or_else, lookup-update}
use casino_transaction_syste.Metrics.Sink.Windows.{Each, IsWindow, flush_sink-Reports, step-Each}

-- What one key stands for: the sum since the last flush, the last value set, the values observed.
pub record Cell (F : Type 0) : Type 0 where
  pub counter : Option ℤ
  pub gauge : Option F
  pub timer : Option (List F)

abbrev pub no_cell : {F : Type 0} → Cell F
no_cell = record { counter = none; gauge = none; timer = none }

abbrev pub cell_of : {F : Type 0} → Bytes → LogSink F → Cell F
cell_of k m = record {
  counter = lookup k m.counters;
  gauge = lookup k m.gauges;
  timer = lookup k m.timers;
}

module _ {F : Type 0} (f : Float F) where
  -- What a call does to the cell of a key.
  abbrev pub cell_step : Bytes → Call F → Cell F → Cell F
  cell_step k (inc_counter name labels v) c =
      if eq_bytes (key name labels) k
      then record c { counter = some (or_else (pos 0) c.counter +ℤ v) }
      else c
  cell_step k (set_gauge name labels v) c =
      if eq_bytes (key name labels) k then record c { gauge = some v } else c
  cell_step k (observe_duration name labels d) c =
      if eq_bytes (key name labels) k
      then record c { timer = some (or_else [] c.timer ++ f.of_int (milliseconds d) ∷ []) }
      else c
  cell_step k flush c = no_cell

  abbrev pub cell_run : Bytes → List (Call F) → Cell F → Cell F
  cell_run k [] c = c
  cell_run k (x ∷ xs) c = cell_run k xs (cell_step k x c)

  add_count-cell :
      (k name : Bytes) (labels : Labels) (v : ℤ) (m : LogSink F)
      → cell_of k (add_count f name labels v m)
        ≡ cell_step k (inc_counter name labels v) (cell_of k m)
  unfolding add_count
  add_count-cell k name labels v m =
      let e = lookup-update k (key name labels) (λ o. or_else (pos 0) o +ℤ v) m.counters in
      elim (Bool-cases (eq_bytes (key name labels) k)) [
        | inl same ↦ rw same (ap (λ o. record (cell_of k m) { counter = o }) (rw same at e))
        | inr apart ↦ rw apart (ap (λ o. record (cell_of k m) { counter = o }) (rw apart at e))
      ]

  put_gauge-cell :
      (k name : Bytes) (labels : Labels) (v : F) (m : LogSink F)
      → cell_of k (put_gauge f name labels v m)
        ≡ cell_step k (set_gauge name labels v) (cell_of k m)
  unfolding put_gauge
  put_gauge-cell k name labels v m =
      let e = lookup-update k (key name labels) (λ o. v) m.gauges in
      elim (Bool-cases (eq_bytes (key name labels) k)) [
        | inl same ↦ rw same (ap (λ o. record (cell_of k m) { gauge = o }) (rw same at e))
        | inr apart ↦ rw apart (ap (λ o. record (cell_of k m) { gauge = o }) (rw apart at e))
      ]

  observe-cell :
      (k name : Bytes) (labels : Labels) (d : ℤ) (m : LogSink F)
      → cell_of k (observe f name labels d m)
        ≡ cell_step k (observe_duration name labels d) (cell_of k m)
  unfolding observe
  observe-cell k name labels d m =
      let new = λ (o : Option (List F)). or_else [] o ++ f.of_int (milliseconds d) ∷ [] in
      let e = lookup-update k (key name labels) new m.timers in
      elim (Bool-cases (eq_bytes (key name labels) k)) [
        | inl same ↦ rw same (ap (λ o. record (cell_of k m) { timer = o }) (rw same at e))
        | inr apart ↦ rw apart (ap (λ o. record (cell_of k m) { timer = o }) (rw apart at e))
      ]

  -- The outcome of a call, if it is not a panic.
  pub after : Option (Option (Line F) × LogSink F) → LogSink F → LogSink F
  after none m = m
  after (some (line, m')) m = m'

  pub after_inj :
      {o : Option (Option (Line F) × LogSink F)} {a b : Option (Line F)} {x y : LogSink F}
      → o ≡ some (a, x)
      → o ≡ some (b, y)
      → x ≡ y
  unfolding after
  after_inj {x} e g = ap (λ o. after o x) (sym e ∙ g)

  pub step-cell :
      IsLawful f
      → (n : ℕ) → n ≤ 2 ^ 53
      → (k : Bytes) (c : Call F) (m m' : LogSink F) (line : Option (Line F))
      → Each (IsWindow f n) m.timers
      → step f c m ≡ some (line, m')
      → cell_of k m' ≡ cell_step k c (cell_of k m)
  unfolding step lookup
  step-cell w n b k (inc_counter name labels v) m m' line h e =
      ap (cell_of k) (after_inj e refl) ∙ add_count-cell k name labels v m
  step-cell w n b k (set_gauge name labels v) m m' line h e =
      ap (cell_of k) (after_inj e refl) ∙ put_gauge-cell k name labels v m
  step-cell w n b k (observe_duration name labels d) m m' line h e =
      ap (cell_of k) (after_inj e refl) ∙ observe-cell k name labels d m
  step-cell w n b k flush m m' line h e =
      ap (cell_of k) (after_inj e (flush_sink-Reports f w n b m h).1)

  record Follows (cs : List (Call F)) (n : ℕ) (m m' : LogSink F) : Type 0 where
    ran : run f cs m ≡ some m'
    cells : (k : Bytes) → cell_of k m' ≡ cell_run k cs (cell_of k m)
    windows : Each (IsWindow f (n + length cs)) m'.timers

  run-Follows :
      IsLawful f
      → (cs : List (Call F)) (n : ℕ) → n + length cs ≤ 2 ^ 53
      → (m : LogSink F) → Each (IsWindow f n) m.timers
      → (m' : LogSink F) × Follows cs n m m'
  unfolding run
  run-Follows w [] n b m h = (
    m,
    record {
      ran = refl;
      cells = λ k. refl;
      windows = subst (λ j. Each (IsWindow f j) m.timers) (omega arith) h;
    },
  )
  run-Follows w (c ∷ cs) n b m h =
      let (line, m1, e, h1) = step-Each f w n (omega arith) c m h in
      let (m2, k) = run-Follows w cs (suc n) (omega arith) m1 h1 in
      (
        m2,
        record {
          ran = rw e k.ran;
          cells =
              λ j. k.cells j ∙ ap (cell_run j cs) (step-cell w n (omega arith) j c m m1 line h e);
          windows = subst (λ i. Each (IsWindow f i) m2.timers) (omega arith) k.windows;
        },
      )

  -- Any at most 2^53 calls of a new sink return, if the float operations are lawful; then each key has
  -- in the sink what its cell has: the wrapped sum of its increments, the last gauge set and the
  -- durations observed, all since the last flush; and calls with other keys do not change it.
  pub run-cells :
      IsLawful f
      → (cs : List (Call F)) → length cs ≤ 2 ^ 53
      → (m : LogSink F) × (run f cs new_log_sink ≡ some m)
        × ((k : Bytes) → cell_of k m ≡ cell_run k cs no_cell)
  unfolding lookup
  run-cells w cs b =
      let (m, k) = run-Follows w cs 0 (omega arith) new_log_sink tt in (m, k.ran, k.cells)
