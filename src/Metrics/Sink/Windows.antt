-- ===== src/Metrics/Sink/Windows.antt =====
-- The windows of the timers: what they hold, and that a flush can summarise them.
use casino_transaction_syste.Prelude.{
  absurd, ℕ, suc, ◌≤◌, ◌^◌, ◌≡◌, refl, ap, true, ◌&&◌, Option, none, some, List, [], ◌∷◌, ◌++◌,
  length, length-append, Bytes, arith, All, All-append, Bool-cases, inl, inr,
}
use casino_transaction_syste.Prelude.Int.{ℤ}
use casino_transaction_syste.Go.Sort.{eq_bytes}
use casino_transaction_syste.Metrics.{key}
use casino_transaction_syste.Metrics.Float.{Float, IsLawful}
use casino_transaction_syste.Metrics.Stats.{Stats}
use casino_transaction_syste.Metrics.Stats.Sorted.{IsWhole}
use casino_transaction_syste.Metrics.Stats.Total.{IsSummary, duration_stats-IsSummary}
use casino_transaction_syste.Metrics.Sink.{
  LogSink, Line, Call, inc_counter, set_gauge, observe_duration, flush, new_log_sink, add_count,
  put_gauge, observe, summaries, flush_sink, step, milliseconds,
}
use casino_transaction_syste.Metrics.Sink.Tables.{Table, lookup, store, or_else, is_empty}

module _ {A : Type 0} (P : A → Type 0) where
  -- Every value of the table.
  abbrev pub Each : Table A → Type 0
  Each [] = Unit
  Each ((k, v) ∷ t) = P v × Each t

  pub Each-store : (k : Bytes) (v : A) (t : Table A) → P v → Each t → Each (store k v t)
  unfolding store
  Each-store k v [] p h = (p, tt)
  Each-store k v ((l, w) ∷ t) p h = elim (Bool-cases (eq_bytes l k)) [
    | inl same ↦ rw same (p, h.1)
    | inr apart ↦ rw apart (h.0, Each-store k v t p h.1)
  ]

  pub Each-or_else : (k : Bytes) (d : A) (t : Table A) → P d → Each t → P (or_else d (lookup k t))
  unfolding lookup
  Each-or_else k d [] p h = p
  Each-or_else k d ((l, w) ∷ t) p h = elim (Bool-cases (eq_bytes l k)) [
    | inl same ↦ rw same h.0
    | inr apart ↦ rw apart (Each-or_else k d t p h.1)
  ]

pub Each-mono :
    {A : Type 0} {P Q : A → Type 0} → ((v : A) → P v → Q v) → (t : Table A) → Each P t → Each Q t
Each-mono f [] h = tt
Each-mono f ((k, v) ∷ t) h = (f v h.0, Each-mono f t h.1)

module _ {F : Type 0} (f : Float F) where
  -- Whole milliseconds, at most so many.
  abbrev pub IsWithin : ℕ → List F → Type 0
  IsWithin n vs = (length vs ≤ n) × All (IsWhole f) vs

  abbrev pub IsWindow : ℕ → List F → Type 0
  IsWindow n vs = (1 ≤ length vs) × IsWithin n vs

  -- Each window has its summary, under the same key.
  abbrev pub Summarises : Table (List F) → Table (Stats F) → Type 0
  Summarises [] [] = Unit
  Summarises ((k, vs) ∷ t) ((j, s) ∷ ts) = (j ≡ k) × IsSummary f vs s × Summarises t ts
  Summarises t ts = ⊥

  -- What a flush is to log.
  abbrev pub Reports : LogSink F → Option (Line F) → Type 0
  Reports m none = m ≡ new_log_sink
  Reports m (some l) =
      (l.counted ≡ m.counters) × (l.gauged ≡ m.gauges) × Summarises m.timers l.timed

  summaries-Summarises :
      IsLawful f
      → (n : ℕ) → n ≤ 2 ^ 53
      → (t : Table (List F)) → Each (IsWindow n) t
      → (ts : Table (Stats F)) × (summaries f t ≡ some ts) × Summarises t ts
  unfolding summaries
  summaries-Summarises w n b [] h = ([], refl, tt)
  summaries-Summarises w n b ((k, []) ∷ t) h = absurd (omega arith)
  summaries-Summarises w n b ((k, v ∷ vs) ∷ t) h =
      let (s, e, is) =
        duration_stats-IsSummary f w (v ∷ vs) (length vs) h.0.1.1 refl (omega arith) in
      let (ts, es, all) = summaries-Summarises w n b t h.1 in
      ((k, s) ∷ ts, rw (e, es) refl, (refl, is, all))

  is_empty-New :
      (c : Table ℤ) (g : Table F) (t : Table (List F))
      → (is_empty c && is_empty g && is_empty t) ≡ true
      → record { counters = c; gauges = g; timers = t } ≡ new_log_sink {F = F}
  is_empty-New [] [] [] h = refl
  is_empty-New (x ∷ c) g t h = cc
  is_empty-New [] (x ∷ g) t h = cc
  is_empty-New [] [] (x ∷ t) h = cc

  pub flush_sink-Reports :
      IsLawful f
      → (n : ℕ) → n ≤ 2 ^ 53
      → (m : LogSink F) → Each (IsWindow n) m.timers
      → (line : Option (Line F)) × (flush_sink f m ≡ some (line, new_log_sink)) × Reports m line
  unfolding flush_sink
  flush_sink-Reports w n b m h =
      elim (Bool-cases (is_empty m.counters && is_empty m.gauges && is_empty m.timers)) [
        | inl quiet ↦ rw quiet (
          none,
          ap (λ x. some (none, x)) (is_empty-New m.counters m.gauges m.timers quiet),
          is_empty-New m.counters m.gauges m.timers quiet,
        )
        | inr busy ↦
            let (ts, e, all) = summaries-Summarises w n b m.timers h in
            rw (busy, e)
              (
                some (record { counted = m.counters; gauged = m.gauges; timed = ts }),
                refl,
                (refl, refl, all),
              )
      ]

  IsWindow-mono : (n k : ℕ) → n ≤ k → (vs : List F) → IsWindow n vs → IsWindow k vs
  IsWindow-mono n k b vs h = (h.0, (omega arith, h.1.1))

  -- One more value in a window, or the first.
  IsWindow-observe :
      (n : ℕ) (k : Bytes) (i : ℤ) (t : Table (List F))
      → Each (IsWindow n) t
      → IsWindow (suc n) (or_else [] (lookup k t) ++ f.of_int i ∷ [])
  IsWindow-observe n k i t h =
      let vs = or_else [] (lookup k t) in
      let p = Each-or_else (IsWithin n) k [] t (omega arith, tt) (Each-mono (λ v x. x.1) t h) in
      (
        omega (arith, length-append vs (f.of_int i ∷ [])),
        (
          omega (arith, length-append vs (f.of_int i ∷ []), p.0),
          All-append (IsWhole f) vs (f.of_int i ∷ []) p.1 ((i, refl), tt),
        ),
      )

  -- A call, wherever the sink stands, returns, and leaves windows with at most one value more.
  pub step-Each :
      IsLawful f
      → (n : ℕ) → n ≤ 2 ^ 53
      → (c : Call F) (m : LogSink F) → Each (IsWindow n) m.timers
      → (line : Option (Line F)) × (m' : LogSink F) × (step f c m ≡ some (line, m'))
        × Each (IsWindow (suc n)) m'.timers
  unfolding step add_count put_gauge observe
  step-Each w n b (inc_counter name labels v) m h = (
    none,
    add_count f name labels v m,
    refl,
    Each-mono (IsWindow-mono n (suc n) (omega arith)) m.timers h,
  )
  step-Each w n b (set_gauge name labels v) m h = (
    none,
    put_gauge f name labels v m,
    refl,
    Each-mono (IsWindow-mono n (suc n) (omega arith)) m.timers h,
  )
  step-Each w n b (observe_duration name labels d) m h = (
    none,
    observe f name labels d m,
    refl,
    Each-store (IsWindow (suc n)) (key name labels) _ m.timers
        (IsWindow-observe n (key name labels) (milliseconds d) m.timers h)
        (Each-mono (IsWindow-mono n (suc n) (omega arith)) m.timers h),
  )
  step-Each w n b flush m h =
      let (line, e, r) = flush_sink-Reports w n b m h in (line, new_log_sink, e, tt)
