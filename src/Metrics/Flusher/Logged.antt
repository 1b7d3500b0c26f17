-- ===== src/Metrics/Flusher/Logged.antt =====
-- What is logged of the counts, while the goroutine runs and after it.
use casino_transaction_syste.Prelude.{
  ◌≤◌, ◌^◌, ◌≡◌, refl, sym, ◌∙◌, ap, false, length, Bytes, arith,
}
use casino_transaction_syste.Prelude.Int.{◌+ℤ◌}
use casino_transaction_syste.Metrics.Float.{Float, IsLawful}
use casino_transaction_syste.Metrics.Sink.Tables.{lookup}
use casino_transaction_syste.Metrics.Flusher.{
  Flushing, started, Step, records, ticks, ends, cancels, Reach, here, next,
}
use casino_transaction_syste.Metrics.Flusher.Counts.{
  logged_count, kept_count, tally, Counted, Step-Counted, recorded-grows,
}

module _ {F : Type 0} (f : Float F) where
  -- In every state that the sink of Start and the goroutine that flushes it reach together, with at most
  -- 2^53 recording calls and lawful float operations: for each counter, the counts logged so far and the
  -- one still in the sink add up, in wrapping arithmetic, to what the calls have recorded; no count is
  -- lost, and none is logged twice.
  pub Reach-Counted :
      IsLawful f
      → (s : Flushing F) → Reach f started s
      → length s.recorded ≤ 2 ^ 53
      → (k : Bytes) → logged_count k s.lines +ℤ kept_count k s.sink ≡ tally k s.recorded
  unfolding logged_count tally lookup ◌+ℤ◌
  Reach-Counted w s reach b = (go reach b).counts
    where
      go : {s : Flushing F} → Reach f started s → length s.recorded ≤ 2 ^ 53 → Counted f s
      go here b = record { windows = tt; counts = λ k. refl }
      go (next before step) b =
          Step-Counted f w step b (go before (omega (arith, recorded-grows f step)))

  quiet :
      {s t : Flushing F}
      → Step f s t
      → s.running ≡ false
      → (t.running ≡ false) × (t.lines ≡ s.lines)
  quiet (records call line m recording e) off = (off, refl)
  quiet (ticks line m on e) off = cc
  quiet (ends line m on c e) off = cc
  quiet cancels off = (off, refl)

  Reach-quiet :
      {s t : Flushing F}
      → Reach f s t
      → s.running ≡ false
      → (t.running ≡ false) × (t.lines ≡ s.lines)
  Reach-quiet here off = (off, refl)
  Reach-quiet (next before step) off =
      let (still, same) = Reach-quiet before off in
      let (off', same') = quiet step still in (off', same' ∙ same)

  Reach-trans : {s t u : Flushing F} → Reach f s t → Reach f t u → Reach f s u
  Reach-trans a here = a
  Reach-trans a (next b step) = next (Reach-trans a b) step

  -- Behind a state in which the goroutine has returned, with at most 2^53 recording calls by the end and
  -- lawful float operations: nothing more is logged, and each counter of the sink is what the calls have
  -- recorded, less what was logged by then.
  pub ended-unlogged :
      IsLawful f
      → (s t : Flushing F) → Reach f started s
      → s.running ≡ false
      → Reach f s t
      → length t.recorded ≤ 2 ^ 53
      → (t.lines ≡ s.lines)
        × ((k : Bytes) → logged_count k s.lines +ℤ kept_count k t.sink ≡ tally k t.recorded)
  ended-unlogged w s t before off after b =
      let same = (Reach-quiet after off).1 in
      (
        same,
        λ k.
            ap (λ ls. logged_count k ls +ℤ kept_count k t.sink) (sym same)
            ∙ Reach-Counted w t (Reach-trans before after) b k,
      )
