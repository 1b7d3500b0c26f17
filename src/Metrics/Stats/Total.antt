-- ===== src/Metrics/Stats/Total.antt =====
-- The summary of a window of durations, for float operations that keep the order.
use casino_transaction_syste.Prelude.{
  absurd, ℕ, zero, suc, ◌≤◌, ◌<◌, ◌^◌, ◌≡◌, refl, ◌∙◌, ap, true, Option, some, List, [], ◌∷◌,
  length, arith, Bool-cases, inl, inr, All,
}
use casino_transaction_syste.Prelude.Int.{ℤ, pos, negsuc, sub_ℕ, ◌≤ℤ◌}
use casino_transaction_syste.Metrics.Float.{Float, IsPart, IsLawful}
use casino_transaction_syste.Metrics.Stats.Sorted.{IsWhole, sort-greatest}
use casino_transaction_syste.Metrics.Stats.{
  Stats, eq_ℤ, nth, index, insert_float, sort_floats, sum_from, between, quantile, duration_stats,
}

sub_one : (n : ℕ) → sub_ℕ (suc n) 1 ≡ pos n
sub_one n = ground arith

module _ {F : Type 0} where
  -- An index in range gives a value.
  abbrev pub Given : Option F → Type 0
  Given o = (x : F) × (o ≡ some x)

  nth-Given : (xs : List F) (n : ℕ) → n < length xs → Given (nth xs n)
  unfolding nth
  nth-Given [] n h = absurd (omega arith)
  nth-Given (x ∷ xs) zero h = (x, refl)
  nth-Given (x ∷ xs) (suc n) h = nth-Given xs n (omega arith)

  index-Given :
      (xs : List F) (i : ℤ) (n : ℕ)
      → length xs ≡ suc n
      → pos 0 ≤ℤ i
      → i ≤ℤ pos n
      → Given (index xs i)
  index-Given xs (pos i) n l low high = nth-Given xs i (omega arith)
  index-Given xs (negsuc i) n l low high = absurd (omega arith)

  index-last :
      (xs : List F) (n : ℕ) (x : F)
      → length xs ≡ suc n
      → nth xs n ≡ some x
      → index xs (sub_ℕ (length xs) 1) ≡ some x
  index-last xs n x l e = ap (λ m. index xs (sub_ℕ m 1)) l ∙ ap (λ i. index xs i) (sub_one n) ∙ e

module _ {F : Type 0} (f : Float F) where
  insert_float-length : (x : F) (xs : List F) → length (insert_float f x xs) ≡ suc (length xs)
  unfolding insert_float
  insert_float-length x [] = refl
  insert_float-length x (y ∷ ys) = ground (arith, insert_float-length x ys)

  sort_floats-length : (xs : List F) → length (sort_floats f xs) ≡ length xs
  unfolding sort_floats
  sort_floats-length [] = refl
  sort_floats-length (x ∷ xs) =
      insert_float-length x (sort_floats f xs) ∙ ap suc (sort_floats-length xs)

  -- The place of a quantile in values that stand in order, counted from 0.
  abbrev pub place : List F → F → F
  place [] q = f.of_int (pos 0)
  place (x ∷ xs) q = f.mul q (f.of_int (pos (length xs)))

  -- How far behind the value at `i` it is.
  abbrev pub beyond : List F → F → ℕ → F
  beyond xs q i = f.sub (place xs q) (f.of_int (pos i))

  -- Linear interpolation: the value at the place, or the two values round it, each by how near it is.
  pub data IsQuantile (xs : List F) (q : F) : F → Type 0 where
    exact :
        {i : ℕ} {a : F}
        → f.floor (place xs q) ≡ pos i
        → f.ceil (place xs q) ≡ pos i
        → nth xs i ≡ some a
        → IsQuantile xs q a
    mixed :
        {i j : ℕ} {a b : F}
        → f.floor (place xs q) ≡ pos i
        → f.ceil (place xs q) ≡ pos j
        → i < j
        → nth xs i ≡ some a
        → nth xs j ≡ some b
        → IsQuantile xs q
            (f.add (f.mul a (f.sub (f.of_int (pos 1)) (beyond xs q i))) (f.mul b (beyond xs q i)))

  between-Given :
      (xs : List F) (q : F) (left right : ℤ) (n : ℕ)
      → f.floor (place xs q) ≡ left
      → f.ceil (place xs q) ≡ right
      → length xs ≡ suc n
      → pos 0 ≤ℤ left
      → left ≤ℤ right
      → right ≤ℤ pos n
      → (p : F) × (between f xs (place xs q) left right ≡ some p) × IsQuantile xs q p
  unfolding between
  between-Given xs q (negsuc i) right n fl ce l low mid high = absurd (omega arith)
  between-Given xs q (pos i) (negsuc j) n fl ce l low mid high = absurd (omega arith)
  between-Given xs q (pos i) (pos j) n fl ce l low mid high =
      let (a, ga) = nth-Given xs i (omega arith) in
      let (b, gb) = nth-Given xs j (omega arith) in
      elim (Bool-cases (eq_ℤ (pos i) (pos j))) [
        | inl same ↦ rw same (a, ga, exact fl (ce ∙ ap pos (ground (arith, same))) ga)
        | inr apart ↦ rw (apart, ga, gb) (_, refl, mixed fl ce (ground (arith, apart, mid)) ga gb)
      ]

  quantile-Given :
      IsLawful f
      → (xs : List F) (q : F) (n : ℕ) → IsPart f q
      → length xs ≡ suc n
      → n ≤ 2 ^ 53
      → (p : F) × (quantile f xs q ≡ some p) × IsQuantile xs q p
  unfolding quantile
  quantile-Given w [] q n part l h = absurd (omega arith)
  quantile-Given w (x ∷ xs) q n part l h =
      let at = f.mul q (f.of_int (pos (length xs))) in
      let i = w.mul_part q (length xs) part (omega arith) in
      rw (part.positive, part.below_one)
        (between-Given (x ∷ xs) q (f.floor at) (f.ceil at) (length xs) refl refl refl
          (w.floor_sign at (length xs) i) (w.floor_ceil at (length xs) i)
          (w.ceil_le at (length xs) i))

  -- What the summary says of the values.
  pub record IsSummary (values : List F) (s : Stats F) : Type 0 where
    pub counted : s.count ≡ f.of_int (pos (length values))
    pub greatest : All (λ x. f.le x s.max ≡ true) values
    pub mean :
        s.avg
        ≡ f.div
            (sum_from f (f.of_int (pos 0)) (sort_floats f values))
            (f.of_int (pos (length values)))
    pub median : IsQuantile (sort_floats f values) f.half s.p50
    pub tail : IsQuantile (sort_floats f values) f.most s.p95

  duration_stats-parts :
      (values : List F) (p50 p95 max : F)
      → quantile f (sort_floats f values) f.half ≡ some p50
      → quantile f (sort_floats f values) f.most ≡ some p95
      → index (sort_floats f values) (sub_ℕ (length (sort_floats f values)) 1) ≡ some max
      → duration_stats f values
        ≡ some (record {
          count = f.of_int (pos (length (sort_floats f values)));
          avg =
              f.div
                (sum_from f (f.of_int (pos 0)) (sort_floats f values))
                (f.of_int (pos (length (sort_floats f values))));
          p50 = p50;
          p95 = p95;
          max = max;
        })
  unfolding duration_stats
  duration_stats-parts values p50 p95 max e50 e95 em = rw (e50, e95, em) refl

  pub duration_stats-IsSummary :
      IsLawful f
      → (values : List F) (n : ℕ) → All (IsWhole f) values
      → length values ≡ suc n
      → n ≤ 2 ^ 53
      → (s : Stats F) × (duration_stats f values ≡ some s) × IsSummary values s
  unfolding duration_stats
  duration_stats-IsSummary w values n whole l h =
      let sorted = sort_floats f values in
      let k = sort_floats-length values ∙ l in
      let (p50, e50, is50) = quantile-Given w sorted f.half n w.half_part k h in
      let (p95, e95, is95) = quantile-Given w sorted f.most n w.most_part k h in
      let (max, en) = nth-Given sorted n (omega arith) in
      let em = index-last sorted n max k en in
      (
        _,
        duration_stats-parts values p50 p95 max e50 e95 em,
        record {
          counted = ap (λ m. f.of_int (pos m)) (sort_floats-length values);
          greatest = sort-greatest f w values n max whole k en;
          mean =
              ap (λ m. f.div (sum_from f (f.of_int (pos 0)) sorted) (f.of_int (pos m)))
                (sort_floats-length values);
          median = is50;
          tail = is95;
        },
      )
