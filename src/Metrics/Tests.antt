-- ===== src/Metrics/Tests.antt =====
-- Concrete metrics.
use casino_transaction_syste.Prelude.{
  ℕ, ◌+◌, ◌-◌, ◌*◌, ◌/◌, ◌≤◌, ◌≡◌, refl, leb, some, List, [], ◌∷◌, Bytes, codes, arith, Permᴰ,
}
use casino_transaction_syste.Prelude.Int.{pos, pos_part}
use casino_transaction_syste.Metrics.{Labels, key, label, label_keys, entries, further}
use casino_transaction_syste.Metrics.Float.{Float, IsLawful}
use casino_transaction_syste.Metrics.Stable.{has_label, key-perm}
use casino_transaction_syste.Go.Sort.{eq_bytes, leb_bytes, insert, sort_strings}
use casino_transaction_syste.Metrics.Stats.{
  duration_stats, sort_floats, insert_float, sum_from, quantile, between, nth,
}
use casino_transaction_syste.Metrics.Sink.{
  Call, inc_counter, observe_duration, LogSink, new_log_sink, run,
}
use casino_transaction_syste.Metrics.Sink.Refinement.{cell_of, cell_run, no_cell, run-cells}
use native.Mathlib.Nat.{mul-le-mul_right}

-- `topic` and `result`, visited in either order.
abbrev labels : Labels
labels = (codes "topic", codes "t") ∷ (codes "result", codes "ok") ∷ []

abbrev visited : Labels
visited = (codes "result", codes "ok") ∷ (codes "topic", codes "t") ∷ []

key-perm_example : key (codes "total") labels ≡ key (codes "total") visited
unfolding has_label eq_bytes
key-perm_example = key-perm (codes "total") labels visited (refl, (refl, tt)) (Permᴰ.swap refl refl)

-- Hundredths, which are enough for values that are not negative.
abbrev pub hundredths : Float ℕ
hundredths = record {
  of_int = λ i. pos_part i * 100;
  add = λ a b. a + b;
  sub = λ a b. a - b;
  mul = λ a b. a * b / 100;
  div = λ a b. a * 100 / b;
  le = leb;
  floor = λ a. pos (a / 100);
  ceil = λ a. pos ((a + 99) / 100);
  half = 50;
  most = 95;
}

part-le : (q x : ℕ) → q ≤ 100 → q * x / 100 ≤ x
part-le q x h = let m = mul-le-mul_right x h in omega (arith, m)

pub hundredths-IsLawful : IsLawful hundredths
hundredths-IsLawful = record {
  half_part = record { positive = refl; below_one = refl; ordered = (refl, refl) };
  most_part = record { positive = refl; below_one = refl; ordered = (refl, refl) };
  of_int_total = λ i j h. ground (arith, h);
  le_trans = λ x y z h k. ground (arith, h, k);
  mul_part = λ q n part b. record {
    small = b;
    sign = ground arith;
    limit =
        ground (arith, part-le q (n * 100) (let above = part.ordered.1 in ground (arith, above)));
  };
  floor_sign = λ x n i. omega arith;
  floor_ceil = λ x n i. omega arith;
  ceil_le = λ x n i. let above = i.limit in ground (arith, above);
}

abbrev calls : List (Call ℕ)
calls =
    inc_counter (codes "total") labels (pos 2)
    ∷ observe_duration (codes "duration") [] (pos 7000000)
    ∷ inc_counter (codes "total") visited (pos 3)
    ∷ observe_duration (codes "duration") [] (pos 3000000)
    ∷ []

run-cells_example :
    (m : LogSink ℕ) × (run hundredths calls new_log_sink ≡ some m)
    × ((k : Bytes) → cell_of k m ≡ cell_run hundredths k calls no_cell)
run-cells_example = run-cells hundredths hundredths-IsLawful calls (omega arith)

duration_stats_run :
    duration_stats hundredths (700 ∷ 300 ∷ 500 ∷ [])
    ≡ some (record { count = 300; avg = 500; p50 = 500; p95 = 680; max = 700 })
unfolding duration_stats sort_floats insert_float sum_from quantile between nth
duration_stats_run = refl

key_run : key (codes "total") labels ≡ codes "total{result=ok,topic=t}"
unfolding key entries further label label_keys sort_strings insert leb_bytes eq_bytes
key_run = refl
