-- ===== src/Metrics.antt =====
-- Key of internal/observability/metrics/sink.go: one text for a metric's name and its labels.
pub mod Stable
pub mod Float
pub mod Stats
pub mod Sink
pub mod Flusher
mod Tests
use casino_transaction_syste.Prelude.{
  Bool, true, false, if◌then◌else◌, List, [], ◌∷◌, ◌++◌, Bytes, codes,
}
use casino_transaction_syste.Go.Sort.{eq_bytes, sort_strings}

-- The map, in the order in which `range` visits it.
abbrev pub Labels : Type 0
Labels = List (Bytes × Bytes)

unfoldable pub label_keys : Labels → List Bytes
label_keys [] = []
label_keys ((k, v) ∷ labels) = k ∷ label_keys labels

-- `labels[k]`, which is empty where there is no such label.
unfoldable pub label : Bytes → Labels → Bytes
label k [] = []
label k ((l, v) ∷ labels) = if eq_bytes l k then v else label k labels

abbrev pub entry : Labels → Bytes → Bytes
entry labels k = k ++ codes "=" ++ label k labels

-- The entries behind the first, each behind a comma.
unfoldable pub further : Labels → List Bytes → Bytes
further labels [] = []
further labels (k ∷ ks) = codes "," ++ entry labels k ++ further labels ks

unfoldable pub entries : Labels → List Bytes → Bytes
unfolding further
entries labels [] = []
entries labels (k ∷ ks) = entry labels k ++ further labels ks

unfoldable pub key : Bytes → Labels → Bytes
unfolding entries label_keys sort_strings
key name [] = name
key name (l ∷ labels) =
    name ++ codes "{" ++ entries (l ∷ labels) (sort_strings (label_keys (l ∷ labels))) ++ codes "}"
