-- ===== src/Go/Strings/Split.antt =====
-- `split` and `contains` on a text that holds the separator once.
use casino_transaction_syste.Prelude.{ℕ, ◌≡◌, ◌≢◌, true, [], ◌∷◌, ◌++◌, arith, Bytes, All}
use casino_transaction_syste.Go.Strings.{contains, split}

abbrev pub Lacks : ℕ → Bytes → Type 0
Lacks sep = All (λ c. c ≢ sep)

pub split_lacking : (s : Bytes) (sep : ℕ) → Lacks sep s → split s sep ≡ s ∷ []
unfolding split
split_lacking [] sep h = ground arith
split_lacking (c ∷ s) sep h = ground (arith, split_lacking s sep h.1)

-- Cut once, into what stands before and behind the separator.
pub split_once :
    (s : Bytes) (sep : ℕ) (t : Bytes)
    → Lacks sep s
    → Lacks sep t
    → split (s ++ sep ∷ t) sep ≡ s ∷ t ∷ []
unfolding split
split_once [] sep t hs ht = ground (arith, split_lacking t sep ht)
split_once (c ∷ s) sep t hs ht = ground (arith, split_once s sep t hs.1 ht)

pub contains-append : (s : Bytes) (sep : ℕ) (t : Bytes) → contains (s ++ sep ∷ t) sep ≡ true
unfolding contains
contains-append [] sep t = ground arith
contains-append (c ∷ s) sep t = ground (arith, contains-append s sep t)
