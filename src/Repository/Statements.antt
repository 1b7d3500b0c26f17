-- ===== src/Repository/Statements.antt =====
-- The statements that the repository runs.
use Prim.Native.String.{◌++◌ as append}
use package.text.Mathlib.TextLemmas.{append_assoc as append_assoc_text}
use casino_transaction_syste.Prelude.{
  ap, suc, ℕ, ◌+◌, ◌*◌, ◌≡◌, refl, ◌∙◌, sym, true, String, none, some, List, [], ◌∷◌, ◌++◌,
  append-nil, append_assoc, length, arith,
}
use casino_transaction_syste.Prelude.Int.{ℤ, pos, ◌≤ℤ◌, ltb_ℤ}
use casino_transaction_syste.Go.Strconv.Itoa.{itoa}
use casino_transaction_syste.Domain.{TransactionType, Transaction}
use casino_transaction_syste.Repository.{
  Arg, number, text, args_of, insert_into, on_conflict, save_statement, placeholders, collect, join,
  bulk_statement, get_base, order_by, get_statement,
}

-- The arguments of some transactions, one after the other.
abbrev pub all_args : List Transaction → List Arg
all_args [] = []
all_args (t ∷ ts) = args_of t ++ all_args ts

-- The groups of placeholders from the i-th on.
abbrev pub groups_from : ℕ → List Transaction → List String
groups_from i [] = []
groups_from i (t ∷ ts) = placeholders i ∷ groups_from (i + 1) ts

collect-all :
    (i : ℕ) (strings : List String) (args : List Arg) (ts : List Transaction)
    → collect i strings args ts ≡ (strings ++ groups_from i ts, args ++ all_args ts)
unfolding collect
collect-all i strings args [] = rw (append-nil strings, append-nil args) refl
collect-all i strings args (t ∷ ts) =
    collect-all (i + 1) (strings ++ placeholders i ∷ []) (args ++ args_of t) ts
    ∙ rw
        (
          append_assoc strings (placeholders i ∷ []) (groups_from (i + 1) ts),
          append_assoc args (args_of t) (all_args ts),
        )
        refl

-- The bulk insert has a group of placeholders for each transaction and as many arguments, those of
-- each transaction in its order.
pub bulk_statement_lem :
    (ts : List Transaction)
    → bulk_statement ts ≡ record {
      query = append insert_into (append (join "," (groups_from 0 ts)) on_conflict);
      args = all_args ts;
    }
unfolding bulk_statement
bulk_statement_lem ts = rw (collect-all 0 [] [] ts) refl

length-all_args : (ts : List Transaction) → length (all_args ts) ≡ length ts * 4
length-all_args [] = omega arith
length-all_args (t ∷ ts) = omega (arith, length-all_args ts)

all_args-append : (a b : List Transaction) → all_args (a ++ b) ≡ all_args a ++ all_args b
all_args-append [] b = refl
all_args-append (t ∷ a) b =
    rw (all_args-append a b) (sym (append_assoc (args_of t) (all_args a) (all_args b)))

-- `$n` stands for the n-th argument, counted from 1: the names of these arguments behind k others.
abbrev pub dollars : ℕ → List Arg → List String
dollars k [] = []
dollars k (a ∷ args) = append "$" (itoa (suc k)) ∷ dollars (suc k) args

-- The row of VALUES that names them.
abbrev pub row_at : ℕ → List Arg → String
row_at k args = append "(" (append (join ", " (dollars k args)) ")")

opened : (x : String) → append "($" x ≡ append "(" (append "$" x)
opened x = append_assoc_text "(" "$" x

further : (x : String) → append ", $" x ≡ append ", " (append "$" x)
further x = append_assoc_text ", " "$" x

placeholders-row_at : (n : ℕ) (t : Transaction) → placeholders n ≡ row_at (n * 4) (args_of t)
unfolding placeholders join
placeholders-row_at n t =
    let first : n * 4 + 1 ≡ suc (n * 4) = omega arith in
    let second : n * 4 + 2 ≡ suc (suc (n * 4)) = omega arith in
    let third : n * 4 + 3 ≡ suc (suc (suc (n * 4))) = omega arith in
    let fourth : n * 4 + 4 ≡ suc (suc (suc (suc (n * 4)))) = omega arith in
    rw (first, second, third, fourth) (simp (opened, further, append_assoc_text))

-- The rows of VALUES of some transactions, behind i others.
abbrev pub rows_from : ℕ → List Transaction → List String
rows_from i [] = []
rows_from i (t ∷ ts) = row_at (i * 4) (args_of t) ∷ rows_from (i + 1) ts

groups_from-rows : (i : ℕ) (ts : List Transaction) → groups_from i ts ≡ rows_from i ts
groups_from-rows i [] = refl
groups_from-rows i (t ∷ ts) = rw (placeholders-row_at i t, groups_from-rows (i + 1) ts) refl

-- The bulk insert as a text of its own, with the conflict that it ignores.
pub bulk_statement-rows :
    (ts : List Transaction)
    → bulk_statement ts ≡ record {
      query =
          append "\n\t\tINSERT INTO transactions (user_id, type, amount, timestamp)\n\t\tVALUES " (
            append
              (join "," (rows_from 0 ts))
              "\n\t\tON CONFLICT (user_id, type, amount, timestamp) DO NOTHING\n\t");
      args = all_args ts;
    }
bulk_statement-rows ts = bulk_statement_lem ts ∙ rw (groups_from-rows 0 ts) refl

groups_from-append :
    (i : ℕ) (before after : List Transaction)
    → groups_from i (before ++ after)
      ≡ groups_from i before ++ groups_from (i + length before) after
groups_from-append i [] after = ap (λ k. groups_from k after) (omega arith)
groups_from-append i (t ∷ before) after =
    rw (groups_from-append (i + 1) before after)
      (ap (λ k. placeholders i ∷ (groups_from (i + 1) before ++ groups_from k after)) (omega arith))

groups_from-split :
    (before after : List Transaction) (t : Transaction)
    → groups_from 0 (before ++ t ∷ after)
      ≡ groups_from 0 before ++ placeholders (length before) ∷ groups_from (length before + 1) after
groups_from-split before after t =
    groups_from-append 0 before (t ∷ after)
    ∙ ap (λ k. groups_from 0 before ++ placeholders k ∷ groups_from (k + 1) after) (omega arith)

length-groups_from : (i : ℕ) (ts : List Transaction) → length (groups_from i ts) ≡ length ts
length-groups_from i [] = refl
length-groups_from i (t ∷ ts) = ap suc (length-groups_from (i + 1) ts)

-- Where a transaction stands in a bulk insert: its row of VALUES, behind one for each transaction before
-- it, names the arguments that stand behind `front`, and these are the arguments of its single insert.
pub record Aligned (before after : List Transaction) (t : Transaction) : Type 0 where
  pub front : List Arg
  pub back : List Arg
  pub rows_before : List String
  pub rows_after : List String
  pub count_before : length rows_before ≡ length before
  pub count_after : length rows_after ≡ length after
  pub statement : bulk_statement (before ++ t ∷ after) ≡ record {
    query = append insert_into (
        append
          (join "," (rows_before ++ row_at (length front) (save_statement t).args ∷ rows_after))
          on_conflict);
    args = front ++ ((save_statement t).args ++ back);
  }

-- In the bulk insert, the placeholders of each transaction name just the arguments of its single insert.
pub bulk_statement-Aligned :
    (before after : List Transaction) (t : Transaction) → Aligned before after t
unfolding save_statement
bulk_statement-Aligned before after t = record {
  front = all_args before;
  back = all_args after;
  rows_before = groups_from 0 before;
  rows_after = groups_from (length before + 1) after;
  count_before = length-groups_from 0 before;
  count_after = length-groups_from (length before + 1) after;
  statement =
      bulk_statement_lem (before ++ t ∷ after)
      ∙ rw (all_args-append before (t ∷ after), groups_from-split before after t)
          (ap
            (λ row. record {
              query = append insert_into (
                  append
                    (join "," (groups_from 0 before ++ row ∷ groups_from (length before + 1) after))
                    on_conflict);
              args = all_args before ++ (args_of t ++ all_args after);
            })
            (placeholders-row_at (length before) t
              ∙ ap (λ k. row_at k (args_of t)) (sym (length-all_args before))));
}

-- A bulk insert of one transaction is its single insert.
pub bulk_one : (t : Transaction) → bulk_statement (t ∷ []) ≡ save_statement t
unfolding bulk_statement save_statement collect placeholders join itoa
bulk_one t = refl

-- The placeholders of a query count its arguments: for a user and a type, a user alone, a type alone,
-- and neither, where 0 stands for all users.
pub get_statement_cases :
    (i : ℤ) (t : TransactionType)
    → pos 1 ≤ℤ i
    → (get_statement i (some t) ≡ record {
      query = append (append get_base " AND user_id = $1 AND type = $2") order_by;
      args = number i ∷ text t ∷ [];
    })
      × ((get_statement i none ≡ record {
        query = append (append get_base " AND user_id = $1") order_by;
        args = number i ∷ [];
      })
          × ((get_statement (pos 0) (some t) ≡ record {
            query = append (append get_base " AND type = $1") order_by;
            args = text t ∷ [];
          })
              × (get_statement (pos 0) none
                  ≡ record { query = append get_base order_by; args = [] })))
unfolding get_statement join itoa
get_statement_cases i t h =
    let positive : ltb_ℤ (pos 0) i ≡ true = ground arith in
    (rw positive refl, (rw positive refl, (refl, refl)))
