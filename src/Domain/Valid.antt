-- ===== src/Domain/Valid.antt =====
-- What `Validate` accepts.
use text.Mathlib.TextEquality.{eq_iff}
use casino_transaction_syste.Prelude.{◌≡◌, ◌⊎◌, ◌↔◌, none, arith}
use casino_transaction_syste.Prelude.Int.{pos, ◌≤ℤ◌}
use casino_transaction_syste.Domain.{TransactionType, bet, win, check_type, Transaction, validate}

-- A transaction that the system may store.
pub record IsValid (t : Transaction) : Type 0 where
  pub user : pos 1 ≤ℤ t.user_id
  pub positive : pos 1 ≤ℤ t.amount
  pub known : (t.type ≡ bet) ⊎ (t.type ≡ win)

pub known_type : (t : TransactionType) → check_type t ≡ none → (t ≡ bet) ⊎ (t ≡ win)
unfolding check_type
known_type t h = ground (arith, (eq_iff t bet).0, (eq_iff t win).0)

known_accepted : (t : TransactionType) → (t ≡ bet) ⊎ (t ≡ win) → check_type t ≡ none
unfolding check_type
known_accepted t h = ground (arith, (eq_iff t bet).1, (eq_iff t win).1)

IsValid-of_accepted : (t : Transaction) → validate t ≡ none → IsValid t
unfolding validate
IsValid-of_accepted t h = record {
  user = ground arith;
  positive = ground arith;
  known = known_type t.type (ground arith);
}

accepted_of_valid : (t : Transaction) → IsValid t → validate t ≡ none
unfolding validate
accepted_of_valid t v =
    let user = v.user in
    let positive = v.positive in let known = known_accepted t.type v.known in ground arith

-- `Validate` returns no error for just the transactions of a positive user and a positive amount
-- whose type is "bet" or "win".
pub validate-IsValid : (t : Transaction) → (validate t ≡ none) ↔ IsValid t
validate-IsValid t = (IsValid-of_accepted t, accepted_of_valid t)
