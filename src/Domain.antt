-- ===== src/Domain.antt =====
-- internal/domain: the transaction, its type and its validation.
pub mod Valid
use text.Mathlib.Text.{◌==◌ as str_eq}
use casino_transaction_syste.Prelude.{String, ◌||◌, if◌then◌else◌, Option, none, some}
use casino_transaction_syste.Prelude.Int.{ℤ, pos, leb_ℤ}
use casino_transaction_syste.TimeUtil.{Time}

-- A Go string; the constants are `bet` and `win`.
abbrev pub TransactionType : Type 0
TransactionType = String

abbrev pub bet : TransactionType
bet = "bet"

abbrev pub win : TransactionType
win = "win"

-- The sentinel errors of errors.go.
pub data DomainError : Type 0 where
  invalid_transaction_type invalid_user_id non_positive_amount : DomainError

-- `TransactionType.IsValid`: `none` is the nil error.
unfoldable pub check_type : TransactionType → Option DomainError
check_type t = if str_eq t bet || str_eq t win then none else some invalid_transaction_type

pub record Transaction : Type 0 where
  pub id : ℤ
  pub user_id : ℤ
  pub type : TransactionType
  pub amount : ℤ
  pub timestamp : Time
  pub created_at : Time

unfoldable pub validate : Transaction → Option DomainError
validate t =
    if leb_ℤ t.user_id (pos 0)
    then some invalid_user_id
    else if leb_ℤ t.amount (pos 0)
    then some non_positive_amount
    else check_type t.type
