-- ===== src/Service.antt =====
-- internal/service/service.go: each call goes to the repository; what it logs is left out.
pub mod Composition
pub mod Answers
pub mod ReadOnly
pub mod Table
mod Landing
mod Tests
use casino_transaction_syste.Prelude.{Option, none, some, List, Result, ok, err}
use casino_transaction_syste.Prelude.Int.{ℤ}
use casino_transaction_syste.Domain.{TransactionType, Transaction}
use casino_transaction_syste.Errors.{GoError}
use casino_transaction_syste.Repository.{Database, Outcome, save, save_bulk, get}

-- Go's error of a result, nil where there is none.
abbrev pub error_of : {A : Type 0} → Result GoError A → Option GoError
error_of (ok a) = none
error_of (err e) = some e

module _ {W : Type 0} (repo : Option (Database W)) where
  unfoldable pub register_transaction : Transaction → W → Option GoError × W
  unfolding save
  register_transaction t w = let o = save repo t w in (error_of o.value, o.world)

  unfoldable pub register_transactions : List Transaction → W → Option GoError × W
  unfolding save_bulk
  register_transactions txs w = let o = save_bulk repo txs w in (error_of o.value, o.world)

  unfoldable pub get_transactions :
      ℤ → Option TransactionType → W → Result GoError (List Transaction) × W
  unfolding get
  get_transactions user filter w = let o = get repo user filter w in (o.value, o.world)
