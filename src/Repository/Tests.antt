-- ===== src/Repository/Tests.antt =====
-- Statements like those of internal/repository/postgresql_test.go.
use casino_transaction_syste.Prelude.{[], ◌∷◌}
use casino_transaction_syste.Prelude.Int.{pos}
use casino_transaction_syste.TimeUtil.{zero_time}
use casino_transaction_syste.Domain.{Transaction, bet, win}
use casino_transaction_syste.Repository.Statements.{Aligned, bulk_statement-Aligned}

abbrev paid : Transaction
paid = record {
  id = pos 0;
  user_id = pos 1;
  type = bet;
  amount = pos 525;
  timestamp = zero_time;
  created_at = zero_time;
}

abbrev won : Transaction
won = record paid { type = win; amount = pos 1050 }

bulk_statement-Aligned_example : Aligned (paid ∷ []) [] won
bulk_statement-Aligned_example = bulk_statement-Aligned (paid ∷ []) [] won
