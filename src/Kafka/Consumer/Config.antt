-- ===== src/Kafka/Consumer/Config.antt =====
-- The fields of `Consumer` that its methods only read.
use casino_transaction_syste.Prelude.{ℕ, zero, suc, Bool, Option, List, [], Result}
use casino_transaction_syste.Prelude.Int.{ℤ, pos, negsuc}
use casino_transaction_syste.Config.{Kafka}
use casino_transaction_syste.Domain.{Transaction}
use casino_transaction_syste.Errors.{GoError}
use casino_transaction_syste.TimeUtil.{Time}
use casino_transaction_syste.Kafka.Message.{Message}
use casino_transaction_syste.Kafka.Decode.{Codec, parse_and_validate}
use casino_transaction_syste.Kafka.Outside.{Outside}
use casino_transaction_syste.Kafka.Consumer.State.{M, call, ask}

pub record Consumer (W : Type 0) : Type 0 where
  pub outside : Outside W
  pub codec : Codec
  pub cfg : Kafka
  -- `c.writer != nil`
  pub has_writer : Bool
  -- the rounds that each loop without a bound may make
  pub fuel : ℕ

-- The rounds of `for attempt := 0; attempt <= max; attempt++`.
abbrev pub rounds_of : ℤ → ℕ
rounds_of (pos n) = suc n
rounds_of (negsuc n) = zero

abbrev unseen {ℓ} : {A B : Type ℓ} → A → List B
unseen a = []

module _ {W : Type 0} (c : Consumer W) where
  abbrev pub rounds : ℕ
  rounds = rounds_of c.cfg.max_process_retries

  abbrev pub parsed : Message → Result GoError Transaction
  parsed msg = parse_and_validate c.codec msg

  abbrev pub app_err : M W (Option GoError)
  app_err = ask c.outside.app_err

  abbrev pub now : M W Time
  now = call c.outside.now unseen

  abbrev pub random : ℕ → M W ℕ
  random n = call (c.outside.random n) unseen
