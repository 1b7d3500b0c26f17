-- ===== src/Kafka/Message.antt =====
-- What the consumer uses of kafka-go's `Message`. Kafka counts partitions and offsets from 0.
use casino_transaction_syste.Prelude.{ℕ, String, List, Bytes}
use casino_transaction_syste.TimeUtil.{Time}

pub record Message : Type 0 where
  pub topic : String
  pub partition : ℕ
  pub offset : ℕ
  pub key : Bytes
  pub value : Bytes
  pub headers : List (String × Bytes)
  pub time : Time
