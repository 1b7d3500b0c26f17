-- ===== src/Config.antt =====
-- internal/config/config.go: the settings, and the defaults that `loadConfig` puts in.
pub mod Loading
use Prim.Native.String.{◌++◌ as append}
use text.Mathlib.Text.{◌==◌ as str_eq}
use casino_transaction_syste.Prelude.{ℕ, String, ◌&&◌, not, if◌then◌else◌, List}
use casino_transaction_syste.Prelude.Int.{ℤ, pos, leb_ℤ, ltb_ℤ}

pub record Postgres : Type 0 where
  pub pool_max_open : ℤ
  pub pool_max_idle : ℤ
  pub pool_max_legacy : ℤ
  pub conn_max_lifetime_minutes : ℤ
  pub url : String

pub record Kafka : Type 0 where
  pub brokers : List String
  pub topic : String
  pub group_id : String
  pub process_timeout_ms : ℤ
  pub retry_base_delay_ms : ℤ
  pub retry_jitter_ms : ℤ
  pub max_process_retries : ℤ
  pub dlq_topic : String
  pub metrics_flush_sec : ℤ
  pub shutdown_drain_timeout_sec : ℤ
  pub batch_size : ℤ
  pub batch_flush_interval_sec : ℤ

-- `if x <= 0 { x = d }` and `if x < 0 { x = d }`.
abbrev pub positive_or : ℕ → ℤ → ℤ
positive_or d x = if leb_ℤ x (pos 0) then pos d else x

abbrev pub non_negative_or : ℕ → ℤ → ℤ
non_negative_or d x = if ltb_ℤ x (pos 0) then pos d else x

-- The dead letter topic, from the topic where it is not set.
abbrev pub dlq_topic_or : String → String → String
dlq_topic_or topic dlq = if str_eq dlq "" && not (str_eq topic "") then append topic ".dlq" else dlq

unfoldable pub default_postgres : Postgres → Postgres
default_postgres p = record p {
  conn_max_lifetime_minutes = positive_or 5 p.conn_max_lifetime_minutes;
  pool_max_open =
      if leb_ℤ p.pool_max_open (pos 0)
      then (if ltb_ℤ (pos 0) p.pool_max_legacy then p.pool_max_legacy else pos 25)
      else p.pool_max_open;
  pool_max_idle = positive_or 5 p.pool_max_idle;
}

-- The tests on `cfg.Kafka` in `loadConfig`.
unfoldable pub default_kafka : Kafka → Kafka
default_kafka k = record k {
  process_timeout_ms = positive_or 5000 k.process_timeout_ms;
  retry_base_delay_ms = positive_or 100 k.retry_base_delay_ms;
  retry_jitter_ms = positive_or 300 k.retry_jitter_ms;
  max_process_retries = non_negative_or 3 k.max_process_retries;
  metrics_flush_sec = positive_or 15 k.metrics_flush_sec;
  shutdown_drain_timeout_sec = positive_or 60 k.shutdown_drain_timeout_sec;
  dlq_topic = dlq_topic_or k.topic k.dlq_topic;
  batch_size = positive_or 100 k.batch_size;
  batch_flush_interval_sec = positive_or 5 k.batch_flush_interval_sec;
}
