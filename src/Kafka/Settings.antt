-- ===== src/Kafka/Settings.antt =====
-- `normalizeKafkaConfig` and the constants of constants.go.
use casino_transaction_syste.Prelude.{ℕ, ◌≤◌, ◌≡◌, refl, String, arith}
use casino_transaction_syste.Prelude.Int.{ℤ, pos, ◌≤ℤ◌}
use casino_transaction_syste.Config.{
  Kafka, positive_or, non_negative_or, dlq_topic_or, default_kafka,
}

unfoldable pub normalize : Kafka → Kafka
normalize cfg = record cfg {
  process_timeout_ms = positive_or 5000 cfg.process_timeout_ms;
  retry_base_delay_ms = positive_or 100 cfg.retry_base_delay_ms;
  retry_jitter_ms = positive_or 300 cfg.retry_jitter_ms;
  max_process_retries = non_negative_or 3 cfg.max_process_retries;
  dlq_topic = dlq_topic_or cfg.topic cfg.dlq_topic;
  metrics_flush_sec = positive_or 15 cfg.metrics_flush_sec;
  shutdown_drain_timeout_sec = positive_or 60 cfg.shutdown_drain_timeout_sec;
  batch_size = positive_or 100 cfg.batch_size;
  batch_flush_interval_sec = positive_or 5 cfg.batch_flush_interval_sec;
}

-- What the consumer's loops rely on.
pub record IsUsable (cfg : Kafka) : Type 0 where
  pub timeout_positive : pos 1 ≤ℤ cfg.process_timeout_ms
  pub base_positive : pos 1 ≤ℤ cfg.retry_base_delay_ms
  pub jitter_positive : pos 1 ≤ℤ cfg.retry_jitter_ms
  pub retries_bounded : pos 0 ≤ℤ cfg.max_process_retries
  pub flush_positive : pos 1 ≤ℤ cfg.metrics_flush_sec
  pub drain_positive : pos 1 ≤ℤ cfg.shutdown_drain_timeout_sec
  pub batch_positive : pos 1 ≤ℤ cfg.batch_size
  pub interval_positive : pos 1 ≤ℤ cfg.batch_flush_interval_sec

positive_or-le : (d : ℕ) (x : ℤ) → 1 ≤ d → pos 1 ≤ℤ positive_or d x
positive_or-le d x h = ground arith

-- After normalising, every interval, limit and size that the loops use is positive (the number of
-- retries is not negative), whatever the configuration was.
pub normalize-IsUsable : (cfg : Kafka) → IsUsable (normalize cfg)
unfolding normalize
normalize-IsUsable cfg = record {
  timeout_positive = positive_or-le 5000 cfg.process_timeout_ms (omega arith);
  base_positive = positive_or-le 100 cfg.retry_base_delay_ms (omega arith);
  jitter_positive = positive_or-le 300 cfg.retry_jitter_ms (omega arith);
  retries_bounded = ground arith;
  flush_positive = positive_or-le 15 cfg.metrics_flush_sec (omega arith);
  drain_positive = positive_or-le 60 cfg.shutdown_drain_timeout_sec (omega arith);
  batch_positive = positive_or-le 100 cfg.batch_size (omega arith);
  interval_positive = positive_or-le 5 cfg.batch_flush_interval_sec (omega arith);
}

-- The defaults of `loadConfig` and those of the consumer are the same.
pub normalize-default_kafka : (cfg : Kafka) → normalize cfg ≡ default_kafka cfg
unfolding normalize default_kafka
normalize-default_kafka cfg = refl

positive_or_idem : (d : ℕ) (x : ℤ) → 1 ≤ d → positive_or d (positive_or d x) ≡ positive_or d x
positive_or_idem d x h = ground arith

non_negative_or_idem :
    (d : ℕ) (x : ℤ) → non_negative_or d (non_negative_or d x) ≡ non_negative_or d x
non_negative_or_idem d x = ground arith

dlq_topic_or_idem :
    (topic dlq : String) → dlq_topic_or topic (dlq_topic_or topic dlq) ≡ dlq_topic_or topic dlq
dlq_topic_or_idem topic dlq = ground arith

-- Normalising twice, as the constructor and `Start` do, is normalising once.
pub normalize_idem : (cfg : Kafka) → normalize (normalize cfg) ≡ normalize cfg
unfolding normalize
normalize_idem cfg = λ i. record cfg {
  process_timeout_ms = positive_or_idem 5000 cfg.process_timeout_ms (omega arith) i;
  retry_base_delay_ms = positive_or_idem 100 cfg.retry_base_delay_ms (omega arith) i;
  retry_jitter_ms = positive_or_idem 300 cfg.retry_jitter_ms (omega arith) i;
  max_process_retries = non_negative_or_idem 3 cfg.max_process_retries i;
  dlq_topic = dlq_topic_or_idem cfg.topic cfg.dlq_topic i;
  metrics_flush_sec = positive_or_idem 15 cfg.metrics_flush_sec (omega arith) i;
  shutdown_drain_timeout_sec = positive_or_idem 60 cfg.shutdown_drain_timeout_sec (omega arith) i;
  batch_size = positive_or_idem 100 cfg.batch_size (omega arith) i;
  batch_flush_interval_sec = positive_or_idem 5 cfg.batch_flush_interval_sec (omega arith) i;
}
