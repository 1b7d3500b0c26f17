-- ===== src/App/Wiring/Tests.antt =====
-- Settings that leave most of them out.
use casino_transaction_syste.Prelude.{ℕ, ◌≡◌, ◌≢◌, sym, [], ◌∷◌, arith}
use casino_transaction_syste.Prelude.Int.{pos, negsuc}
use casino_transaction_syste.Config.{Kafka, default_kafka}
use casino_transaction_syste.Kafka.Settings.{normalize}
use casino_transaction_syste.Metrics.Sink.{LogSink, new_log_sink}
use casino_transaction_syste.App.Wiring.{processor_consumer, durations_of}
use casino_transaction_syste.App.Wiring.Timing.{IsBounded, IsExact, durations_of-IsExact}
use casino_transaction_syste.App.Wiring.Topics.{IsApart, processor_consumer-IsApart}

abbrev settings : Kafka
settings = record {
  brokers = "localhost:9092" ∷ [];
  topic = "transactions";
  group_id = "processor";
  process_timeout_ms = pos 2500;
  retry_base_delay_ms = pos 0;
  retry_jitter_ms = pos 0;
  max_process_retries = pos 3;
  dlq_topic = "";
  metrics_flush_sec = pos 0;
  shutdown_drain_timeout_sec = negsuc 4;
  batch_size = pos 2;
  batch_flush_interval_sec = pos 9223372036;
}

settings-IsBounded : IsBounded settings
settings-IsBounded = record {
  metrics_flush = omega arith;
  batch_flush = omega arith;
  drain = omega arith;
  process = omega arith;
}

durations_of-IsExact_example : IsExact (normalize settings) (durations_of settings)
durations_of-IsExact_example = durations_of-IsExact settings settings-IsBounded

abbrev sink : LogSink ℕ
sink = new_log_sink

named : settings.topic ≢ ""
named e = cc

processor_consumer-IsApart_example :
    ((processor_consumer sink (default_kafka settings)).reader.topic ≡ settings.topic)
    × IsApart
        (processor_consumer sink (default_kafka settings)).reader.topic
        (processor_consumer sink (default_kafka settings)).writer.topic
processor_consumer-IsApart_example =
    processor_consumer-IsApart sink settings named (λ e. named (sym e))
