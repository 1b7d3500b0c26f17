-- ===== src/App/Wiring.antt =====
-- What bootstrap and the constructors of the transports pass on: the settings of the Kafka reader and
-- writer, of the HTTP server and of the handler, and the durations that `Start` makes of the settings.
pub mod Timing
pub mod Topics
mod Tests
use Prim.Native.String.{◌++◌ as append}
use casino_transaction_syste.Prelude.{ℕ, String, Option, none, some, List}
use casino_transaction_syste.Prelude.Int.{ℤ, pos, ◌*ℤ◌}
use casino_transaction_syste.Config.{Kafka}
use casino_transaction_syste.Config.Loading.{Config, Http}
use casino_transaction_syste.Kafka.Settings.{normalize}

-- The fields of kafka.ReaderConfig and of kafka.Writer that are set.
pub record ReaderConfig : Type 0 where
  pub brokers : List String
  pub topic : String
  pub group_id : String
  pub min_bytes : ℕ
  pub max_bytes : ℕ
  pub commit_interval : ℤ

pub data RequiredAcks : Type 0 where
  require_all : RequiredAcks

pub record WriterConfig : Type 0 where
  pub addr : List String
  pub topic : String
  pub required_acks : RequiredAcks

-- The consumer as it is built; its reader and writer are known by their settings.
pub record NewConsumer (S : Type 0) : Type 0 where
  pub reader : ReaderConfig
  pub writer : WriterConfig
  pub cfg : Kafka
  pub metrics : S

-- `if metricsSink == nil`
abbrev sink_or : {S : Type 0} → S → Option S → S
sink_or fresh none = fresh
sink_or fresh (some sink) = sink

module _ {S : Type 0} (fresh : S) where
  -- `fresh` is what NewLogSink returns; `none` is the nil sink.
  unfoldable pub new_consumer_with_metrics :
      List String → String → String → Kafka → Option S → NewConsumer S
  unfolding normalize
  new_consumer_with_metrics brokers topic group_id cfg sink =
      let cfg' = normalize cfg in
      record {
        reader = record {
          brokers = brokers;
          topic = topic;
          group_id = group_id;
          min_bytes = 10000;
          max_bytes = 10000000;
          commit_interval = pos 0;
        };
        writer = record { addr = brokers; topic = cfg'.dlq_topic; required_acks = require_all };
        cfg = cfg';
        metrics = sink_or fresh sink;
      }

  unfoldable pub new_consumer : List String → String → String → Kafka → NewConsumer S
  unfolding new_consumer_with_metrics
  new_consumer brokers topic group_id cfg =
      new_consumer_with_metrics brokers topic group_id cfg (some fresh)

  -- The consumer of NewProcessorApp in bootstrap.
  unfoldable pub processor_consumer : Kafka → NewConsumer S
  unfolding new_consumer_with_metrics
  processor_consumer k = new_consumer_with_metrics k.brokers k.topic k.group_id k (some fresh)

-- The durations of http.Server, in nanoseconds.
pub record ServerConfig : Type 0 where
  pub addr : String
  pub read_header_timeout : ℤ
  pub read_timeout : ℤ
  pub write_timeout : ℤ
  pub idle_timeout : ℤ

abbrev pub seconds : ℤ → ℤ
seconds n = n *ℤ pos 1000000000

abbrev pub milliseconds : ℤ → ℤ
milliseconds n = n *ℤ pos 1000000

-- The server of NewApiApp in bootstrap.
unfoldable pub api_server : Http → ServerConfig
api_server h = record {
  addr = append ":" h.port;
  read_header_timeout = seconds h.read_header_timeout_seconds;
  read_timeout = seconds h.read_timeout_seconds;
  write_timeout = seconds h.write_timeout_seconds;
  idle_timeout = seconds h.idle_timeout_seconds;
}

-- The periods of the two tickers and the two timeouts of the consumer.
pub record Durations : Type 0 where
  pub metrics_flush : ℤ
  pub batch_flush : ℤ
  pub drain : ℤ
  pub process : ℤ

-- Of the consumer's settings, as `Start` normalises them again.
unfoldable pub durations_of : Kafka → Durations
unfolding normalize
durations_of k =
    let cfg = normalize k in
    record {
      metrics_flush = seconds cfg.metrics_flush_sec;
      batch_flush = seconds cfg.batch_flush_interval_sec;
      drain = seconds cfg.shutdown_drain_timeout_sec;
      process = milliseconds cfg.process_timeout_ms;
    }

-- The handler, over a service; `none` is the nil sink.
pub record TransactionHandler (V S : Type 0) : Type 0 where
  pub svc : V
  pub metrics : S

module _ {V S : Type 0} (fresh : S) where
  unfoldable pub new_transaction_handler_with_metrics : V → Option S → TransactionHandler V S
  new_transaction_handler_with_metrics svc sink = record { svc = svc; metrics = sink_or fresh sink }

  unfoldable pub new_transaction_handler : V → TransactionHandler V S
  unfolding new_transaction_handler_with_metrics
  new_transaction_handler svc = new_transaction_handler_with_metrics svc (some fresh)
