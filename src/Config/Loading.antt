-- ===== src/Config/Loading.antt =====
-- `loadConfig` and the instance that NewConfig keeps. The package cleanenv, the file system and the
-- environment are parameters.
pub mod Once
use text.Mathlib.Text.{◌==◌ as str_eq}
use casino_transaction_syste.Prelude.{
  Bool, true, false, String, if◌then◌else◌, Option, none, some, [], Result, ok, err,
}
use casino_transaction_syste.Prelude.Int.{ℤ, pos}
use casino_transaction_syste.Config.{Postgres, Kafka, default_postgres, default_kafka}
use casino_transaction_syste.Errors.{GoError, wrapped}

pub record App : Type 0 where
  pub name : String
  pub version : String

pub record Http : Type 0 where
  pub port : String
  pub read_header_timeout_seconds : ℤ
  pub read_timeout_seconds : ℤ
  pub write_timeout_seconds : ℤ
  pub idle_timeout_seconds : ℤ

pub record Config : Type 0 where
  pub app : App
  pub http : Http
  -- `Log`
  pub level : String
  pub postgres : Postgres
  pub kafka : Kafka

-- `&Config{}`
abbrev pub empty_config : Config
empty_config = record {
  app = record { name = ""; version = "" };
  http = record {
    port = "";
    read_header_timeout_seconds = pos 0;
    read_timeout_seconds = pos 0;
    write_timeout_seconds = pos 0;
    idle_timeout_seconds = pos 0;
  };
  level = "";
  postgres = record {
    pool_max_open = pos 0;
    pool_max_idle = pos 0;
    pool_max_legacy = pos 0;
    conn_max_lifetime_minutes = pos 0;
    url = "";
  };
  kafka = record {
    brokers = [];
    topic = "";
    group_id = "";
    process_timeout_ms = pos 0;
    retry_base_delay_ms = pos 0;
    retry_jitter_ms = pos 0;
    max_process_retries = pos 0;
    dlq_topic = "";
    metrics_flush_sec = pos 0;
    shutdown_drain_timeout_sec = pos 0;
    batch_size = pos 0;
    batch_flush_interval_sec = pos 0;
  };
}

-- What the process finds around it when it calls loadConfig.
pub record Surroundings : Type 0 where
  -- `os.Getenv("CONFIG_PATH")`, and whether `os.Stat` finds a file
  pub config_path : String
  pub exists : String → Bool
  -- `cleanenv.ReadConfig` and `cleanenv.ReadEnv`, on what the configuration is so far
  pub read_config : String → Config → Result GoError Config
  pub read_env : Config → Result GoError Config

abbrev pub path_of : Surroundings → String
path_of s = if str_eq s.config_path "" then "config.yaml" else s.config_path

-- `fmt.Errorf` with %w around an error.
abbrev wrap : Result GoError Config → Result GoError Config
wrap (ok cfg) = ok cfg
wrap (err e) = err (wrapped e)

abbrev pub from_file : Surroundings → Result GoError Config
from_file s =
    if s.exists (path_of s) then wrap (s.read_config (path_of s) empty_config) else ok empty_config

abbrev pub from_env : Surroundings → Result GoError Config → Result GoError Config
from_env s (err e) = err e
from_env s (ok cfg) = wrap (s.read_env cfg)

-- The tests behind the two reads.
unfoldable pub with_defaults : Config → Config
unfolding default_postgres default_kafka
with_defaults cfg = record cfg {
  postgres = default_postgres cfg.postgres;
  kafka = default_kafka cfg.kafka;
}

abbrev pub defaulted : Result GoError Config → Result GoError Config
defaulted (err e) = err e
defaulted (ok cfg) = ok (with_defaults cfg)

unfoldable pub load_config : Surroundings → Result GoError Config
unfolding with_defaults
load_config s = defaulted (from_env s (from_file s))

abbrev pub keep : Result GoError Config → Result GoError Config × Option Config
keep (ok cfg) = (ok cfg, some cfg)
keep (err e) = (err e, none)

-- `NewConfig`, with `instance` before and after, under its mutex.
unfoldable pub new_config : Surroundings → Option Config → Result GoError Config × Option Config
unfolding load_config
new_config s (some cfg) = (ok cfg, some cfg)
new_config s none = keep (load_config s)

unfoldable pub reset_config : Option Config → Option Config
reset_config instance = none
