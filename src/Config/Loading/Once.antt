-- ===== src/Config/Loading/Once.antt =====
-- What the configuration that NewConfig returns is good for, and that there is one.
use casino_transaction_syste.Prelude.{
  ◌≡◌, subst, Option, List, [], ◌∷◌, Result, ok, err, arith, All,
}
use casino_transaction_syste.Prelude.Int.{pos, ◌≤ℤ◌}
use casino_transaction_syste.Config.{default_postgres}
use casino_transaction_syste.Errors.{GoError}
use casino_transaction_syste.Kafka.Settings.{
  normalize, IsUsable, normalize-IsUsable, normalize_idem, normalize-default_kafka,
}
use casino_transaction_syste.Config.Loading.{
  Config, Surroundings, from_file, from_env, with_defaults, defaulted, load_config, new_config,
}

-- What the pool and the consumer are started with.
pub record IsReady (cfg : Config) : Type 0 where
  pub open_positive : pos 1 ≤ℤ cfg.postgres.pool_max_open
  pub idle_positive : pos 1 ≤ℤ cfg.postgres.pool_max_idle
  pub lifetime_positive : pos 1 ≤ℤ cfg.postgres.conn_max_lifetime_minutes
  pub usable : IsUsable cfg.kafka
  -- the consumer leaves it as it is
  pub normal : normalize cfg.kafka ≡ cfg.kafka

with_defaults-IsReady : (cfg : Config) → IsReady (with_defaults cfg)
unfolding with_defaults default_postgres
with_defaults-IsReady cfg = record {
  open_positive = ground arith;
  idle_positive = ground arith;
  lifetime_positive = ground arith;
  usable = subst IsUsable (normalize-default_kafka cfg.kafka) (normalize-IsUsable cfg.kafka);
  normal =
      subst (λ k. normalize k ≡ k) (normalize-default_kafka cfg.kafka) (normalize_idem cfg.kafka);
}

-- A property of the configuration, where there is one.
abbrev pub Holds : (Config → Type 0) → Result GoError Config → Type 0
Holds P (ok cfg) = P cfg
Holds P (err e) = Unit

defaulted-Holds : (r : Result GoError Config) → Holds IsReady (defaulted r)
defaulted-Holds (ok cfg) = with_defaults-IsReady cfg
defaulted-Holds (err e) = tt

-- Whatever the file and the environment say, a configuration that loadConfig returns has positive pool
-- limits and a positive connection lifetime, and its part for Kafka is usable by the consumer, which
-- normalises it to itself.
pub load_config-IsReady : (s : Surroundings) → Holds IsReady (load_config s)
unfolding load_config
load_config-IsReady s = defaulted-Holds (from_env s (from_file s))

-- The results of calls of NewConfig, one after the other, each in its own surroundings.
unfoldable pub calls : List Surroundings → Option Config → List (Result GoError Config)
unfolding new_config
calls [] instance = []
calls (s ∷ ss) instance = let (r, instance') = new_config s instance in r ∷ calls ss instance'

-- Every call returns this one.
abbrev pub Same : Config → List (Result GoError Config) → Type 0
Same cfg rs = All (λ r. r ≡ ok cfg) rs

-- All fail; or the first ones fail, and the others return one configuration.
abbrev pub IsOnce : List (Result GoError Config) → Type 0
IsOnce [] = Unit
IsOnce (err e ∷ rs) = IsOnce rs
IsOnce (ok cfg ∷ rs) = Same cfg rs
