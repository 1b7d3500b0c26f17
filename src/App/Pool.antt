-- ===== src/App/Pool.antt =====
-- The limits of the connection pool, from the configuration through bootstrap to the repository.
use casino_transaction_syste.Prelude.{absurd, ℕ, ◌*◌, ◌≤◌, ◌≡◌, ◌∙◌, ap, subst, ok, arith}
use casino_transaction_syste.Prelude.Int.{ℤ, pos, negsuc, pos_part, max_int64, ◌*ℤ◌, ◌≤ℤ◌}
use casino_transaction_syste.Config.{Postgres, positive_or}
use casino_transaction_syste.Config.Loading.{Config, Surroundings, load_config}
use casino_transaction_syste.Config.Loading.Once.{IsReady, Holds, load_config-IsReady}
use casino_transaction_syste.App.Connection.{with_limits}
use casino_transaction_syste.App.Programs.{pool_of}

-- A lifetime in nanoseconds, of whole minutes.
abbrev pub lifetime : Postgres → ℕ
lifetime p = pos_part p.conn_max_lifetime_minutes * 60000000000

minutes-exact :
    (m : ℤ)
    → pos 1 ≤ℤ m
    → pos_part m * 60000000000 ≤ max_int64
    → m *ℤ pos 60000000000 ≡ pos (pos_part m * 60000000000)
unfolding ◌*ℤ◌
minutes-exact (pos n) h b = ground arith
minutes-exact (negsuc n) h b = absurd (omega arith)

positive_or-kept : (d : ℕ) (x : ℤ) → pos 1 ≤ℤ x → positive_or d x ≡ x
positive_or-kept d x h = ground arith

lifetime-positive : (cfg : Config) → IsReady cfg → pos 1 ≤ℤ pos (lifetime cfg.postgres)
lifetime-positive cfg ready = omega (arith, ready.lifetime_positive)

IsReady-kept :
    (cfg : Config)
    → IsReady cfg
    → lifetime cfg.postgres ≤ max_int64
    → with_limits (pool_of cfg.postgres) ≡ record {
      max_open_conns = cfg.postgres.pool_max_open;
      max_idle_conns = cfg.postgres.pool_max_idle;
      conn_max_lifetime = pos (lifetime cfg.postgres);
    }
unfolding with_limits pool_of
IsReady-kept cfg ready b =
    let minutes = minutes-exact cfg.postgres.conn_max_lifetime_minutes ready.lifetime_positive b in
    let whole =
      ap (positive_or 300000000000) minutes
      ∙ positive_or-kept 300000000000 (pos (lifetime cfg.postgres)) (lifetime-positive cfg ready) in
    λ i. record {
      max_open_conns = positive_or-kept 25 cfg.postgres.pool_max_open ready.open_positive i;
      max_idle_conns = positive_or-kept 5 cfg.postgres.pool_max_idle ready.idle_positive i;
      conn_max_lifetime = whole i;
    }

-- The pool gets just the limits of the configuration that loadConfig returned, as long as the lifetime
-- fits an int64 of nanoseconds: none of the defaults of the repository applies.
pub load_config_kept :
    (s : Surroundings) (cfg : Config)
    → load_config s ≡ ok cfg
    → lifetime cfg.postgres ≤ max_int64
    → with_limits (pool_of cfg.postgres) ≡ record {
      max_open_conns = cfg.postgres.pool_max_open;
      max_idle_conns = cfg.postgres.pool_max_idle;
      conn_max_lifetime = pos (lifetime cfg.postgres);
    }
load_config_kept s cfg e b = IsReady-kept cfg (subst (Holds IsReady) e (load_config-IsReady s)) b
