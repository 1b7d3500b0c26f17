-- ===== src/App/Lifecycle.antt =====
-- The database handle over the life of a process.
use casino_transaction_syste.Prelude.{
  String, ℕ, suc, ◌≡◌, refl, Option, none, some, List, [], ◌∷◌, Result, ok, err,
}
use casino_transaction_syste.Errors.{GoError, root, db_unavailable}
use casino_transaction_syste.Config.Loading.{Config, Surroundings, new_config}
use casino_transaction_syste.App.{
  Event, opened, limited, pinged, db_closed, attempted, shut_down, consumed, PoolConfig, Process,
  Runtime, emit, at_world,
}
use casino_transaction_syste.App.Connection.{
  discarded, after_ping, after_open, connect, after_close, close_repo, with_limits,
}
use casino_transaction_syste.App.Programs.{
  Wakeup, cancelled, server_closed, serve_failed, Server, pool_of, close_resources, graceful,
  after_wait, run_api, run_processor, built, configured, api_main, processor_main,
}

-- How many handles are open.
abbrev pub IsHeld : ℕ → List Event → Type 0
IsHeld n [] = n ≡ 0
IsHeld n (opened ∷ es) = (m : ℕ) × (n ≡ suc m) × IsHeld m es
IsHeld n (db_closed ∷ es) = IsHeld (suc n) es
IsHeld n (e ∷ es) = IsHeld n es

abbrev pub handles : Result GoError (Unit {0}) → ℕ
handles (ok _) = 1
handles (err e) = 0

-- An error says that the database is unavailable.
abbrev pub IsUnavailable : Result GoError (Unit {0}) → Type 0
IsUnavailable (ok _) = Unit
IsUnavailable (err e) = root e ≡ db_unavailable

module _ {W : Type 0} (r : Runtime W) where
  -- How an attempt to connect ends.
  pub record IsSettled (end : Result GoError (Unit {0}) × Process W) : Type 0 where
    pub held : IsHeld (handles end.0) end.1.events
    pub unavailable : IsUnavailable end.0

  discarded-IsHeld :
      (failed : Option GoError) (p : Process W)
      → IsHeld 1 p.events
      → IsHeld 0 (discarded r failed p).events
  discarded-IsHeld none p h = h
  discarded-IsHeld (some e) p h = h

  after_ping-IsSettled :
      (failed : Option GoError) (p : Process W)
      → IsHeld 1 p.events
      → IsSettled (after_ping r failed p)
  unfolding root
  after_ping-IsSettled none p h = record { held = h; unavailable = tt }
  after_ping-IsSettled (some e) p h =
      let (f, w) = r.sql_close p.world in
      let q = emit (attempted "error" "ping") (emit (pinged (some e)) p) in
      record { held = discarded-IsHeld f (at_world w q) h; unavailable = refl }

  after_open-IsSettled :
      (c : PoolConfig) (failed : Option GoError) (p : Process W)
      → IsHeld 0 p.events
      → IsSettled (after_open r c failed p)
  unfolding root
  after_open-IsSettled c (some e) p h = record { held = h; unavailable = refl }
  after_open-IsSettled c none p h =
      let q = emit (limited (with_limits c)) (emit opened p) in
      let (f, w) = r.sql_ping q.world in after_ping-IsSettled f (at_world w q) (0, refl, h)

  -- Whatever the driver answers, an attempt to connect by a process without a handle leaves one open
  -- handle where it succeeds, and none where it fails; then the error says that the database is
  -- unavailable.
  pub connect-IsSettled :
      (url : String) (c : PoolConfig) (p : Process W)
      → IsHeld 0 p.events
      → IsSettled (connect r url c p)
  unfolding connect
  connect-IsSettled url c p h =
      let q = emit (attempted "started" "") p in
      let (f, w) = r.sql_open url q.world in after_open-IsSettled c f (at_world w q) h

  after_close-IsHeld :
      (failed : Option GoError) (p : Process W)
      → IsHeld 1 p.events
      → IsHeld 0 (after_close r failed p).events
  after_close-IsHeld none p h = h
  after_close-IsHeld (some e) p h = h

  close_repo-IsHeld : (p : Process W) → IsHeld 1 p.events → IsHeld 0 (close_repo r p).events
  unfolding close_repo
  close_repo-IsHeld p h = let (f, w) = r.sql_close p.world in after_close-IsHeld f (at_world w p) h

  module _ (s : Server W) where
    graceful-IsHeld : (p : Process W) → IsHeld 1 p.events → IsHeld 0 (graceful r s p).1.events
    unfolding close_resources
    graceful-IsHeld p h =
        let (f, w) = s.shutdown p.world in close_repo-IsHeld (emit shut_down (at_world w p)) h

    after_wait-IsHeld :
        (wakeup : Wakeup) (p : Process W)
        → IsHeld 1 p.events
        → IsHeld 0 (after_wait r s wakeup p).1.events
    unfolding close_resources
    after_wait-IsHeld cancelled p h = graceful-IsHeld p h
    after_wait-IsHeld server_closed p h = graceful-IsHeld p h
    after_wait-IsHeld (serve_failed e) p h = close_repo-IsHeld p h

    run_api-IsHeld : (p : Process W) → IsHeld 1 p.events → IsHeld 0 (run_api r s p).1.events
    unfolding run_api
    run_api-IsHeld p h =
        let (wakeup, w) = s.wait p.world in after_wait-IsHeld wakeup (at_world w p) h

  run_processor-IsHeld :
      (start : W → Option GoError × W) (p : Process W)
      → IsHeld 1 p.events
      → IsHeld 0 (run_processor r start p).1.events
  unfolding run_processor
  run_processor-IsHeld start p h =
      let (f, w) = start p.world in close_repo-IsHeld (emit consumed (at_world w p)) h

  module _ (run : Process W → Option GoError × Process W)
      (closes : (p : Process W) → IsHeld 1 p.events → IsHeld 0 (run p).1.events) where
    built-IsHeld :
        (c : Result GoError (Unit {0}) × Process W)
        → IsSettled c
        → IsHeld 0 (built r run c).1.events
    built-IsHeld (err e, p) h = h.held
    built-IsHeld (ok v, p) h = closes p h.held

    configured-IsHeld :
        (cfg : Result GoError Config) (p : Process W)
        → IsHeld 0 p.events
        → IsHeld 0 (configured r run cfg p).1.events
    configured-IsHeld (err e) p h = h
    configured-IsHeld (ok cfg) p h =
        built-IsHeld (connect r cfg.postgres.url (pool_of cfg.postgres) p)
          (connect-IsSettled cfg.postgres.url (pool_of cfg.postgres) p h)

  -- Whatever the configuration, the driver and the server do: when the API exits, every database handle
  -- that it opened is closed, each once.
  pub api_main-IsHeld :
      (env : Surroundings) (s : Server W) (p : Process W)
      → IsHeld 0 p.events
      → IsHeld 0 (api_main r env s p).1.events
  unfolding api_main
  api_main-IsHeld env s p h =
      configured-IsHeld (run_api r s) (run_api-IsHeld s) (new_config env none).0 p h

  -- Whatever the configuration, the driver and the consumer do: when the processor exits, every database
  -- handle that it opened is closed, each once.
  pub processor_main-IsHeld :
      (env : Surroundings) (start : W → Option GoError × W) (p : Process W)
      → IsHeld 0 p.events
      → IsHeld 0 (processor_main r env start p).1.events
  unfolding processor_main
  processor_main-IsHeld env start p h =
      configured-IsHeld (run_processor r start) (run_processor-IsHeld start) (new_config env none).0
        p h
