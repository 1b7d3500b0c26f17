-- ===== src/App/Exit.antt =====
-- What the exit code of the API says.
use casino_transaction_syste.Prelude.{
  absurd, ◌≡◌, Option, none, some, List, ◌∷◌, Result, ok, err, arith,
}
use casino_transaction_syste.Errors.{GoError}
use casino_transaction_syste.Config.Loading.{Config, Surroundings, new_config}
use casino_transaction_syste.App.{
  Event, db_closed, close_failed, shut_down, Process, Runtime, emit, at_world,
}
use casino_transaction_syste.App.Connection.{connect, after_close, close_repo}
use casino_transaction_syste.App.Programs.{
  Wakeup, cancelled, server_closed, serve_failed, Server, pool_of, exit_code, close_resources,
  graceful, after_wait, run_api, built, configured, api_main,
}

-- The last events are the shutdown of the server and then the close of the handle.
abbrev pub IsGraceful : List Event → Type 0
IsGraceful (db_closed ∷ shut_down ∷ es) = Unit
IsGraceful (close_failed ∷ db_closed ∷ shut_down ∷ es) = Unit
IsGraceful es = ⊥

module _ {W : Type 0} (r : Runtime W) (s : Server W) where
  after_close-IsGraceful :
      (failed : Option GoError) (p : Process W)
      → IsGraceful (after_close r failed (emit shut_down p)).events
  after_close-IsGraceful none p = tt
  after_close-IsGraceful (some e) p = tt

  graceful-IsGraceful : (p : Process W) → IsGraceful (graceful r s p).1.events
  unfolding close_resources close_repo
  graceful-IsGraceful p =
      let (f, w) = s.shutdown p.world in
      let (g, v) = r.sql_close w in after_close-IsGraceful g (at_world v p)

  after_wait-IsGraceful :
      (wakeup : Wakeup) (p : Process W)
      → exit_code (after_wait r s wakeup p).0 ≡ 0
      → IsGraceful (after_wait r s wakeup p).1.events
  after_wait-IsGraceful cancelled p h = graceful-IsGraceful p
  after_wait-IsGraceful server_closed p h = graceful-IsGraceful p
  after_wait-IsGraceful (serve_failed e) p h = absurd (omega arith)

  run_api-IsGraceful :
      (p : Process W) → exit_code (run_api r s p).0 ≡ 0 → IsGraceful (run_api r s p).1.events
  unfolding run_api
  run_api-IsGraceful p h =
      let (wakeup, w) = s.wait p.world in after_wait-IsGraceful wakeup (at_world w p) h

  built-IsGraceful :
      (c : Result GoError (Unit {0}) × Process W)
      → (built r (run_api r s) c).0 ≡ 0
      → IsGraceful (built r (run_api r s) c).1.events
  built-IsGraceful (err e, p) h = absurd (omega arith)
  built-IsGraceful (ok v, p) h = run_api-IsGraceful p h

  configured-IsGraceful :
      (cfg : Result GoError Config) (p : Process W)
      → (configured r (run_api r s) cfg p).0 ≡ 0
      → IsGraceful (configured r (run_api r s) cfg p).1.events
  configured-IsGraceful (err e) p h = absurd (omega arith)
  configured-IsGraceful (ok cfg) p h =
      built-IsGraceful (connect r cfg.postgres.url (pool_of cfg.postgres) p) h

  -- Where the API exits with code 0, its last steps were to shut the server down and then to close the
  -- database handle.
  pub api_main-IsGraceful :
      (env : Surroundings) (p : Process W)
      → (api_main r env s p).0 ≡ 0
      → IsGraceful (api_main r env s p).1.events
  unfolding api_main
  api_main-IsGraceful env p h = configured-IsGraceful (new_config env none).0 p h
