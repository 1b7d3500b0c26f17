-- ===== src/App/Programs.antt =====
-- The API and the processor, from main to the exit.
use casino_transaction_syste.Prelude.{ℕ, Bool, true, false, Option, none, some, Result, ok, err}
use casino_transaction_syste.Prelude.Int.{pos, ◌*ℤ◌}
use casino_transaction_syste.Config.{Postgres}
use casino_transaction_syste.Config.Loading.{Config, Surroundings, new_config}
use casino_transaction_syste.Errors.{GoError}
use casino_transaction_syste.App.{PoolConfig, shut_down, consumed, Process, Runtime, emit, at_world}
use casino_transaction_syste.App.Connection.{connect, close_repo}

-- What the `select` of Run receives: the end of the context, or the error of ListenAndServe, which is
-- http.ErrServerClosed or another one.
pub data Wakeup : Type 0 where
  cancelled : Wakeup
  server_closed : Wakeup
  serve_failed : GoError → Wakeup

-- The HTTP server: how the wait in Run ends, and Shutdown.
pub record Server (W : Type 0) : Type 0 where
  pub wait : W → Wakeup × W
  pub shutdown : W → Option GoError × W

-- The poolCfg of bootstrap.
unfoldable pub pool_of : Postgres → PoolConfig
pool_of p = record {
  max_open_conns = p.pool_max_open;
  max_idle_conns = p.pool_max_idle;
  conn_max_lifetime = p.conn_max_lifetime_minutes *ℤ pos 60000000000;
}

-- The exit code of a process whose Run returned this error, or none.
abbrev pub exit_code : Option GoError → ℕ
exit_code none = 0
exit_code (some e) = 1

module _ {W : Type 0} (r : Runtime W) where
  -- `closeResources`, where `done` says that `closeOnce` has run.
  unfoldable pub close_resources : Bool → Process W → Bool × Process W
  unfolding close_repo
  close_resources true p = (true, p)
  close_resources false p = (true, close_repo r p)

  module _ (s : Server W) where
    -- The end of Run that all wakeups but an error share.
    abbrev pub graceful : Process W → Option GoError × Process W
    graceful p =
        let (failed, w) = s.shutdown p.world in
        (none, (close_resources false (emit shut_down (at_world w p))).1)

    abbrev pub after_wait : Wakeup → Process W → Option GoError × Process W
    after_wait cancelled p = graceful p
    after_wait server_closed p = graceful p
    after_wait (serve_failed e) p = (some e, (close_resources false p).1)

    -- `Run` of ApiApp.
    unfoldable pub run_api : Process W → Option GoError × Process W
    unfolding close_resources
    run_api p = let (wakeup, w) = s.wait p.world in after_wait wakeup (at_world w p)

  -- `Run` of ProcessorApp; `start` is Start of the consumer.
  unfoldable pub run_processor : (W → Option GoError × W) → Process W → Option GoError × Process W
  unfolding close_repo
  run_processor start p =
      let (failed, w) = start p.world in (failed, close_repo r (emit consumed (at_world w p)))

  -- What main does with the app that bootstrap built, or did not build.
  abbrev pub built :
      (Process W → Option GoError × Process W)
      → Result GoError (Unit {0}) × Process W
      → ℕ × Process W
  built run (err e, p) = (1, p)
  built run (ok _, p) = let (failed, q) = run p in (exit_code failed, q)

  -- NewApiApp and NewProcessorApp of bootstrap, as far as they can fail, and the rest of main.
  abbrev pub configured :
      (Process W → Option GoError × Process W) → Result GoError Config → Process W → ℕ × Process W
  configured run (err e) p = (1, p)
  configured run (ok cfg) p = built run (connect r cfg.postgres.url (pool_of cfg.postgres) p)

  -- main of cmd/api.
  unfoldable pub api_main : Surroundings → Server W → Process W → ℕ × Process W
  unfolding new_config connect pool_of run_api
  api_main env s p = configured (run_api s) (new_config env none).0 p

  -- main of cmd/processor.
  unfoldable pub processor_main :
      Surroundings → (W → Option GoError × W) → Process W → ℕ × Process W
  unfolding new_config connect pool_of run_processor
  processor_main env start p = configured (run_processor start) (new_config env none).0 p
