-- ===== src/App/Tests.antt =====
-- Concrete processes.
use casino_transaction_syste.Prelude.{ℕ, zero, suc, refl, false, Option, none, some, [], ok, err}
use casino_transaction_syste.Prelude.Int.{pos}
use casino_transaction_syste.Errors.{GoError, other, canceled}
use casino_transaction_syste.Config.{default_postgres, default_kafka}
use casino_transaction_syste.Config.Loading.{
  Config, Surroundings, empty_config, load_config, with_defaults,
}
use casino_transaction_syste.Config.Loading.Once.{Holds, IsReady, load_config-IsReady}
use casino_transaction_syste.App.{Process, Runtime}
use casino_transaction_syste.App.Programs.{
  cancelled, serve_failed, Server, api_main, processor_main,
}
use casino_transaction_syste.App.Lifecycle.{IsHeld, api_main-IsHeld, processor_main-IsHeld}

-- No file; the environment sets a pool of three connections.
abbrev surroundings : Surroundings
surroundings = record {
  config_path = "";
  exists = λ path. false;
  read_config = λ path cfg. ok cfg;
  read_env = λ cfg. ok (record cfg {
    postgres = record cfg.postgres { pool_max_open = pos 3; url = "postgres://db" };
  });
}

-- An environment that lacks a variable.
abbrev bare : Surroundings
bare = record surroundings { read_env = λ cfg. err (other 1) }

abbrev loaded : Config
unfolding with_defaults default_postgres default_kafka
loaded = with_defaults (record empty_config {
  postgres = record empty_config.postgres { pool_max_open = pos 3; url = "postgres://db" };
})

-- A driver whose pings fail where the world is not 0, and whose Close always fails.
abbrev driver : Runtime ℕ
driver = record {
  sql_open = λ url w. (none, w);
  sql_ping = λ w. (elim w [ zero ↦ none | suc n ↦ some (other 2) ], w);
  sql_close = λ w. (some (other 3), w);
}

-- A server that fails to listen.
abbrev server : Server ℕ
server = record { wait = λ w. (serve_failed (other 4), w); shutdown = λ w. (none, w) }

abbrev fresh : ℕ → Process ℕ
fresh w = record { world = w; events = [] }

load_config-IsReady_example : Holds IsReady (load_config surroundings)
load_config-IsReady_example = load_config-IsReady surroundings

api_main-IsHeld_example : IsHeld 0 (api_main driver surroundings server (fresh 0)).1.events
api_main-IsHeld_example = api_main-IsHeld driver surroundings server (fresh 0) refl

abbrev consume : ℕ → Option GoError × ℕ
consume w = (some canceled, w)

processor_main-IsHeld_example :
    IsHeld 0 (processor_main driver surroundings consume (fresh 0)).1.events
processor_main-IsHeld_example = processor_main-IsHeld driver surroundings consume (fresh 0) refl

-- A server that runs until a signal.
abbrev running : Server ℕ
running = record { wait = λ w. (cancelled, w); shutdown = λ w. (some (other 5), w) }
