-- ===== src/App.antt =====
-- The two programs, from main to its exit: internal/app, internal/bootstrap and cmd, with the constructor
-- and Close of internal/repository/postgresql.go. database/sql, the HTTP server and the consumer's Start
-- are parameters.
pub mod Connection
pub mod Programs
pub mod Lifecycle
pub mod Exit
pub mod Pool
pub mod Wiring
mod Tests
use casino_transaction_syste.Prelude.{
  ℕ, suc, String, Bool, true, false, Option, none, some, List, [], ◌∷◌,
}
use casino_transaction_syste.Prelude.Int.{ℤ}
use casino_transaction_syste.Errors.{GoError}

-- `PoolConfig`; the lifetime is in nanoseconds.
pub record PoolConfig : Type 0 where
  pub max_open_conns : ℤ
  pub max_idle_conns : ℤ
  pub conn_max_lifetime : ℤ

-- What a process does to its database handle, its server and its consumer, and the counter of the
-- attempts to connect with its result and reason.
pub data Event : Type 0 where
  opened : Event
  limited : PoolConfig → Event
  pinged : Option GoError → Event
  db_closed : Event
  attempted : String → String → Event
  close_failed : Event
  shut_down : Event
  consumed : Event

pub record Process (W : Type 0) : Type 0 where
  pub world : W
  -- the newest first
  pub events : List Event

-- `none` is the nil error.
pub record Runtime (W : Type 0) : Type 0 where
  -- sql.Open, and Ping and Close of the handle
  pub sql_open : String → W → Option GoError × W
  pub sql_ping : W → Option GoError × W
  pub sql_close : W → Option GoError × W

abbrev pub emit : {W : Type 0} → Event → Process W → Process W
emit e p = record p { events = e ∷ p.events }

abbrev pub at_world : {W : Type 0} → W → Process W → Process W
at_world w p = record p { world = w }
