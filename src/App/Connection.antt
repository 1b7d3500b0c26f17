-- ===== src/App/Connection.antt =====
-- NewPostgresRepoWithPoolAndMetrics and Close of `PostgresRepo`.
use casino_transaction_syste.Prelude.{String, Option, none, some, Result, ok, err}
use casino_transaction_syste.Prelude.Int.{pos}
use casino_transaction_syste.Config.{positive_or}
use casino_transaction_syste.Errors.{GoError, wrapped, db_unavailable}
use casino_transaction_syste.App.{
  PoolConfig, opened, limited, pinged, db_closed, attempted, close_failed, Process, Runtime, emit,
  at_world,
}

abbrev pub default_pool_config : PoolConfig
default_pool_config = record {
  max_open_conns = pos 25;
  max_idle_conns = pos 5;
  conn_max_lifetime = pos 300000000000;
}

-- The three tests on the pool's limits.
unfoldable pub with_limits : PoolConfig → PoolConfig
with_limits c = record {
  max_open_conns = positive_or 25 c.max_open_conns;
  max_idle_conns = positive_or 5 c.max_idle_conns;
  conn_max_lifetime = positive_or 300000000000 c.conn_max_lifetime;
}

module _ {W : Type 0} (r : Runtime W) where
  -- After `db.Close()` behind a ping that failed.
  abbrev pub discarded : Option GoError → Process W → Process W
  discarded none p = emit db_closed p
  discarded (some e) p = emit (attempted "error" "close_db") (emit db_closed p)

  abbrev pub after_ping : Option GoError → Process W → Result GoError (Unit {0}) × Process W
  after_ping none p = (ok tt, emit (attempted "success" "") (emit (pinged none) p))
  after_ping (some e) p =
      let q = emit (attempted "error" "ping") (emit (pinged (some e)) p) in
      let (failed, w) = r.sql_close q.world in
      (err (wrapped db_unavailable), discarded failed (at_world w q))

  abbrev pub after_open :
      PoolConfig → Option GoError → Process W → Result GoError (Unit {0}) × Process W
  after_open c (some e) p = (err (wrapped db_unavailable), emit (attempted "error" "open") p)
  after_open c none p =
      let q = emit (limited (with_limits c)) (emit opened p) in
      let (failed, w) = r.sql_ping q.world in after_ping failed (at_world w q)

  -- `ok` stands for the repository with its handle.
  unfoldable pub connect : String → PoolConfig → Process W → Result GoError (Unit {0}) × Process W
  unfolding with_limits
  connect url c p =
      let q = emit (attempted "started" "") p in
      let (failed, w) = r.sql_open url q.world in after_open c failed (at_world w q)

  abbrev pub after_close : Option GoError → Process W → Process W
  after_close none p = emit db_closed p
  after_close (some e) p = emit close_failed (emit db_closed p)

  -- `Close`, of a repository that has its handle.
  unfoldable pub close_repo : Process W → Process W
  close_repo p = let (failed, w) = r.sql_close p.world in after_close failed (at_world w p)

  -- NewPostgresRepo
  unfoldable pub new_postgres_repo : String → Process W → Result GoError (Unit {0}) × Process W
  unfolding connect
  new_postgres_repo url p = connect url default_pool_config p
