-- ===== src/Fakes/Sql.antt =====
-- nfsbrokerfakes/fake_sql_variant.go and nfsbrokerfakes/fake_sql_connection.go: doubles of the
-- `SqlVariant` and `SqlConnection` interfaces; and nfsbrokerfakes/fake_sql_mock_connection.go. The types of `database/sql` are parameters, and `none`
-- is a nil pointer or interface.
use nfsbroker.Base.{String, Option, none, List}
use nfsbroker.Base.Decimal.{ℤ}
use nfsbroker.Api.{Error, Outcome, ok}
use nfsbroker.Fakes.{Method, fresh, Double, double}

-- `FakeSqlVariant`, over the type behind `sqlshim.SqlDB`
pub record FakeSqlVariant (Db W : Type 0) : Type 0 where
  pub connect : Method W (Unit {0}) (Option Db × Option Error)
  pub flavorify : Method W String String
  pub close : Method W (Unit {0}) (Option Error)

-- `new(FakeSqlVariant)`
abbrev pub new_fake_sql_variant : {Db W : Type 0} → FakeSqlVariant Db W
new_fake_sql_variant = record {
  connect = fresh (none, none);
  flavorify = fresh "";
  close = fresh none;
}

module _ {Db W : Type 0} where
  -- `Connect` and the functions beside it
  abbrev pub variant_connect_double :
      Double (FakeSqlVariant Db W) W (Unit {0}) (Option Db × Option Error)
  variant_connect_double = double (λ f. f.connect) (λ m f. record f { connect = m })

  -- `Flavorify` and the functions beside it
  abbrev pub variant_flavorify_double : Double (FakeSqlVariant Db W) W String String
  variant_flavorify_double = double (λ f. f.flavorify) (λ m f. record f { flavorify = m })

  -- `Close` and the functions beside it
  abbrev pub variant_close_double : Double (FakeSqlVariant Db W) W (Unit {0}) (Option Error)
  variant_close_double = double (λ f. f.close) (λ m f. record f { close = m })

-- The types of `database/sql` that a connection returns, and the zero value of `sql.DBStats`.
pub record SqlTypes : Type 1 where
  pub Stats : Type 0
  pub Stmt : Type 0
  pub Result : Type 0
  pub Rows : Type 0
  pub Row : Type 0
  pub Tx : Type 0
  pub Driver : Type 0
  pub Argument : Type 0
  pub no_stats : Stats

-- `FakeSqlConnection`
pub record FakeSqlConnection (T : SqlTypes) (W : Type 0) : Type 0 where
  pub connect : Method W (Unit {0}) (Option Error)
  pub ping : Method W (Unit {0}) (Option Error)
  pub close : Method W (Unit {0}) (Option Error)
  pub set_max_idle_conns : Method W ℤ (Unit {0})
  pub set_max_open_conns : Method W ℤ (Unit {0})
  pub set_conn_max_lifetime : Method W ℤ (Unit {0})
  pub stats : Method W (Unit {0}) T.Stats
  pub prepare : Method W String (Option T.Stmt × Option Error)
  pub exec : Method W (String × List T.Argument) (Option T.Result × Option Error)
  pub query : Method W (String × List T.Argument) (Option T.Rows × Option Error)
  pub query_row : Method W (String × List T.Argument) (Option T.Row)
  pub begin : Method W (Unit {0}) (Option T.Tx × Option Error)
  pub driver : Method W (Unit {0}) (Option T.Driver)

-- `new(FakeSqlConnection)`
abbrev pub new_fake_sql_connection : (T : SqlTypes) {W : Type 0} → FakeSqlConnection T W
new_fake_sql_connection T = record {
  connect = fresh none;
  ping = fresh none;
  close = fresh none;
  set_max_idle_conns = fresh tt;
  set_max_open_conns = fresh tt;
  set_conn_max_lifetime = fresh tt;
  stats = fresh T.no_stats;
  prepare = fresh (none, none);
  exec = fresh (none, none);
  query = fresh (none, none);
  query_row = fresh none;
  begin = fresh (none, none);
  driver = fresh none;
}

module _ (T : SqlTypes) {W : Type 0} where
  -- `Connect` and the functions beside it
  abbrev pub connection_connect_double : Double (FakeSqlConnection T W) W (Unit {0}) (Option Error)
  connection_connect_double = double (λ f. f.connect) (λ m f. record f { connect = m })

  -- `Ping` and the functions beside it
  abbrev pub connection_ping_double : Double (FakeSqlConnection T W) W (Unit {0}) (Option Error)
  connection_ping_double = double (λ f. f.ping) (λ m f. record f { ping = m })

  -- `Close` and the functions beside it
  abbrev pub connection_close_double : Double (FakeSqlConnection T W) W (Unit {0}) (Option Error)
  connection_close_double = double (λ f. f.close) (λ m f. record f { close = m })

  -- `SetMaxIdleConns` and the functions beside it
  abbrev pub connection_set_max_idle_conns_double : Double (FakeSqlConnection T W) W ℤ (Unit {0})
  connection_set_max_idle_conns_double =
      double (λ f. f.set_max_idle_conns) (λ m f. record f { set_max_idle_conns = m })

  -- `SetMaxOpenConns` and the functions beside it
  abbrev pub connection_set_max_open_conns_double : Double (FakeSqlConnection T W) W ℤ (Unit {0})
  connection_set_max_open_conns_double =
      double (λ f. f.set_max_open_conns) (λ m f. record f { set_max_open_conns = m })

  -- `SetConnMaxLifetime` and the functions beside it
  abbrev pub connection_set_conn_max_lifetime_double : Double (FakeSqlConnection T W) W ℤ (Unit {0})
  connection_set_conn_max_lifetime_double =
      double (λ f. f.set_conn_max_lifetime) (λ m f. record f { set_conn_max_lifetime = m })

  -- `Stats` and the functions beside it
  abbrev pub connection_stats_double : Double (FakeSqlConnection T W) W (Unit {0}) T.Stats
  connection_stats_double = double (λ f. f.stats) (λ m f. record f { stats = m })

  -- `Prepare` and the functions beside it
  abbrev pub connection_prepare_double :
      Double (FakeSqlConnection T W) W String (Option T.Stmt × Option Error)
  connection_prepare_double = double (λ f. f.prepare) (λ m f. record f { prepare = m })

  -- `Exec` and the functions beside it
  abbrev pub connection_exec_double :
      Double (FakeSqlConnection T W) W (String × List T.Argument) (Option T.Result × Option Error)
  connection_exec_double = double (λ f. f.exec) (λ m f. record f { exec = m })

  -- `Query` and the functions beside it
  abbrev pub connection_query_double :
      Double (FakeSqlConnection T W) W (String × List T.Argument) (Option T.Rows × Option Error)
  connection_query_double = double (λ f. f.query) (λ m f. record f { query = m })

  -- `QueryRow` and the functions beside it
  abbrev pub connection_query_row_double :
      Double (FakeSqlConnection T W) W (String × List T.Argument) (Option T.Row)
  connection_query_row_double = double (λ f. f.query_row) (λ m f. record f { query_row = m })

  -- `Begin` and the functions beside it
  abbrev pub connection_begin_double :
      Double (FakeSqlConnection T W) W (Unit {0}) (Option T.Tx × Option Error)
  connection_begin_double = double (λ f. f.begin) (λ m f. record f { begin = m })

  -- `Driver` and the functions beside it
  abbrev pub connection_driver_double :
      Double (FakeSqlConnection T W) W (Unit {0}) (Option T.Driver)
  connection_driver_double = double (λ f. f.driver) (λ m f. record f { driver = m })

-- `FakeSQLMockConnection`: a database that a test provides, as a connection that is open already.
pub record FakeSqlMockConnection (Db : Type 0) : Type 0 where
  pub sql_db : Db

abbrev pub mock_connect : {Db : Type 0} → FakeSqlMockConnection Db → Outcome (Unit {0})
mock_connect fake = ok tt
