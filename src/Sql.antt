-- ===== src/Sql.antt =====
-- nfsbroker/sql.go and the placeholders of nfsbroker/sql_mysql.go and sql_postgres.go: a connection
-- rewrites each query for its database. The driver behind `sqlshim.SqlDB` is a parameter.
pub mod Flavor
pub mod Connection
pub mod Postgres
pub mod Mysql
pub mod Variant
use nfsbroker.Base.{ℕ, suc, String, ◌<>◌, Option, List, [], ◌∷◌}
use nfsbroker.Base.Text.{split, join}
use nfsbroker.Base.Decimal.{decimal}
use nfsbroker.Api.{Error, Outcome, ok, err}
use nfsbroker.Exec.{Exec, ◌>>=◌, ◌>>◌}

-- An argument of a query: an identifier, or encoded details.
pub data Arg (J : Type 0) : Type 0 where
  id_arg : String → Arg J
  json_arg : J → Arg J

-- What `QueryRow(...).Scan(&id, &value)` comes to; `sql.ErrNoRows` is `no_rows`.
pub data Row (J : Type 0) : Type 0 where
  scanned : String → J → Row J
  no_rows : Row J
  row_error : Error → Row J

-- `sqlshim.SqlDB`, as far as the broker calls it, over a world `W`.
pub record SqlDb (J W : Type 0) : Type 0 where
  pub ping : Exec W (Unit {0})
  pub exec : String → List (Arg J) → W → Option Error × W
  pub query_row : String → String → W → Row J × W

-- `SqlVariant`: `open_db` is its `Connect`, which the driver decides on.
pub record SqlVariant (W : Type 0) : Type 0 where
  pub open_db : Exec W (Unit {0})
  pub flavorify : String → String

-- `(*mysqlVariant).Flavorify`
unfoldable pub flavorify_mysql : String → String
flavorify_mysql query = query

-- The loop of `(*postgresVariant).Flavorify`: a number goes behind every part but the last.
unfoldable pub number_parts : ℕ → List String → List String
number_parts i [] = []
number_parts i (part ∷ []) = part ∷ []
number_parts i (part ∷ next ∷ parts) =
    (part <> ("$" <> decimal i)) ∷ number_parts (suc i) (next ∷ parts)

-- `(*postgresVariant).Flavorify`
unfoldable pub flavorify_postgres : String → String
flavorify_postgres query = join "" (number_parts 1 (split b'?' query))

module _ {J W : Type 0} (db : SqlDb J W) (leaf : SqlVariant W) where
  -- `(*sqlConnection).Connect`
  unfoldable pub connect : Exec W (Unit {0})
  connect = leaf.open_db >> db.ping

  -- `(*sqlConnection).Exec`
  unfoldable pub exec : String → List (Arg J) → W → Option Error × W
  exec query args = db.exec (leaf.flavorify query) args

  -- `(*sqlConnection).QueryRow`, with the scan of its row.
  unfoldable pub query_row : String → String → W → Row J × W
  query_row query id = db.query_row (leaf.flavorify query) id
