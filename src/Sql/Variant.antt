-- ===== src/Sql/Variant.antt =====
-- The two variants of nfsbroker/sql_mysql.go and nfsbroker/sql_postgres.go behind the interface of
-- nfsbroker/sql.go. A call goes to the method of the variant that the connection was made with.
use nfsbroker.Base.{
  String, ◌<>◌, ◌≡◌, ◌≢◌, arith, ◌⊎◌, inl, inr, ◌==◌, if◌then◌else◌, Bool-cases, ==-eq,
}
use nfsbroker.Api.{Error, message}
use nfsbroker.Exec.{Exec}
use nfsbroker.Sql.{SqlDb, SqlVariant, flavorify_mysql, flavorify_postgres}
use nfsbroker.Sql.Mysql as Mysql
use nfsbroker.Sql.Mysql.{MysqlVariant, Driver, new_mysql_variant}
use nfsbroker.Sql.Postgres as Postgres
use nfsbroker.Sql.Postgres.{PostgresVariant, Host, new_postgres_variant}

pub data Variant : Type 0 where
  mysql : MysqlVariant → Variant
  postgres : PostgresVariant → Variant

-- The variant that `NewSqlStore` makes for a driver's name.
unfoldable pub variant_of :
    String → String → String → String → String → String → String → Error ⊎ Variant
variant_of db_driver username password host port db_name ca_cert =
    if db_driver == "mysql"
    then inr (mysql (new_mysql_variant username password host port db_name ca_cert))
    else if db_driver == "postgres"
    then inr (postgres (new_postgres_variant username password host port db_name ca_cert))
    else inl (message ("Unrecognized Driver: " <> db_driver))

-- Only the two names are accepted, each for its own class.
pub variant_of-eq-inr :
    (d username password host port db_name ca_cert : String) {v : Variant}
    → variant_of d username password host port db_name ca_cert ≡ inr v
    → ((d ≡ "mysql") × (v ≡ mysql (new_mysql_variant username password host port db_name ca_cert)))
      ⊎ ((d ≡ "postgres")
          × (v ≡ postgres (new_postgres_variant username password host port db_name ca_cert)))
unfolding variant_of
variant_of-eq-inr d username password host port db_name ca_cert chosen =
    elim (Bool-cases (d == "mysql")) [
      | inl is_mysql ↦ let chosen' = rw is_mysql at chosen in inl (==-eq d "mysql" is_mysql, cc)
      | inr other ↦
          let chosen' = rw other at chosen in
          elim (Bool-cases (d == "postgres")) [
            | inl is_postgres ↦
                let chosen'' = rw is_postgres at chosen' in inr (==-eq d "postgres" is_postgres, cc)
            | inr neither ↦ absurd (let chosen'' = rw neither at chosen' in cc)
          ]
    ]

-- Any other name is refused.
pub variant_of-eq-inl :
    (d username password host port db_name ca_cert : String) {e : Error}
    → variant_of d username password host port db_name ca_cert ≡ inl e
    → (d ≢ "mysql") × (d ≢ "postgres")
unfolding variant_of
variant_of-eq-inl d username password host port db_name ca_cert refused =
    elim (Bool-cases (d == "mysql")) [
      | inl is_mysql ↦ absurd (let refused' = rw is_mysql at refused in cc)
      | inr other ↦
          let refused' = rw other at refused in
          elim (Bool-cases (d == "postgres")) [
            | inl is_postgres ↦ absurd (let refused'' = rw is_postgres at refused' in cc)
            | inr neither ↦
                ((λ same. absurd (ground (arith, other))), λ same. absurd (ground (arith, neither)))
          ]
    ]

-- A method of one class of variant, as one of any variant.
abbrev pub as_variant : {V W A : Type 0} → (V → Variant) → A × (V × W) → A × (Variant × W)
as_variant f (o, (v, w)) = (o, (f v, w))

module _ {W : Type 0} (driver : Driver W) (host : Host W) where
  unfoldable pub connect_variant : Exec (Variant × W) (Unit {0})
  connect_variant (mysql v, w) = as_variant mysql (Mysql.connect driver (v, w))
  connect_variant (postgres v, w) = as_variant postgres (Postgres.connect host (v, w))

  unfoldable pub close_variant : Exec (Variant × W) (Unit {0})
  close_variant (mysql v, w) = as_variant mysql (Mysql.close driver (v, w))
  close_variant (postgres v, w) = as_variant postgres (Postgres.close host (v, w))

  abbrev pub flavorify_of : Variant → String → String
  flavorify_of (mysql v) = flavorify_mysql
  flavorify_of (postgres v) = flavorify_postgres

  -- The variant, whose own fields are a part of the state.
  abbrev pub leaf_of : Variant → SqlVariant (Variant × W)
  leaf_of v = record { open_db = connect_variant; flavorify = flavorify_of v }

-- The database beside the variant's fields.
abbrev beside : {V W A : Type 0} → V → A × W → A × (V × W)
beside v (a, w) = (a, (v, w))

abbrev pub beside_variant : {J W : Type 0} → SqlDb J W → SqlDb J (Variant × W)
beside_variant db = record {
  ping = λ s. beside s.0 (db.ping s.1);
  exec = λ query args s. beside s.0 (db.exec query args s.1);
  query_row = λ query id s. beside s.0 (db.query_row query id s.1);
}
