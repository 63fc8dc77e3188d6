-- ===== src/Tests/Sql.antt =====
-- The theorems about the SQL store and the placeholders over a database in memory.
use native.Mathlib.Decide.{ℕ_discrete}
use nfsbroker.Base.{true, false, String, ◌≡◌, refl, none, some, inl, inr, string_dec}
use nfsbroker.Api.{ok, err, message}
use nfsbroker.Base.Text.{split, join}
use nfsbroker.Base.Decimal.{decimal, decimal_loop, digit}
use nfsbroker.Sql.{exec, query_row, flavorify_mysql, flavorify_postgres, number_parts}
use nfsbroker.Sql.Postgres as Postgres
use nfsbroker.Sql.Postgres.{Host, PostgresVariant, new_postgres_variant, Connected, connect-close}
use nfsbroker.Sql.Flavor.{placeholders, flavorify_postgres-eq-placeholders}
use nfsbroker.Store.File as FileStore
use nfsbroker.Externals.{Externals}
use nfsbroker.Store.{redact_binding_details, is_redacted}
use nfsbroker.Broker.{provision, provision_locked}
use nfsbroker.Broker.OverSql.{create_binding_details_unredacted, provision-ok_fresh}
use nfsbroker.Store.Sql.{
  sql_store, empty_details, create_binding_details, create_instance_details,
  retrieve_instance_details, is_instance_conflict, save,
}
use nfsbroker.Store.Sql.Database.{question, mysql-Speaks, postgres-Speaks, Speaks, dollar}
use nfsbroker.Store.Sql.Rows.{sql_view}
use nfsbroker.Store.Sql.Database.{RowSet, service_bindings}
use nfsbroker.Store.Sql.Inserts.{IsInserting, sql_store-IsInserting}
use nfsbroker.Tests.Samples.{externals, details_a, request_a, start}
use nfsbroker.Tests.Database.{
  database, mysql, postgres, details_codec, rows, details_codec-IsCodec, database-IsDatabase,
  duplicate, database-IsWorking,
}
use nfsbroker.Broker.Simulation.Sequences.{serve_all}
use nfsbroker.Broker.Reference.Tables.{HoldsRows, row_store}
use nfsbroker.Broker.Reference.Sql.{serve_all-row_store}
use nfsbroker.Tests.Samples.{broker_a}
use nfsbroker.Tests.Cycle.{requests_a}

variant-Speaks : Speaks dollar postgres
variant-Speaks = postgres-Speaks postgres refl

-- A service's tables, written with MySQL's placeholders.
sql_store-IsInserting_example :
    IsInserting database mysql details_codec rows question database-IsDatabase
      (mysql-Speaks mysql refl)
      details_codec-IsCodec
      externals
sql_store-IsInserting_example =
    sql_store-IsInserting database mysql details_codec rows question database-IsDatabase
      (mysql-Speaks mysql refl) details_codec-IsCodec externals

flavorify_postgres-eq-placeholders_example :
    flavorify_postgres "VALUES (?, ?)" ≡ placeholders 1 "VALUES (?, ?)"
flavorify_postgres-eq-placeholders_example = flavorify_postgres-eq-placeholders "VALUES (?, ?)"

-- A run of the rewriting.
flavorify_postgres_values : flavorify_postgres "VALUES (?, ?)" ≡ "VALUES ($1, $2)"
unfolding flavorify_postgres number_parts split join decimal decimal_loop digit ℕ_discrete
flavorify_postgres_values = refl

-- Redaction fails where nothing can be encoded.
abbrev broken : Externals
broken = record externals { marshal = λ p. inl (message "unsupported") }

create_binding_details_unredacted_example :
    let r =
      create_binding_details database mysql details_codec broken "salt" "binding" details_a
        (λ t k. none) in
    (FileStore.create_binding_details broken "salt" "binding" details_a start
      ≡ (err (message "unsupported"), start))
    × (r.0 ≡ ok tt)
    × RowSet rows service_bindings "binding" (some (inr empty_details)) (λ t k. none) r.1
unfolding redact_binding_details is_redacted
create_binding_details_unredacted_example =
    create_binding_details_unredacted database mysql details_codec rows question database-IsDatabase
      (mysql-Speaks mysql refl) duplicate database-IsWorking broken "salt" "binding" details_a
      (message "unsupported") (inr empty_details) (λ t k. none) start refl refl refl

provision-ok_fresh_example : (sql_view details_codec rows).instances (λ t k. none) "a" ≡ none
unfolding provision provision_locked is_instance_conflict retrieve_instance_details query_row
    create_instance_details save exec string_dec flavorify_mysql
provision-ok_fresh_example =
    provision-ok_fresh database mysql details_codec rows question database-IsDatabase
      (mysql-Speaks mysql refl) details_codec-IsCodec externals "a" request_a false (λ t k. none)
      refl

-- A file system that holds the text of one file.
abbrev host : Host String
host = record {
  append_certs = λ cert. true;
  temp_file = λ disk. (inr "/tmp/ca", disk);
  write_file = λ name cert disk. (none, cert);
  close_file = λ name disk. (none, disk);
  open_sql = λ driver connection disk. (none, disk);
  remove = λ name disk. (none, "");
}

abbrev variant : PostgresVariant
variant = new_postgres_variant "user" "secret" "db.example" "5432" "broker" "CERT"

connect-close_example : Connected host variant ""
unfolding Postgres.connect string_dec new_postgres_variant
connect-close_example = connect-close host variant "" refl

serve_all-row_store_example :
    ((serve_all externals
        (sql_store database mysql details_codec externals)
        broker_a
        requests_a
        (λ t k. none)).0
      ≡ (serve_all externals
          (row_store duplicate details_codec externals)
          broker_a
          requests_a
          (λ t k. none)).0)
    × HoldsRows rows
        (serve_all externals
          (sql_store database mysql details_codec externals)
          broker_a
          requests_a
          (λ t k. none)).1
        (serve_all externals
          (row_store duplicate details_codec externals)
          broker_a
          requests_a
          (λ t k. none)).1
serve_all-row_store_example =
    serve_all-row_store database mysql details_codec rows question database-IsDatabase
      (mysql-Speaks mysql refl) duplicate database-IsWorking externals broker_a requests_a
      (λ t k. none) (λ t k. none) (λ t k. refl)
