-- ===== src/Tests/Atomic.antt =====
-- A process that ends while a goroutine is between the insert of its instance and its save.
use native.Mathlib.Decide.{ℕ_discrete}
use nfsbroker.Base.{ℕ, refl, false, none, string_dec}
use nfsbroker.Store.{Store}
use nfsbroker.Sql.{exec, query_row, flavorify_mysql}
use nfsbroker.Store.Sql.{
  sql_store, create_instance_details, is_instance_conflict, retrieve_instance_details,
}
use nfsbroker.Store.Sql.Database.{question, mysql-Speaks}
use nfsbroker.Broker.Requests.{Request, to_provision}
use nfsbroker.Broker.Programs.{chain, provision_program}
use nfsbroker.Broker.Server.{Server, init, lock, call, Reach, start, later}
use nfsbroker.Broker.Atomic.Sql.{Recovers, reach-Recovers}
use nfsbroker.Tests.Samples.{externals, request_a, broker_a}
use nfsbroker.Tests.Database.{
  Tables, database, mysql, details_codec, rows, database-IsDatabase, duplicate, database-IsWorking,
}

abbrev store_sql : Store Tables
store_sql = sql_store database mysql details_codec externals

abbrev no_rows : Tables
no_rows t k = none

abbrev requests_a : ℕ → Request
requests_a i = to_provision "a" request_a false

abbrev Reached : Type 0
Reached = (v : Server Tables) × Reach externals store_sql broker_a requests_a (init no_rows) v

inserted_a : Reached
unfolding provision_program chain ℕ_discrete is_instance_conflict retrieve_instance_details
    query_row create_instance_details exec string_dec flavorify_mysql
inserted_a = (_, later (later (later start (lock 0 refl refl refl)) (call 0 refl)) (call 0 refl))

reach-Recovers_example :
    Recovers database mysql details_codec rows question database-IsDatabase
      (mysql-Speaks mysql refl)
      externals
      duplicate
      database-IsWorking
      broker_a
      requests_a
      no_rows
      inserted_a.0
      inserted_a.0.store
reach-Recovers_example =
    reach-Recovers database mysql details_codec rows question database-IsDatabase
      (mysql-Speaks mysql refl) externals duplicate database-IsWorking broker_a requests_a
      inserted_a.0.store inserted_a.1 (λ t k. refl)
