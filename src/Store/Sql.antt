-- ===== src/Store/Sql.antt =====
-- nfsbroker/store_sql.go: the store over two tables of a database, with a connection of
-- nfsbroker/sql.go. The JSON form of what is stored is a parameter, of a type `J`.
pub mod Database
pub mod Rows
pub mod Lawful
pub mod Inserts
pub mod Working
use nfsbroker.Base.{
  String, ◌<>◌, Bool, true, false, not, Option, none, some, List, [], ◌∷◌, ◌⊎◌, inl, inr,
}
use nfsbroker.Api.{
  Error, message, instance_does_not_exist, Outcome, ok, err, panic, ServiceInstance, instance_eq,
  BindDetails,
}
use nfsbroker.Exec.{Exec, pure, raise, ◌>>=◌, ◌>>◌}
use nfsbroker.Externals.{Externals}
use nfsbroker.Store.{Store, redact_binding_details, is_binding_conflict}
use nfsbroker.Sql.{
  Arg, id_arg, json_arg, Row, scanned, no_rows, row_error, SqlDb, SqlVariant, connect, exec,
  query_row,
}

-- `json.Marshal` and `json.Unmarshal` of what the two tables hold.
pub record DetailsCodec (J : Type 0) : Type 0 where
  pub marshal_instance : ServiceInstance → Error ⊎ J
  pub unmarshal_instance : J → Error ⊎ ServiceInstance
  pub marshal_binding : BindDetails → Error ⊎ J
  pub unmarshal_binding : J → Error ⊎ BindDetails

-- `brokerapi.BindDetails{}`
abbrev pub empty_details : BindDetails
empty_details = record {
  app_guid = "";
  plan_id = "";
  service_id = "";
  bind_resource = none;
  parameters = none;
}

-- The details that are stored for the result of `redactBindingDetails`, whose error is dropped.
abbrev pub stored_details : Error ⊎ BindDetails → BindDetails
stored_details (inl e) = empty_details
stored_details (inr d) = d

-- `IsInstanceConflict` on what was retrieved.
abbrev pub is_other : Outcome ServiceInstance → ServiceInstance → Outcome Bool
is_other (ok existing) details = ok (not (instance_eq details existing))
is_other _ details = ok false

abbrev pub statement_ends : Option Error → Outcome (Unit {0})
statement_ends none = ok tt
statement_ends (some e) = err e

-- What is made, if the database was initialized.
abbrev pub made : {A : Type 0} → A → Outcome (Unit {0}) → Outcome A
made a (ok u) = ok a
made a (err e) = err e
made a panic = panic

module _ {J W : Type 0} (db : SqlDb J W) (leaf : SqlVariant W) (codec : DetailsCodec J) where
  -- A statement, of which only the error is used.
  abbrev pub execute : String → List (Arg J) → Exec W (Unit {0})
  execute query args s = let (e, s') = exec db leaf query args s in (statement_ends e, s')

  -- A call that writes what encoding gives.
  abbrev pub insert : String → String → Error ⊎ J → Exec W (Unit {0})
  insert query id (inl e) = raise e
  insert query id (inr json_data) = execute query (id_arg id ∷ json_arg json_data ∷ [])

  -- What a row decodes to.
  abbrev decode : {A : Type 0} → (J → Error ⊎ A) → Row J → Outcome A
  decode unmarshal (scanned _ value) = elim (unmarshal value) [ inl e ↦ err e | inr d ↦ ok d ]
  decode unmarshal no_rows = err instance_does_not_exist
  decode unmarshal (row_error e) = err e

  -- `initialize`
  unfoldable pub initialize : Exec W (Unit {0})
  initialize = do
    connect db leaf
    execute
        "\n\t\t\tCREATE TABLE IF NOT EXISTS service_instances(\n\t\t\t\tid VARCHAR(255) PRIMARY KEY,\n\t\t\t\tvalue VARCHAR(4096)\n\t\t\t)\n\t\t"
        []
    execute
        "\n\t\t\tCREATE TABLE IF NOT EXISTS service_bindings(\n\t\t\t\tid VARCHAR(255) PRIMARY KEY,\n\t\t\t\tvalue VARCHAR(4096)\n\t\t\t)\n\t\t"
        []

  -- `CreateInstanceDetails`
  unfoldable pub create_instance_details : String → ServiceInstance → Exec W (Unit {0})
  create_instance_details id details =
      insert "INSERT INTO service_instances (id, value) VALUES (?, ?)" id
        (codec.marshal_instance details)

  -- `RetrieveInstanceDetails`
  unfoldable pub retrieve_instance_details : String → Exec W ServiceInstance
  retrieve_instance_details id s =
      let (row, s') =
        query_row db leaf "SELECT id, value FROM service_instances WHERE id = ?" id s in
      (decode codec.unmarshal_instance row, s')

  -- `RetrieveBindingDetails`
  unfoldable pub retrieve_binding_details : String → Exec W BindDetails
  retrieve_binding_details id s =
      let (row, s') =
        query_row db leaf "SELECT id, value FROM service_bindings WHERE id = ?" id s in
      (decode codec.unmarshal_binding row, s')

  -- `DeleteInstanceDetails`
  unfoldable pub delete_instance_details : String → Exec W (Unit {0})
  delete_instance_details id = execute "DELETE FROM service_instances WHERE id = ?" (id_arg id ∷ [])

  -- `DeleteBindingDetails`
  unfoldable pub delete_binding_details : String → Exec W (Unit {0})
  delete_binding_details id = execute "DELETE FROM service_bindings WHERE id = ?" (id_arg id ∷ [])

  -- `IsInstanceConflict`
  unfoldable pub is_instance_conflict : String → ServiceInstance → Exec W Bool
  is_instance_conflict id details s =
      let (o, s') = retrieve_instance_details id s in (is_other o details, s')

  -- `Restore`, `Save` and `Cleanup` do nothing.
  unfoldable pub restore : Exec W (Unit {0})
  restore = pure tt

  unfoldable pub save : Exec W (Unit {0})
  save = pure tt

  unfoldable pub cleanup : Exec W (Unit {0})
  cleanup = pure tt

  module _ (E : Externals) where
    -- `CreateBindingDetails`
    unfoldable pub create_binding_details : String → String → BindDetails → Exec W (Unit {0})
    create_binding_details salt id details =
        insert "INSERT INTO service_bindings (id, value) VALUES (?, ?)" id
          (codec.marshal_binding (stored_details (redact_binding_details E salt details)))

    -- `SqlStore` as a `Store`
    abbrev pub sql_store : Store W
    sql_store = record {
      retrieve_instance_details = retrieve_instance_details;
      retrieve_binding_details = retrieve_binding_details;
      create_instance_details = create_instance_details;
      create_binding_details = create_binding_details;
      delete_instance_details = delete_instance_details;
      delete_binding_details = delete_binding_details;
      is_instance_conflict = is_instance_conflict;
      is_binding_conflict = is_binding_conflict E retrieve_binding_details;
      restore = restore;
      save = save;
      cleanup = cleanup;
    }

    -- `NewSqlStoreWithVariant`
    unfoldable pub new_sql_store_with_variant : Exec W (Store W)
    new_sql_store_with_variant s = let (o, s') = initialize s in (made sql_store o, s')
