-- ===== src/Broker/Reference/Tables.antt =====
-- A reference for the store of nfsbroker/store_sql.go: two tables that are functions, with an
-- identifier as their key, and no statements, no connection and no driver.
use nfsbroker.Base.{String, ◌≡◌, Option, none, some, ◌⊎◌, inl, inr, ◌==◌, ◌&&◌, if◌then◌else◌}
use nfsbroker.Api.{Error, Outcome, ok, err}
use nfsbroker.Exec.{Exec}
use nfsbroker.Externals.{Externals}
use nfsbroker.Store.{Store, redact_binding_details, conflict_found}
use nfsbroker.Store.Sql.{DetailsCodec, stored_details, is_other}
use nfsbroker.Store.Sql.Database.{Table, service_instances, service_bindings, same_table}
use nfsbroker.Store.Sql.Working.{read_row}

-- The JSON that each table holds for an identifier.
abbrev pub Tables : Type 0 → Type 0
Tables J = Table → String → Option J

-- A database whose rows are `rows` holds those of the tables.
abbrev pub HoldsRows : {J W : Type 0} → (W → Table → String → Option J) → W → Tables J → Type 0
HoldsRows rows s m = (t : Table) (k : String) → rows s t k ≡ m t k

-- The tables with one row changed.
abbrev pub with_row : {J : Type 0} → Table → String → Option J → Tables J → Tables J
with_row t id v m t' k = if same_table t t' && id == k then v else m t' k

module _ {J : Type 0} (duplicate : Table → String → Error) where
  -- A row goes where there is none.
  abbrev pub place : Table → String → J → Option J → Tables J → Outcome (Unit {0}) × Tables J
  place t id v none m = (ok tt, with_row t id (some v) m)
  place t id v (some held) m = (err (duplicate t id), m)

  abbrev pub add_row : Table → String → Error ⊎ J → Exec (Tables J) (Unit {0})
  add_row t id (inl e) m = (err e, m)
  add_row t id (inr v) m = place t id v (m t id) m

  -- The store of two tables.
  abbrev pub row_store : DetailsCodec J → Externals → Store (Tables J)
  row_store codec E = record {
    retrieve_instance_details =
        λ id m. (read_row codec.unmarshal_instance (m service_instances id), m);
    retrieve_binding_details =
        λ id m. (read_row codec.unmarshal_binding (m service_bindings id), m);
    create_instance_details = λ id d. add_row service_instances id (codec.marshal_instance d);
    create_binding_details = λ salt id d.
        add_row service_bindings id
          (codec.marshal_binding (stored_details (redact_binding_details E salt d)));
    delete_instance_details = λ id m. (ok tt, with_row service_instances id none m);
    delete_binding_details = λ id m. (ok tt, with_row service_bindings id none m);
    is_instance_conflict =
        λ id d m. (is_other (read_row codec.unmarshal_instance (m service_instances id)) d, m);
    is_binding_conflict = λ id d m.
        (conflict_found E (read_row codec.unmarshal_binding (m service_bindings id)) d, m);
    restore = λ m. (ok tt, m);
    save = λ m. (ok tt, m);
    cleanup = λ m. (ok tt, m);
  }
