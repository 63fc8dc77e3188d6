-- ===== src/Broker/Reference/Sql.antt =====
-- The broker over nfsbroker/store_sql.go and over two tables that are functions.
use nfsbroker.Base.{
  ℕ, String, ◌≡◌, refl, ◌∙◌, ap, Option, none, List, [], ◌∷◌, ◌⊎◌, inl, inr, Option-cases,
}
use nfsbroker.Api.{Error, ok}
use nfsbroker.Externals.{Externals}
use nfsbroker.Store.{redact_binding_details, is_binding_conflict, conflict_found}
use nfsbroker.Sql.{SqlDb, SqlVariant, id_arg, query_row}
use nfsbroker.Store.Sql.{
  DetailsCodec, stored_details, is_other, execute, insert, create_instance_details,
  retrieve_instance_details, retrieve_binding_details, delete_instance_details,
  delete_binding_details, is_instance_conflict, create_binding_details, save, sql_store,
}
use nfsbroker.Store.Sql.Database.{
  Table, service_instances, service_bindings, insert_text, select_text, delete_text, question,
  Speaks, IsDatabase,
}
use nfsbroker.Store.Sql.Rows.{select_ends}
use nfsbroker.Store.Sql.Working.{
  IsWorking, read_row, select_answer, insert_absent, insert_present, delete_done,
}
use nfsbroker.Broker.Types.{Broker}
use nfsbroker.Broker.Requests.{Request}
use nfsbroker.Broker.Simulation.{Follows, Simulates}
use nfsbroker.Broker.Simulation.Sequences.{serve_all, serve_all-Follows}
use nfsbroker.Broker.Reference.Tables.{Tables, HoldsRows, with_row, add_row, row_store}

module _ {J W : Type 0} (db : SqlDb J W) (leaf : SqlVariant W) (codec : DetailsCodec J)
    (rows : W → Table → String → Option J) (mark : ℕ → String) (D : IsDatabase rows mark db)
    (P : Speaks mark leaf) (duplicate : Table → String → Error)
    (F : IsWorking rows mark duplicate db) (E : Externals) where
  insert-Follows :
      (t : Table) (id : String) (o : Error ⊎ J)
      → Follows
          (HoldsRows rows)
          (insert db leaf codec (insert_text question t) id o)
          (add_row duplicate t id o)
  insert-Follows t id (inl e) s m r = (refl, r)
  insert-Follows t id (inr v) s m r = elim (Option-cases (m t id)) [
    | inl absent ↦
        let (done, set) =
          insert_absent db leaf codec rows mark D P duplicate F t id v s (r t id ∙ absent) in
        rw absent (done, λ t' k. set t' k ∙ rw (r t' k) refl)
    | inr (v', held) ↦
        let (fails, same) =
          insert_present db leaf codec rows mark D P duplicate F t id v s (r t id ∙ held) in
        rw held (fails, λ t' k. same t' k ∙ r t' k)
  ]

  delete-Follows :
      (t : Table) (id : String)
      → Follows
          (HoldsRows rows)
          (execute db leaf codec (delete_text question t) (id_arg id ∷ []))
          (λ m. (ok tt, with_row t id none m))
  delete-Follows t id s m r =
      let (done, set) = delete_done db leaf codec rows mark D P duplicate F t id s in
      (done, λ t' k. set t' k ∙ rw (r t' k) refl)

  -- Reading a row changes no row.
  kept :
      (t : Table) (id : String) (s : W) (m : Tables J)
      → HoldsRows rows s m
      → HoldsRows rows (query_row db leaf (select_text question t) id s).1 m
  kept t id s m r t' k =
      (select_ends db leaf codec rows mark D P codec.unmarshal_instance t id s).0 t' k ∙ r t' k

  retrieve_instance-Follows :
      (id : String)
      → Follows
          (HoldsRows rows)
          (retrieve_instance_details db leaf codec id)
          ((row_store duplicate codec E).retrieve_instance_details id)
  unfolding retrieve_instance_details
  retrieve_instance-Follows id s m r = (
    select_answer db leaf codec rows mark D P duplicate F codec.unmarshal_instance service_instances
          id s
        ∙ ap (read_row codec.unmarshal_instance) (r service_instances id),
    kept service_instances id s m r,
  )

  retrieve_binding-Follows :
      (id : String)
      → Follows
          (HoldsRows rows)
          (retrieve_binding_details db leaf codec id)
          ((row_store duplicate codec E).retrieve_binding_details id)
  unfolding retrieve_binding_details
  retrieve_binding-Follows id s m r = (
    select_answer db leaf codec rows mark D P duplicate F codec.unmarshal_binding service_bindings
          id s
        ∙ ap (read_row codec.unmarshal_binding) (r service_bindings id),
    kept service_bindings id s m r,
  )

  sql_store-Simulates :
      (salt : String)
      → Simulates (HoldsRows rows) salt (sql_store db leaf codec E) (row_store duplicate codec E)
  unfolding create_instance_details create_binding_details delete_instance_details
      delete_binding_details is_instance_conflict is_binding_conflict save
  sql_store-Simulates salt = record {
    retrieve_instance = retrieve_instance-Follows;
    retrieve_binding = retrieve_binding-Follows;
    create_instance = λ id d. insert-Follows service_instances id (codec.marshal_instance d);
    create_binding = λ id d.
        insert-Follows service_bindings id
          (codec.marshal_binding (stored_details (redact_binding_details E salt d)));
    delete_instance = delete-Follows service_instances;
    delete_binding = delete-Follows service_bindings;
    instance_conflict = λ id d s m r.
        let (same, after) = retrieve_instance-Follows id s m r in
        (ap (λ o. is_other o d) same, after);
    binding_conflict = λ id d s m r.
        let (same, after) = retrieve_binding-Follows id s m r in
        (ap (λ o. conflict_found E o d) same, after);
    save = λ s m r. (refl, r);
  }

  -- Over the SQL store, whose statements fail only where an identifier is there already, the broker
  -- gives any sequence of requests the answers of the broker over two tables that are functions, and
  -- the database then holds their rows: if it held those rows before, has the two tables, and reads
  -- the placeholders that the variant writes.
  pub serve_all-row_store :
      (b : Broker) (qs : List Request) (s : W) (m : Tables J)
      → HoldsRows rows s m
      → ((serve_all E (sql_store db leaf codec E) b qs s).0
          ≡ (serve_all E (row_store duplicate codec E) b qs m).0)
        × HoldsRows rows
            (serve_all E (sql_store db leaf codec E) b qs s).1
            (serve_all E (row_store duplicate codec E) b qs m).1
  serve_all-row_store b qs s m r =
      serve_all-Follows E (HoldsRows rows) (sql_store db leaf codec E) (row_store duplicate codec E)
        b sql_store-Simulates qs s m r
