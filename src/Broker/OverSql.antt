-- ===== src/Broker/OverSql.antt =====
-- Where the broker over nfsbroker/store_sql.go differs from the broker over store_file.go.
use nfsbroker.Base.{
  ℕ, String, ◌≡◌, refl, ap, sym, ◌∙◌, some, Bool, true, Option, none, ◌⊎◌, inl, inr, arith,
  Bool-cases, ◌==◌,
}
use nfsbroker.Api.{Error, ok, err, ServiceInstance, BindDetails}
use nfsbroker.Externals.{Externals}
use nfsbroker.Store.{redact_binding_details}
use nfsbroker.Sql.{SqlDb, SqlVariant}
use nfsbroker.Store.File.{FileStore}
use nfsbroker.Store.File as File
use nfsbroker.Store.Sql.{
  DetailsCodec, empty_details, stored_details, insert, save, create_binding_details,
  is_instance_conflict, sql_store,
}
use nfsbroker.Store.Sql.Database.{
  Table, service_bindings, insert_text, question, Speaks, IsDatabase, RowSet,
}
use nfsbroker.Store.Sql.Rows.{IsCodec, sql_view}
use mathlib.Core.Path.{subst}
use nfsbroker.Store.Sql.Working.{IsWorking, insert_absent}
use nfsbroker.Store.Sql.Lawful.{sql_instance_conflict, sql_instance_fresh, sql_store-IsLawful}
use nfsbroker.Broker.Types.{ProvisionDetails}
use nfsbroker.Broker.{provision_locked, provision_decoded, provision, instance_of}
use nfsbroker.Broker.Restart.{is_ok, is_ok-settle}

-- If redacting fails, the file store ends with its error and stores nothing. The SQL store reports a
-- success, if the identifier has no row, and stores empty details under it: on a database that
-- takes such a row, with an encoding that has a form for empty details.
pub create_binding_details_unredacted :
    {J W Disk : Type 0} (db : SqlDb J W) (leaf : SqlVariant W) (codec : DetailsCodec J)
    (rows : W → Table → String → Option J) (mark : ℕ → String) (D : IsDatabase rows mark db)
    (P : Speaks mark leaf) (duplicate : Table → String → Error)
    (F : IsWorking rows mark duplicate db) (E : Externals) (salt id : String) (d : BindDetails)
    (e : Error) (v : J) (s : W) (f : FileStore Disk)
    → redact_binding_details E salt d ≡ inl e
    → codec.marshal_binding empty_details ≡ inr v
    → rows s service_bindings id ≡ none
    → let r = create_binding_details db leaf codec E salt id d s in
      (File.create_binding_details E salt id d f ≡ (err e, f))
      × (r.0 ≡ ok tt)
      × RowSet rows service_bindings id (some v) s r.1
unfolding create_binding_details File.create_binding_details redact_binding_details
create_binding_details_unredacted db leaf codec rows mark D P duplicate F E salt id d e v s f fails
      encoded absent =
    let stored : codec.marshal_binding (stored_details (redact_binding_details E salt d)) ≡ inr v =
      ap (λ r. codec.marshal_binding (stored_details r)) fails ∙ encoded in
    let (done, set) =
      subst
        (λ o.
          let r = insert db leaf codec (insert_text question service_bindings) id o s in
          (r.0 ≡ ok tt) × RowSet rows service_bindings id (some v) s r.1)
        (sym stored)
        (insert_absent db leaf codec rows mark D P duplicate F service_bindings id v s absent) in
    (rw (fails, File.create_binding_details) refl, done, set)

module _ {J W : Type 0} (db : SqlDb J W) (leaf : SqlVariant W) (codec : DetailsCodec J)
    (rows : W → Table → String → Option J) (mark : ℕ → String) (D : IsDatabase rows mark db)
    (P : Speaks mark leaf) (K : IsCodec codec) (E : Externals) where
  provision_locked-ok_fresh :
      (id : String) (d : ServiceInstance) (s : W)
      → is_ok (provision_locked E (sql_store db leaf codec E) id d s).0 ≡ true
      → (sql_view codec rows).instances s id ≡ none
  unfolding provision_locked
  provision_locked-ok_fresh id d s h =
      let (b, checked, kept, differs) =
        sql_instance_conflict db leaf codec rows mark D P K E id d s in
      let t = (is_instance_conflict db leaf codec id d s).1 in
      elim (Bool-cases b) [
        | inl conflict ↦ absurd (let h' = rw (checked, conflict) at h in cc)
        | inr fresh ↦
            elim ((sql_store-IsLawful db leaf codec rows mark D P K E).create_instance id d t) [
              | inl (created, set) ↦
                  sql_instance_fresh db leaf codec rows mark D P K E id d s created
              | inr (e, fails, same) ↦
                  absurd (let h' = rw (checked, fresh) at h in let h'' = rw fails at h' in cc)
            ]
      ]

  provision_decoded-ok_fresh :
      (o : Error ⊎ String) (id : String) (details : ProvisionDetails) (s : W)
      → is_ok (provision_decoded E (sql_store db leaf codec E) o id details s).0 ≡ true
      → (sql_view codec rows).instances s id ≡ none
  unfolding save
  provision_decoded-ok_fresh (inl e) id details s h = absurd (ground arith)
  provision_decoded-ok_fresh (inr share) id details s h = elim (Bool-cases (share == "")) [
    | inl empty ↦ absurd (ground (arith, empty))
    | inr given ↦
        let h' = rw given at h in
        provision_locked-ok_fresh id (instance_of details share) s
          (is_ok-settle {U = Unit {0}} _ (ok tt) h')
  ]

  -- `Provision` over the SQL store succeeds only for an identifier that has no instance, not even the
  -- same one.
  pub provision-ok_fresh :
      (id : String) (details : ProvisionDetails) (async_allowed : Bool) (s : W)
      → is_ok (provision E (sql_store db leaf codec E) id details async_allowed s).0 ≡ true
      → (sql_view codec rows).instances s id ≡ none
  unfolding provision
  provision-ok_fresh id details async_allowed s h =
      provision_decoded-ok_fresh (E.decode_share details.raw_parameters) id details s h
