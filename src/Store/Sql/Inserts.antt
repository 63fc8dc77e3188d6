-- ===== src/Store/Sql/Inserts.antt =====
-- The store of nfsbroker/store_sql.go never replaces a row: it only inserts.
use nfsbroker.Base.{ℕ, String, ◌≡◌, Option, none, inl, inr, arith}
use nfsbroker.Api.{ok, ServiceInstance, BindDetails}
use nfsbroker.Externals.{Externals}
use nfsbroker.Store.{redact_binding_details}
use nfsbroker.Store.Laws.{IsLawful}
use nfsbroker.Sql.{SqlDb, SqlVariant}
use nfsbroker.Store.Sql.{
  DetailsCodec, stored_details, create_instance_details, create_binding_details, sql_store,
}
use nfsbroker.Store.Sql.Database.{Table, service_instances, service_bindings, Speaks, IsDatabase}
use nfsbroker.Store.Sql.Rows.{IsCodec, sql_view, insert_cases}
use nfsbroker.Store.Sql.Lawful.{sql_store-IsLawful}

module _ {J W : Type 0} (db : SqlDb J W) (leaf : SqlVariant W) (codec : DetailsCodec J)
    (rows : W → Table → String → Option J) (mark : ℕ → String) (D : IsDatabase rows mark db)
    (P : Speaks mark leaf) (K : IsCodec codec) (E : Externals) where
  -- The store has the laws, and creates only what has no row.
  pub record IsInserting : Type 0 where
    pub lawful : IsLawful (sql_view codec rows) E (sql_store db leaf codec E)
    pub new_instance :
        (id : String) (d : ServiceInstance) (s : W)
        → (create_instance_details db leaf codec id d s).0 ≡ ok tt
        → rows s service_instances id ≡ none
    pub new_binding :
        (salt id : String) (d : BindDetails) (s : W)
        → (create_binding_details db leaf codec E salt id d s).0 ≡ ok tt
        → rows s service_bindings id ≡ none

  create_instance-none :
      (id : String) (d : ServiceInstance) (s : W)
      → (create_instance_details db leaf codec id d s).0 ≡ ok tt
      → rows s service_instances id ≡ none
  unfolding create_instance_details
  create_instance-none id d s created =
      elim (insert_cases db leaf codec rows mark D P service_instances id (codec.marshal_instance d)
        s) [
          | inl (v, encoded, done, absent, set) ↦ absent
          | inr (e, fails, same) ↦ absurd (ground (arith, fails, created))
        ]

  create_binding-none :
      (salt id : String) (d : BindDetails) (s : W)
      → (create_binding_details db leaf codec E salt id d s).0 ≡ ok tt
      → rows s service_bindings id ≡ none
  unfolding create_binding_details
  create_binding-none salt id d s created =
      elim (insert_cases db leaf codec rows mark D P service_bindings id
        (codec.marshal_binding (stored_details (redact_binding_details E salt d))) s) [
          | inl (v, encoded, done, absent, set) ↦ absent
          | inr (e, fails, same) ↦ absurd (ground (arith, fails, created))
        ]

  -- Over a database with the two tables whose placeholders the variant writes, and with an encoding
  -- that keeps what it stores, every operation of the SQL store does to the two maps what the
  -- interface promises, or fails and leaves them unchanged; and an instance or a binding is created
  -- only where its table has no row for the identifier, so that no row is ever replaced.
  pub sql_store-IsInserting : IsInserting
  sql_store-IsInserting = record {
    lawful = sql_store-IsLawful db leaf codec rows mark D P K E;
    new_instance = create_instance-none;
    new_binding = create_binding-none;
  }
