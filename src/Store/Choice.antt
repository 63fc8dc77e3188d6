-- ===== src/Store/Choice.antt =====
-- `NewSqlStore` of nfsbroker/store_sql.go and `NewStore` of nfsbroker/store.go: the store that the
-- flags of the process name.
use nfsbroker.Base.{
  ℕ, String, ◌≡◌, ◌≢◌, refl, arith, ==-eq, Option, [], ◌⊎◌, inl, inr, ◌==◌, if◌then◌else◌,
  Bool-cases, string_dec,
}
use nfsbroker.Api.{Error, Outcome, ok, err, panic}
use nfsbroker.Externals.{Externals}
use nfsbroker.Store.{Store}
use nfsbroker.Store.Laws.{IsLawful}
use nfsbroker.Store.File.{DynamicState, FileStore, Ioutil, StateCodec, file_store, new_file_store}
use nfsbroker.Store.File.Writes.{file_view}
use nfsbroker.Store.File.Lawful.{file_store-IsLawful}
use nfsbroker.Store.Sql.{DetailsCodec, made, initialize, sql_store, new_sql_store_with_variant}
use nfsbroker.Store.Sql.Database.{
  Table, IsDatabase, Speaks, question, dollar, mysql-Speaks, postgres-Speaks,
}
use nfsbroker.Store.Sql.Rows.{IsCodec, sql_view}
use nfsbroker.Store.Sql.Lawful.{sql_store-IsLawful}
use nfsbroker.Sql.{SqlDb}
use nfsbroker.Sql.Mysql.{MysqlVariant, Driver, new_mysql_variant}
use nfsbroker.Sql.Postgres.{PostgresVariant, Host, new_postgres_variant}
use nfsbroker.Sql.Variant.{
  Variant, mysql, postgres, variant_of, variant_of-eq-inr, variant_of-eq-inl, leaf_of,
  beside_variant,
}

-- What the process starts with outside the two stores' code, over a world `W`.
pub record Platform (J W : Type 0) : Type 0 where
  pub driver : Driver W
  pub host : Host W
  pub database : SqlDb J W
  pub details_codec : DetailsCodec J
  pub state_codec : StateCodec
  pub ioutil : Ioutil W

-- The parameters of `NewStore` that name a database.
pub record DbParams : Type 0 where
  pub db_driver : String
  pub db_username : String
  pub db_password : String
  pub db_hostname : String
  pub db_port : String
  pub db_name : String
  pub db_ca_cert : String

-- A store with its own part of the state.
pub data NewStore (W : Type 0) : Type 0 where
  sql : Store (Variant × W) → Variant → NewStore W
  file : Store (FileStore W) → DynamicState → NewStore W

abbrev or_fatal : {A : Type 0} → Outcome A → Outcome A
or_fatal (err e) = panic
or_fatal o = o

module _ {J W : Type 0} (P : Platform J W) (E : Externals) where
  abbrev with_variant : Outcome (Store (Variant × W)) × (Variant × W) → Outcome (NewStore W) × W
  with_variant (ok st, (v, w)) = (ok (sql st v), w)
  with_variant (err e, (v, w)) = (err e, w)
  with_variant (panic, (v, w)) = (panic, w)

  abbrev sql_store_for : Error ⊎ Variant → W → Outcome (NewStore W) × W
  sql_store_for (inl e) w = (err e, w)
  sql_store_for (inr v) w = with_variant (
      new_sql_store_with_variant (beside_variant P.database) (leaf_of P.driver P.host v)
        P.details_codec E (v, w))

  -- `NewSqlStore`
  unfoldable pub new_sql_store : DbParams → W → Outcome (NewStore W) × W
  new_sql_store p w =
      sql_store_for
        (variant_of p.db_driver p.db_username p.db_password p.db_hostname p.db_port p.db_name
          p.db_ca_cert)
        w

  -- `NewStore`; the log's `Fatal` panics.
  unfoldable pub new_store : DbParams → String → W → Outcome (NewStore W) × W
  new_store p file_name w =
      if p.db_driver == ""
      then (
        ok (file (file_store P.ioutil P.state_codec file_name E) (new_file_store w).dynamic_state),
        w,
      )
      else let (o, w') = new_sql_store p w in (or_fatal o, w')

-- The placeholders of a driver's database.
abbrev pub marks : String → ℕ → String
marks db_driver = if db_driver == "postgres" then dollar else question

beside-IsDatabase :
    {J W : Type 0} (rows : W → Table → String → Option J) (mark : ℕ → String) (db : SqlDb J W)
    → IsDatabase rows mark db
    → IsDatabase (λ (s : Variant × W). rows s.1) mark (beside_variant db)
beside-IsDatabase rows mark db D = record {
  inserts = λ t id v s. D.inserts t id v s.1;
  selects = λ t id s. D.selects t id s.1;
  deletes = λ t id s. D.deletes t id s.1;
}

module _ {J W : Type 0} (P : Platform J W) (E : Externals) (p : DbParams)
    (rows : W → Table → String → Option J) where
  -- The variant that the flags name, as it is made.
  abbrev pub IsNamed : Variant → Type 0
  IsNamed v =
      ((p.db_driver ≡ "mysql")
        × (v
            ≡ mysql (
                new_mysql_variant p.db_username p.db_password p.db_hostname p.db_port p.db_name
                  p.db_ca_cert)))
      ⊎ ((p.db_driver ≡ "postgres")
          × (v
              ≡ postgres (
                  new_postgres_variant p.db_username p.db_password p.db_hostname p.db_port p.db_name
                    p.db_ca_cert)))

  abbrev pub sql_store_of : Variant → Store (Variant × W)
  sql_store_of v =
      sql_store (beside_variant P.database) (leaf_of P.driver P.host v) P.details_codec E

  abbrev pub initialized : Variant → W → Outcome (Unit {0}) × (Variant × W)
  initialized v w =
      initialize (beside_variant P.database) (leaf_of P.driver P.host v) P.details_codec (v, w)

  -- How `NewStore` ends.
  pub data NewStoreEnds (file_name : String) (w : W) (r : Outcome (NewStore W) × W) : Type 0 where
    in_file :
        p.db_driver ≡ ""
        → IsLawful file_view E (file_store P.ioutil P.state_codec file_name E)
        → r ≡ (
          ok (
              file
                (file_store P.ioutil P.state_codec file_name E)
                (record { instance_map = []; binding_map = [] })),
          w,
        )
        → NewStoreEnds file_name w r
    in_database :
        (v v' : Variant) (w' : W)
        → IsNamed v
        → initialized v w ≡ (ok tt, (v', w'))
        → IsLawful (sql_view P.details_codec (λ (s : Variant × W). rows s.1)) E (sql_store_of v)
        → r ≡ (ok (sql (sql_store_of v) v'), w')
        → NewStoreEnds file_name w r
    uninitialized :
        (v v' : Variant) (w' : W) (o : Outcome (Unit {0}))
        → IsNamed v
        → initialized v w ≡ (o, (v', w'))
        → o ≢ ok tt
        → r ≡ (panic, w')
        → NewStoreEnds file_name w r
    unknown_driver :
        p.db_driver ≢ ""
        → p.db_driver ≢ "mysql"
        → p.db_driver ≢ "postgres"
        → r ≡ (panic, w)
        → NewStoreEnds file_name w r

  mysql_leaf-Speaks : (v : MysqlVariant) → Speaks question (leaf_of P.driver P.host (mysql v))
  mysql_leaf-Speaks v = mysql-Speaks (leaf_of P.driver P.host (mysql v)) refl

  postgres_leaf-Speaks :
      (v : PostgresVariant) → Speaks dollar (leaf_of P.driver P.host (postgres v))
  postgres_leaf-Speaks v = postgres-Speaks (leaf_of P.driver P.host (postgres v)) refl

  leaf-Speaks :
      (v : Variant)
      → variant_of p.db_driver p.db_username p.db_password p.db_hostname p.db_port p.db_name
          p.db_ca_cert
        ≡ inr v
      → Speaks (marks p.db_driver) (leaf_of P.driver P.host v)
  unfolding string_dec
  leaf-Speaks v chosen =
      elim (variant_of-eq-inr p.db_driver p.db_username p.db_password p.db_hostname p.db_port
        p.db_name p.db_ca_cert chosen) [
          | inl (d, made_it) ↦
              rw (d, made_it)
                (mysql_leaf-Speaks (
                  new_mysql_variant p.db_username p.db_password p.db_hostname p.db_port p.db_name
                    p.db_ca_cert))
          | inr (d, made_it) ↦
              rw (d, made_it)
                (postgres_leaf-Speaks (
                  new_postgres_variant p.db_username p.db_password p.db_hostname p.db_port p.db_name
                    p.db_ca_cert))
        ]

  fatal : Outcome (NewStore W) × W → Outcome (NewStore W) × W
  fatal (o, w) = (or_fatal o, w)

  made-ends :
      (file_name : String) (w : W) (v : Variant) (o : Outcome (Unit {0})) (v' : Variant) (w' : W)
      → IsNamed v
      → initialized v w ≡ (o, (v', w'))
      → IsLawful (sql_view P.details_codec (λ (s : Variant × W). rows s.1)) E (sql_store_of v)
      → NewStoreEnds file_name w (fatal (with_variant P E (made (sql_store_of v) o, (v', w'))))
  unfolding fatal
  made-ends file_name w v (ok u) v' w' named e lawful = in_database v v' w' named e lawful refl
  made-ends file_name w v (err x) v' w' named e lawful =
      uninitialized v v' w' (err x) named e (λ same. cc) refl
  made-ends file_name w v panic v' w' named e lawful =
      uninitialized v v' w' panic named e (λ same. cc) refl

  module _ (D : IsDatabase rows (marks p.db_driver) P.database) (K : IsCodec P.details_codec) where
    variant-ends :
        (file_name : String) (w : W)
        → p.db_driver ≢ ""
        → (o : Error ⊎ Variant)
        → variant_of p.db_driver p.db_username p.db_password p.db_hostname p.db_port p.db_name
            p.db_ca_cert
          ≡ o
        → NewStoreEnds file_name w (fatal (sql_store_for P E o w))
    unfolding new_sql_store_with_variant fatal
    variant-ends file_name w given (inl e) chosen =
        let (not_mysql, not_postgres) =
          variant_of-eq-inl p.db_driver p.db_username p.db_password p.db_hostname p.db_port
            p.db_name p.db_ca_cert chosen in
        unknown_driver given not_mysql not_postgres refl
    variant-ends file_name w given (inr v) chosen =
        made-ends file_name w v _ _ _
          (variant_of-eq-inr p.db_driver p.db_username p.db_password p.db_hostname p.db_port
            p.db_name p.db_ca_cert chosen)
          refl
          (sql_store-IsLawful (beside_variant P.database) (leaf_of P.driver P.host v)
            P.details_codec (λ s. rows s.1) (marks p.db_driver)
            (beside-IsDatabase rows _ P.database D) (leaf-Speaks v chosen) K E)

    -- Every run of `NewStore` ends in one of these ways. For an empty driver it returns a store in the
    -- file, which is lawful and starts empty. For "mysql" and "postgres" it makes that variant from
    -- the parameters and initializes the database: if that succeeds, it returns the store in that
    -- database, which is lawful, with the variant that is left, and else it panics. For any other
    -- driver it panics. The database has the two tables and reads the placeholders of the driver, and
    -- the encoding keeps what is stored.
    pub new_store-ends :
        (file_name : String) (w : W) → NewStoreEnds file_name w (new_store P E p file_name w)
    unfolding new_store new_sql_store new_file_store fatal
    new_store-ends file_name w = elim (Bool-cases (p.db_driver == "")) [
      | inl empty ↦
          in_file (==-eq p.db_driver "" empty)
            (file_store-IsLawful P.ioutil P.state_codec file_name E) (rw empty refl)
      | inr given ↦
          rw given (variant-ends file_name w (λ same. absurd (ground (arith, given))) _ refl)
    ]
