-- ===== src/Store/Sql/Database.antt =====
-- What the store of nfsbroker/store_sql.go relies on in its database: the statements that it sends
-- act on two tables with the identifier as their primary key, and a statement that fails changes
-- nothing.
use nfsbroker.Base.{
  ℕ, String, ◌<>◌, ◌≡◌, ap, ◌∙◌, refl, Bool, true, false, Option, none, some, [], ◌∷◌, ◌⊎◌, ◌==◌,
  ◌&&◌, if◌then◌else◌,
}
use native.Mathlib.Decide.{ℕ_discrete}
use nfsbroker.Base.Text.{has_char}
use nfsbroker.Base.Decimal.{decimal}
use nfsbroker.Sql.Flavor.{
  flavorify_postgres-eq-placeholders, placeholders-append, placeholders-mark, placeholders_free,
  placeholders_last,
}
use nfsbroker.Api.{Error}
use nfsbroker.Sql.{
  id_arg, json_arg, scanned, no_rows, row_error, SqlDb, SqlVariant, flavorify_mysql,
  flavorify_postgres,
}

pub data Table : Type 0 where
  service_instances service_bindings : Table

abbrev pub table_name : Table → String
table_name service_instances = "service_instances"
table_name service_bindings = "service_bindings"

abbrev pub same_table : Table → Table → Bool
same_table service_instances service_instances = true
same_table service_bindings service_bindings = true
same_table _ _ = false

-- The three statements, with the i-th placeholder written `mark i`.
abbrev pub insert_text : (ℕ → String) → Table → String
insert_text mark t =
    "INSERT INTO "
    <> (table_name t <> (" (id, value) VALUES (" <> (mark 1 <> (", " <> (mark 2 <> ")")))))

abbrev pub select_text : (ℕ → String) → Table → String
select_text mark t = "SELECT id, value FROM " <> (table_name t <> (" WHERE id = " <> mark 1))

abbrev pub delete_text : (ℕ → String) → Table → String
delete_text mark t = "DELETE FROM " <> (table_name t <> (" WHERE id = " <> mark 1))

abbrev pub question : ℕ → String
question i = "?"

abbrev pub dollar : ℕ → String
dollar i = "$" <> decimal i

-- The variant writes the placeholders that the database reads.
pub record Speaks {W : Type 0} (mark : ℕ → String) (leaf : SqlVariant W) : Type 0 where
  pub insert : (t : Table) → leaf.flavorify (insert_text question t) ≡ insert_text mark t
  pub select : (t : Table) → leaf.flavorify (select_text question t) ≡ select_text mark t
  pub delete : (t : Table) → leaf.flavorify (delete_text question t) ≡ delete_text mark t

pub mysql-Speaks :
    {W : Type 0} (leaf : SqlVariant W) → leaf.flavorify ≡ flavorify_mysql → Speaks question leaf
unfolding flavorify_mysql
mysql-Speaks leaf e = record {
  insert = λ t. ap (λ f. f (insert_text question t)) e;
  select = λ t. ap (λ f. f (select_text question t)) e;
  delete = λ t. ap (λ f. f (delete_text question t)) e;
}

table_name_free : (t : Table) → has_char b'?' (table_name t) ≡ false
unfolding has_char ℕ_discrete
table_name_free service_instances = refl
table_name_free service_bindings = refl

-- A statement with one placeholder at its end.
postgres_where :
    (verb : String) (t : Table)
    → has_char b'?' verb ≡ false
    → flavorify_postgres (verb <> (table_name t <> (" WHERE id = " <> "?")))
      ≡ verb <> (table_name t <> (" WHERE id = " <> dollar 1))
unfolding has_char ℕ_discrete
postgres_where verb t free =
    flavorify_postgres-eq-placeholders _
    ∙ placeholders-append 1 verb _ free
    ∙ ap (λ s. verb <> s)
        (placeholders-append 1 (table_name t) _ (table_name_free t)
          ∙ ap (λ s. table_name t <> s)
              (placeholders-append 1 " WHERE id = " "?" refl
                ∙ ap (λ s. " WHERE id = " <> s) (placeholders_last 1)))

postgres_insert : (t : Table) → flavorify_postgres (insert_text question t) ≡ insert_text dollar t
unfolding has_char ℕ_discrete
postgres_insert t =
    flavorify_postgres-eq-placeholders _
    ∙ placeholders-append 1 "INSERT INTO " _ refl
    ∙ ap (λ s. "INSERT INTO " <> s)
        (placeholders-append 1 (table_name t) _ (table_name_free t)
          ∙ ap (λ s. table_name t <> s)
              (placeholders-append 1 " (id, value) VALUES (" ("?" <> (", " <> ("?" <> ")"))) refl
                ∙ ap (λ s. " (id, value) VALUES (" <> s)
                    (placeholders-mark 1 (", " <> ("?" <> ")"))
                      ∙ ap (λ s. dollar 1 <> s)
                          (placeholders-append 2 ", " ("?" <> ")") refl
                            ∙ ap (λ s. ", " <> s)
                                (placeholders-mark 2 ")"
                                  ∙ ap (λ s. dollar 2 <> s) (placeholders_free 3 ")" refl))))))

pub postgres-Speaks :
    {W : Type 0} (leaf : SqlVariant W) → leaf.flavorify ≡ flavorify_postgres → Speaks dollar leaf
unfolding has_char ℕ_discrete
postgres-Speaks leaf e = record {
  insert = λ t. ap (λ f. f (insert_text question t)) e ∙ postgres_insert t;
  select =
      λ t. ap (λ f. f (select_text question t)) e ∙ postgres_where "SELECT id, value FROM " t refl;
  delete = λ t. ap (λ f. f (delete_text question t)) e ∙ postgres_where "DELETE FROM " t refl;
}

module _ {J W : Type 0} (rows : W → Table → String → Option J) where
  abbrev pub SameRows : W → W → Type 0
  SameRows s s' = (t : Table) (k : String) → rows s' t k ≡ rows s t k

  abbrev pub RowSet : Table → String → Option J → W → W → Type 0
  RowSet t id v s s' =
      (t' : Table) (k : String)
      → rows s' t' k ≡ (if same_table t t' && id == k then v else rows s t' k)

  -- A database with the two tables, that reads `mark i` as its i-th placeholder.
  pub record IsDatabase (mark : ℕ → String) (db : SqlDb J W) : Type 0 where
    pub inserts :
        (t : Table) (id : String) (v : J) (s : W)
        → let r = db.exec (insert_text mark t) (id_arg id ∷ json_arg v ∷ []) s in
          ((r.0 ≡ none) × (rows s t id ≡ none) × RowSet t id (some v) s r.1)
          ⊎ ((e : Error) × (r.0 ≡ some e) × SameRows s r.1)
    pub selects :
        (t : Table) (id : String) (s : W)
        → let r = db.query_row (select_text mark t) id s in
          SameRows s r.1
          × (((v : J) × (r.0 ≡ scanned id v) × (rows s t id ≡ some v))
              ⊎ ((r.0 ≡ no_rows) × (rows s t id ≡ none))
              ⊎ ((e : Error) × (r.0 ≡ row_error e)))
    pub deletes :
        (t : Table) (id : String) (s : W)
        → let r = db.exec (delete_text mark t) (id_arg id ∷ []) s in
          ((r.0 ≡ none) × RowSet t id none s r.1) ⊎ ((e : Error) × (r.0 ≡ some e) × SameRows s r.1)
