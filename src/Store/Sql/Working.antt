-- ===== src/Store/Sql/Working.antt =====
-- The statements of nfsbroker/store_sql.go on a database that never fails of itself: what they answer
-- is told by the rows.
use nfsbroker.Base.{ℕ, String, ◌≡◌, refl, ◌∙◌, ap, Option, none, some, [], ◌∷◌, ◌⊎◌, inl, inr}
use nfsbroker.Api.{Error, instance_does_not_exist, Outcome, ok, err}
use nfsbroker.Sql.{SqlDb, SqlVariant, Row, scanned, no_rows, id_arg, json_arg, exec, query_row}
use nfsbroker.Store.Sql.{DetailsCodec, statement_ends, execute, decode}
use nfsbroker.Store.Sql.Database.{
  Table, insert_text, select_text, delete_text, question, Speaks, SameRows, RowSet, IsDatabase,
}
use nfsbroker.Store.Sql.Rows.{insert_ends, delete_ends}

-- What the database answers where the row is `o`.
abbrev pub refusal_over : {J : Type 0} → Error → Option J → Option Error
refusal_over e none = none
refusal_over e (some v) = some e

abbrev pub row_of : {J : Type 0} → String → Option J → Row J
row_of id none = no_rows
row_of id (some v) = scanned id v

-- What is read where the row is `o`.
abbrev pub read_row : {J A : Type 0} → (J → Error ⊎ A) → Option J → Outcome A
read_row unmarshal none = err instance_does_not_exist
read_row unmarshal (some v) = elim (unmarshal v) [ inl e ↦ err e | inr d ↦ ok d ]

module _ {J W : Type 0} (rows : W → Table → String → Option J) (mark : ℕ → String)
    (duplicate : Table → String → Error) (db : SqlDb J W) where
  -- No statement fails but the insert of an identifier that is there, and that fails with
  -- `duplicate`.
  pub record IsWorking : Type 0 where
    pub inserts :
        (t : Table) (id : String) (v : J) (s : W)
        → (db.exec (insert_text mark t) (id_arg id ∷ json_arg v ∷ []) s).0
          ≡ refusal_over (duplicate t id) (rows s t id)
    pub selects :
        (t : Table) (id : String) (s : W)
        → (db.query_row (select_text mark t) id s).0 ≡ row_of id (rows s t id)
    pub deletes :
        (t : Table) (id : String) (s : W)
        → (db.exec (delete_text mark t) (id_arg id ∷ []) s).0 ≡ none

module _ {J W : Type 0} (db : SqlDb J W) (leaf : SqlVariant W) (codec : DetailsCodec J)
    (rows : W → Table → String → Option J) (mark : ℕ → String) (D : IsDatabase rows mark db)
    (P : Speaks mark leaf) (duplicate : Table → String → Error)
    (F : IsWorking rows mark duplicate db) where
  insert_answer :
      (t : Table) (id : String) (v : J) (s : W)
      → (execute db leaf codec (insert_text question t) (id_arg id ∷ json_arg v ∷ []) s).0
        ≡ statement_ends (refusal_over (duplicate t id) (rows s t id))
  unfolding exec
  insert_answer t id v s =
      ap (λ q. statement_ends (db.exec q (id_arg id ∷ json_arg v ∷ []) s).0) (P.insert t)
      ∙ ap statement_ends (F.inserts t id v s)

  delete_answer :
      (t : Table) (id : String) (s : W)
      → (execute db leaf codec (delete_text question t) (id_arg id ∷ []) s).0 ≡ ok tt
  unfolding exec
  delete_answer t id s =
      ap (λ q. statement_ends (db.exec q (id_arg id ∷ []) s).0) (P.delete t)
      ∙ ap statement_ends (F.deletes t id s)

  decode-row_of :
      {A : Type 0} (unmarshal : J → Error ⊎ A) (id : String) (o : Option J)
      → decode db leaf codec unmarshal (row_of id o) ≡ read_row unmarshal o
  decode-row_of unmarshal id none = refl
  decode-row_of unmarshal id (some v) = refl

  -- What is read is what the row decodes to.
  pub select_answer :
      {A : Type 0} (unmarshal : J → Error ⊎ A) (t : Table) (id : String) (s : W)
      → decode db leaf codec unmarshal (query_row db leaf (select_text question t) id s).0
        ≡ read_row unmarshal (rows s t id)
  unfolding query_row
  select_answer unmarshal t id s =
      ap (λ q. decode db leaf codec unmarshal (db.query_row q id s).0) (P.select t)
      ∙ ap (decode db leaf codec unmarshal) (F.selects t id s)
      ∙ decode-row_of unmarshal id (rows s t id)

  -- A row is inserted where there is none.
  pub insert_absent :
      (t : Table) (id : String) (v : J) (s : W)
      → rows s t id ≡ none
      → let r = execute db leaf codec (insert_text question t) (id_arg id ∷ json_arg v ∷ []) s in
        (r.0 ≡ ok tt) × RowSet rows t id (some v) s r.1
  insert_absent t id v s absent =
      let answer = rw absent at (insert_answer t id v s) in
      elim (insert_ends db leaf codec rows mark D P t id v s) [
        | inl (done, _, set) ↦ (done, set)
        | inr (e, fails, same) ↦ absurd (cc)
      ]

  -- A row that is there is kept.
  pub insert_present :
      (t : Table) (id : String) (v : J) (s : W) {v' : J}
      → rows s t id ≡ some v'
      → let r = execute db leaf codec (insert_text question t) (id_arg id ∷ json_arg v ∷ []) s in
        (r.0 ≡ err (duplicate t id)) × SameRows rows s r.1
  insert_present t id v s held =
      let answer = rw held at (insert_answer t id v s) in
      elim (insert_ends db leaf codec rows mark D P t id v s) [
        | inl (done, absent, set) ↦ absurd (cc)
        | inr (e, fails, same) ↦ (answer, same)
      ]

  pub delete_done :
      (t : Table) (id : String) (s : W)
      → let r = execute db leaf codec (delete_text question t) (id_arg id ∷ []) s in
        (r.0 ≡ ok tt) × RowSet rows t id none s r.1
  delete_done t id s =
      let answer = delete_answer t id s in
      elim (delete_ends db leaf codec rows mark D P t id s) [
        | inl done ↦ done
        | inr (e, fails, same) ↦ absurd (cc)
      ]
