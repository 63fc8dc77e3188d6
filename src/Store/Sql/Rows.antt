-- ===== src/Store/Sql/Rows.antt =====
-- The finite maps that the tables of nfsbroker/store_sql.go stand for, and what its statements do to
-- the rows.
use nfsbroker.Base.{
  ℕ, String, ◌≡◌, refl, ◌∙◌, ap, sym, Bool, true, false, Option, none, some, [], ◌∷◌, ◌⊎◌, inl, inr,
  ◌==◌, if◌then◌else◌, Sum-cases,
}
use mathlib.Core.Path.{subst}
use nfsbroker.Api.{
  Error, instance_does_not_exist, Outcome, ok, err, ServiceInstance, BindDetails, params_from_json,
}
use nfsbroker.Store.Laws.{View, Unchanged, InstanceSet, BindingSet, HidesParams}
use nfsbroker.Sql.{SqlDb, SqlVariant, id_arg, json_arg, exec, query_row}
use nfsbroker.Store.Sql.{DetailsCodec, statement_ends, execute, insert, decode}
use nfsbroker.Store.Sql.Database.{
  Table, service_instances, service_bindings, insert_text, select_text, delete_text, question,
  Speaks, SameRows, RowSet, IsDatabase,
}

-- What JSON keeps of what the store encodes: instances; redacted bindings whose parameters are decoded
-- JSON; and of any redacted binding that it is one.
pub record IsCodec {J : Type 0} (codec : DetailsCodec J) : Type 0 where
  pub instance_back :
      (d : ServiceInstance) (v : J)
      → codec.marshal_instance d ≡ inr v
      → codec.unmarshal_instance v ≡ inr d
  pub binding_back :
      (d : BindDetails) (v : J)
      → codec.marshal_binding d ≡ inr v
      → HidesParams d.parameters
      → params_from_json d.parameters ≡ true
      → codec.unmarshal_binding v ≡ inr d
  pub binding_hides :
      (d : BindDetails) (v : J)
      → codec.marshal_binding d ≡ inr v
      → HidesParams d.parameters
      → (d' : BindDetails) × (codec.unmarshal_binding v ≡ inr d') × HidesParams d'.parameters

abbrev pub decoded : {J A : Type 0} → (J → Error ⊎ A) → Option J → Option A
decoded unmarshal none = none
decoded unmarshal (some v) = elim (unmarshal v) [ inl e ↦ none | inr d ↦ some d ]

pub decoded-some :
    {J A : Type 0} (unmarshal : J → Error ⊎ A) {v : J} {d : A}
    → unmarshal v ≡ inr d
    → decoded unmarshal (some v) ≡ some d
decoded-some unmarshal e = rw (decoded, e) refl

ap-if {ℓ κ} :
    {A : Type ℓ} {B : Type κ} (f : A → B) (b : Bool) (x y : A)
    → f (if b then x else y) ≡ (if b then f x else f y)
ap-if f true x y = refl
ap-if f false x y = refl

module _ {J W : Type 0} (codec : DetailsCodec J) (rows : W → Table → String → Option J) where
  -- The finite maps that the tables stand for: what each row decodes to.
  abbrev pub sql_view : View W
  sql_view = record {
    instances = λ s k. decoded codec.unmarshal_instance (rows s service_instances k);
    bindings = λ s k. decoded codec.unmarshal_binding (rows s service_bindings k);
  }

  pub SameRows-Unchanged : {s t : W} → SameRows rows s t → Unchanged sql_view s t
  SameRows-Unchanged same = record {
    instances = λ k. ap (decoded codec.unmarshal_instance) (same service_instances k);
    bindings = λ k. ap (decoded codec.unmarshal_binding) (same service_bindings k);
  }

  pub instance_row :
      {id : String} {v : Option J} {s t : W}
      → RowSet rows service_instances id v s t
      → InstanceSet sql_view id (decoded codec.unmarshal_instance v) s t
  instance_row {id} {v} {s} set = record {
    instances = λ k.
        ap (decoded codec.unmarshal_instance) (set service_instances k)
        ∙ ap-if (decoded codec.unmarshal_instance) (id == k) v _;
    bindings = λ k. ap (decoded codec.unmarshal_binding) (set service_bindings k);
  }

  pub binding_row :
      {id : String} {v : Option J} {s t : W}
      → RowSet rows service_bindings id v s t
      → BindingSet sql_view id (decoded codec.unmarshal_binding v) s t
  binding_row {id} {v} {s} set = record {
    instances = λ k. ap (decoded codec.unmarshal_instance) (set service_instances k);
    bindings = λ k.
        ap (decoded codec.unmarshal_binding) (set service_bindings k)
        ∙ ap-if (decoded codec.unmarshal_binding) (id == k) v _;
  }

module _ {J W : Type 0} (db : SqlDb J W) (leaf : SqlVariant W) (codec : DetailsCodec J)
    (rows : W → Table → String → Option J) (mark : ℕ → String) (D : IsDatabase rows mark db)
    (P : Speaks mark leaf) where
  abbrev pub Inserted : Table → String → J → W → Outcome (Unit {0}) × W → Type 0
  Inserted t id v s r =
      ((r.0 ≡ ok tt) × (rows s t id ≡ none) × RowSet rows t id (some v) s r.1)
      ⊎ ((e : Error) × (r.0 ≡ err e) × SameRows rows s r.1)

  abbrev pub Deleted : Table → String → W → Outcome (Unit {0}) × W → Type 0
  Deleted t id s r =
      ((r.0 ≡ ok tt) × RowSet rows t id none s r.1)
      ⊎ ((e : Error) × (r.0 ≡ err e) × SameRows rows s r.1)

  pub insert_ends :
      (t : Table) (id : String) (v : J) (s : W)
      → Inserted t id v s
          (execute db leaf codec (insert_text question t) (id_arg id ∷ json_arg v ∷ []) s)
  unfolding exec
  insert_ends t id v s =
      let run : String → Option Error × W = λ q. db.exec q (id_arg id ∷ json_arg v ∷ []) s in
      subst (λ q. Inserted t id v s (statement_ends (run q).0, (run q).1)) (sym (P.insert t))
        (elim (D.inserts t id v s) [
          | inl (done, absent, set) ↦ inl (rw done refl, absent, set)
          | inr (e, fails, same) ↦ inr (e, rw fails refl, same)
        ])

  pub delete_ends :
      (t : Table) (id : String) (s : W)
      → Deleted t id s (execute db leaf codec (delete_text question t) (id_arg id ∷ []) s)
  unfolding exec
  delete_ends t id s =
      let run : String → Option Error × W = λ q. db.exec q (id_arg id ∷ []) s in
      subst (λ q. Deleted t id s (statement_ends (run q).0, (run q).1)) (sym (P.delete t))
        (elim (D.deletes t id s) [
          | inl (done, set) ↦ inl (rw done refl, set)
          | inr (e, fails, same) ↦ inr (e, rw fails refl, same)
        ])

  -- A call that writes an encoding either could encode and inserted the row, or changed no row.
  pub insert_cases :
      (t : Table) (id : String) (o : Error ⊎ J) (s : W)
      → let r = insert db leaf codec (insert_text question t) id o s in
        ((v : J) × (o ≡ inr v)
          × (r.0 ≡ ok tt)
          × (rows s t id ≡ none)
          × RowSet rows t id (some v) s r.1)
        ⊎ ((e : Error) × (r.0 ≡ err e) × SameRows rows s r.1)
  insert_cases t id (inl e) s = inr (e, refl, λ t' k. refl)
  insert_cases t id (inr v) s = elim (insert_ends t id v s) [
    | inl (done, absent, set) ↦ inl (v, refl, done, absent, set)
    | inr failed ↦ inr failed
  ]

  -- What reading a row comes to.
  pub select_ends :
      {A : Type 0} (unmarshal : J → Error ⊎ A) (t : Table) (id : String) (s : W)
      → let r = query_row db leaf (select_text question t) id s in
        SameRows rows s r.1
        × (((d : A) × (decode db leaf codec unmarshal r.0 ≡ ok d)
              × (decoded unmarshal (rows s t id) ≡ some d))
            ⊎ ((e : Error) × (decode db leaf codec unmarshal r.0 ≡ err e)))
  unfolding query_row
  select_ends unmarshal t id s =
      let (same, found) = D.selects t id s in
      rw (P.select t, query_row)
        (
          same,
          elim found [
            | inl (v, row, held) ↦ elim (Sum-cases (unmarshal v)) [
              | inl (e, bad) ↦ inr (e, rw (row, decode, bad))
              | inr (d, good) ↦ inl (d, rw (row, decode, good), rw (held, decoded, good))
            ]
            | inr (inl (row, absent)) ↦ inr (instance_does_not_exist, rw row)
            | inr (inr (e, row)) ↦ inr (e, rw row)
          ],
        )
