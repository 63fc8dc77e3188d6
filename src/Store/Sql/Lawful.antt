-- ===== src/Store/Sql/Lawful.antt =====
-- The store of nfsbroker/store_sql.go does what the broker relies on, over any database that does
-- what the store relies on.
use nfsbroker.Base.{
  ℕ, String, ◌≡◌, ◌≢◌, refl, ◌∙◌, ap, sym, Bool, true, false, not, Option, none, some, ◌⊎◌, inl,
  inr, arith, Sum-cases,
}
use mathlib.Core.Path.{subst}
use nfsbroker.Api.{
  Error, ok, err, ServiceInstance, instance_eq, instance_eq_refl, BindDetails, params_from_json,
}
use nfsbroker.Externals.{Externals}
use nfsbroker.Store.{redact_binding_details}
use nfsbroker.Store.Redact.{
  redact-HidesParams, redact-params_from_json, redact-Conceals, HashedOf-params_from_json,
}
use nfsbroker.Store.Laws.{
  View, Unchanged, Unchanged-refl, InstanceSet, BindingSet, Fails, IsLawful, HidesParams, is_forged,
  HashedOf, Conceals,
}
use nfsbroker.Sql.{SqlDb, SqlVariant}
use nfsbroker.Store.Sql.{
  DetailsCodec, stored_details, create_instance_details, retrieve_instance_details,
  retrieve_binding_details, delete_instance_details, delete_binding_details, is_instance_conflict,
  create_binding_details, save, sql_store,
}
use nfsbroker.Store.Sql.Database.{Table, service_instances, service_bindings, Speaks, IsDatabase}
use nfsbroker.Store.Sql.Rows.{
  IsCodec, decoded, sql_view, instance_row, binding_row, SameRows-Unchanged, decoded-some,
  insert_cases, delete_ends, select_ends,
}

module _ {J W : Type 0} (db : SqlDb J W) (leaf : SqlVariant W) (codec : DetailsCodec J)
    (rows : W → Table → String → Option J) (mark : ℕ → String) (D : IsDatabase rows mark db)
    (P : Speaks mark leaf) (K : IsCodec codec) (E : Externals) where
  abbrev pub view : View W
  view = sql_view codec rows

  sql_retrieve_instance :
      (id : String) (s : W)
      → let r = retrieve_instance_details db leaf codec id s in
        ((d : ServiceInstance) × (r.0 ≡ ok d)
          × (view.instances s id ≡ some d)
          × Unchanged view s r.1)
        ⊎ ((e : Error) × (r.0 ≡ err e) × Unchanged view s r.1)
  unfolding retrieve_instance_details
  sql_retrieve_instance id s =
      let (same, found) =
        select_ends db leaf codec rows mark D P codec.unmarshal_instance service_instances id s in
      let kept = SameRows-Unchanged codec rows same in
      elim found [
        | inl (d, read, held) ↦ inl (d, read, held, kept)
        | inr (e, fails) ↦ inr (e, fails, kept)
      ]

  sql_retrieve_binding :
      (id : String) (s : W)
      → let r = retrieve_binding_details db leaf codec id s in
        ((d : BindDetails) × (r.0 ≡ ok d) × (view.bindings s id ≡ some d) × Unchanged view s r.1)
        ⊎ ((e : Error) × (r.0 ≡ err e) × Unchanged view s r.1)
  unfolding retrieve_binding_details
  sql_retrieve_binding id s =
      let (same, found) =
        select_ends db leaf codec rows mark D P codec.unmarshal_binding service_bindings id s in
      let kept = SameRows-Unchanged codec rows same in
      elim found [
        | inl (d, read, held) ↦ inl (d, read, held, kept)
        | inr (e, fails) ↦ inr (e, fails, kept)
      ]

  sql_create_instance :
      (id : String) (d : ServiceInstance) (s : W)
      → let r = create_instance_details db leaf codec id d s in
        ((r.0 ≡ ok tt) × InstanceSet view id (some d) s r.1) ⊎ Fails view r s
  unfolding create_instance_details
  sql_create_instance id d s =
      elim (insert_cases db leaf codec rows mark D P service_instances id (codec.marshal_instance d)
        s) [
          | inl (v, encoded, done, absent, set) ↦ inl (
            done,
            subst (λ x. InstanceSet view id x s (create_instance_details db leaf codec id d s).1)
                (decoded-some codec.unmarshal_instance (K.instance_back d v encoded))
                (instance_row codec rows set),
          )
          | inr (e, fails, same) ↦ inr (e, fails, SameRows-Unchanged codec rows same)
        ]

  -- What is stored of a bind, whether or not redacting succeeds.
  stored_hides :
      (salt : String) (d : BindDetails)
      → HidesParams (stored_details (redact_binding_details E salt d)).parameters
  stored_hides salt d = elim (Sum-cases (redact_binding_details E salt d)) [
    | inl (e, fails) ↦ rw fails refl
    | inr (d', done) ↦ rw done (redact-HidesParams E salt d done).0
  ]

  stored-HashedOf :
      (salt : String) (d : BindDetails)
      → (is_forged d.parameters ≡ true)
        ⊎ HashedOf E d.parameters (stored_details (redact_binding_details E salt d)).parameters
  stored-HashedOf salt d = elim (Sum-cases (redact_binding_details E salt d)) [
    | inl (e, fails) ↦ inr (inl (rw fails refl))
    | inr (d', done) ↦ rw done (redact-Conceals E salt d done).1
  ]

  -- What is read back of it.
  kept_Conceals :
      (salt : String) (d : BindDetails) (v : J) (kept : BindDetails)
      → codec.marshal_binding (stored_details (redact_binding_details E salt d)) ≡ inr v
      → codec.unmarshal_binding v ≡ inr kept
      → HidesParams kept.parameters
      → Conceals E d kept
  kept_Conceals salt d v kept encoded back hides = (
    hides,
    elim (stored-HashedOf salt d) [
      | inl forged ↦ inl forged
      | inr hashed ↦
          let stored = stored_details (redact_binding_details E salt d) in
          let again =
            K.binding_back stored v encoded (stored_hides salt d)
              (HashedOf-params_from_json E d.parameters stored.parameters hashed) in
          let same : stored ≡ kept = cc in
          inr (subst (λ x. HashedOf E d.parameters x.parameters) same hashed)
    ],
  )

  sql_create_binding :
      (salt id : String) (d : BindDetails) (s : W)
      → let r = create_binding_details db leaf codec E salt id d s in
        ((stored : BindDetails) × (r.0 ≡ ok tt)
          × Conceals E d stored
          × ((d' : BindDetails)
              → params_from_json d.parameters ≡ true
              → redact_binding_details E salt d ≡ inr d'
              → stored ≡ d')
          × ((redact_binding_details E salt d ≡ inr stored) ⊎ (view.bindings s id ≡ none))
          × BindingSet view id (some stored) s r.1)
        ⊎ Fails view r s
  unfolding create_binding_details
  sql_create_binding salt id d s =
      let stored = stored_details (redact_binding_details E salt d) in
      let hidden = stored_hides salt d in
      elim (insert_cases db leaf codec rows mark D P service_bindings id
        (codec.marshal_binding stored) s) [
          | inl (v, encoded, done, absent, set) ↦
              let (kept, back, hides) = K.binding_hides stored v encoded hidden in
              inl (
                kept,
                done,
                kept_Conceals salt d v kept encoded back hides,
                λ d' json redacted.
                    let same : stored ≡ d' = rw redacted refl in
                    let json' : params_from_json stored.parameters ≡ true =
                      rw same (redact-params_from_json E salt d redacted json) in
                    ground (arith, back, same, K.binding_back stored v encoded hidden json'),
                inr (ap (decoded codec.unmarshal_binding) absent),
                subst
                    (λ x.
                      BindingSet view id x s (create_binding_details db leaf codec E salt id d s).1)
                    (decoded-some codec.unmarshal_binding back) (binding_row codec rows set),
              )
          | inr (e, fails, same) ↦ inr (e, fails, SameRows-Unchanged codec rows same)
        ]

  sql_delete_instance :
      (id : String) (s : W)
      → let r = delete_instance_details db leaf codec id s in
        ((r.0 ≡ ok tt) × InstanceSet view id none s r.1) ⊎ Fails view r s
  unfolding delete_instance_details
  sql_delete_instance id s = elim (delete_ends db leaf codec rows mark D P service_instances id s) [
    | inl (done, set) ↦ inl (done, instance_row codec rows set)
    | inr (e, fails, same) ↦ inr (e, fails, SameRows-Unchanged codec rows same)
  ]

  sql_delete_binding :
      (id : String) (s : W)
      → let r = delete_binding_details db leaf codec id s in
        ((r.0 ≡ ok tt) × BindingSet view id none s r.1) ⊎ Fails view r s
  unfolding delete_binding_details
  sql_delete_binding id s = elim (delete_ends db leaf codec rows mark D P service_bindings id s) [
    | inl (done, set) ↦ inl (done, binding_row codec rows set)
    | inr (e, fails, same) ↦ inr (e, fails, SameRows-Unchanged codec rows same)
  ]

  pub sql_instance_conflict :
      (id : String) (d : ServiceInstance) (s : W)
      → let r = is_instance_conflict db leaf codec id d s in
        (b : Bool) × (r.0 ≡ ok b)
        × Unchanged view s r.1
        × (b ≡ true → (d' : ServiceInstance) × (view.instances s id ≡ some d') × (d' ≢ d))
  unfolding is_instance_conflict
  sql_instance_conflict id d s = elim (sql_retrieve_instance id s) [
    | inl (d', read, held, kept) ↦ (
      not (instance_eq d d'),
      rw read refl,
      kept,
      λ h. (d', held, λ same. ground (arith, instance_eq_refl d)),
    )
    | inr (e, fails, kept) ↦ (false, rw fails refl, kept, λ h. cc)
  ]

  -- A row that is inserted was not there before.
  pub sql_instance_fresh :
      (id : String) (d : ServiceInstance) (s : W)
      → (create_instance_details db leaf codec id d (is_instance_conflict db leaf codec id d s).1).0
        ≡ ok tt
      → view.instances s id ≡ none
  unfolding create_instance_details
  sql_instance_fresh id d s created =
      let (b, checked, kept, differs) = sql_instance_conflict id d s in
      let t = (is_instance_conflict db leaf codec id d s).1 in
      elim (insert_cases db leaf codec rows mark D P service_instances id (codec.marshal_instance d)
        t) [
          | inl (v, encoded, done, absent, set) ↦
              sym (kept.instances id) ∙ ap (decoded codec.unmarshal_instance) absent
          | inr (e, fails, same) ↦ absurd (ground (arith, fails, created))
        ]

  sql_binding_fresh :
      (salt id : String) (d : BindDetails) (s : W)
      → (create_binding_details db leaf codec E salt id d
          (retrieve_binding_details db leaf codec id s).1).0
        ≡ ok tt
      → view.bindings s id ≡ none
  unfolding create_binding_details
  sql_binding_fresh salt id d s created =
      let stored = stored_details (redact_binding_details E salt d) in
      let t = (retrieve_binding_details db leaf codec id s).1 in
      let kept : Unchanged view s t = elim (sql_retrieve_binding id s) [
        | inl (d', read, held, kept) ↦ kept
        | inr (e, fails, kept) ↦ kept
      ] in
      elim (insert_cases db leaf codec rows mark D P service_bindings id
        (codec.marshal_binding stored) t) [
          | inl (v, encoded, done, absent, set) ↦
              sym (kept.bindings id) ∙ ap (decoded codec.unmarshal_binding) absent
          | inr (e, fails, same) ↦ absurd (ground (arith, fails, created))
        ]

  -- Over a database with the two tables whose placeholders the variant writes, and with an encoding
  -- that keeps what it stores, every operation of the SQL store does to the two maps what the
  -- interface promises, and leaves them unchanged if it fails.
  pub sql_store-IsLawful : IsLawful view E (sql_store db leaf codec E)
  unfolding save
  sql_store-IsLawful = record {
    retrieve_instance = sql_retrieve_instance;
    retrieve_binding = sql_retrieve_binding;
    create_instance = sql_create_instance;
    create_binding = sql_create_binding;
    delete_instance = sql_delete_instance;
    delete_binding = sql_delete_binding;
    instance_conflict = sql_instance_conflict;
    instance_fresh = λ id d s h created. inl (sql_instance_fresh id d s created);
    binding_conflict = λ id d s. refl;
    binding_fresh = λ salt id d s e h created. sql_binding_fresh salt id d s created;
    save_keeps = λ s. Unchanged-refl view s;
    save_ends = λ s. inl refl;
  }
