-- ===== src/Store/File/Lawful.antt =====
-- The file store does what the broker relies on, whatever the disk does.
use nfsbroker.Base.{
  String, ◌<>◌, ◌≡◌, ◌≢◌, refl, Bool, true, false, not, none, some, ◌⊎◌, inl, inr, arith,
  Option-cases,
}
use nfsbroker.Base.Dict.{lookup, lookup-put}
use nfsbroker.Api.{
  Error, message, ok, err, ServiceInstance, instance_eq, instance_eq-eq, instance_eq_refl,
  BindDetails,
}
use nfsbroker.Externals.{Externals}
use nfsbroker.Store.Laws.{Unchanged, Unchanged-refl, IsLawful}
use nfsbroker.Store.File.{
  FileStore, Ioutil, StateCodec, retrieve_instance_details, retrieve_binding_details,
  create_instance_details, is_instance_conflict, file_store,
}
use nfsbroker.Store.File.Writes.{
  file_view, file_delete_instance, file_delete_binding, file_create_binding, file_save_keeps,
  file_save_ends,
}

module _ {Disk : Type 0} where
  module _ (ioutil : Ioutil Disk) (codec : StateCodec) (file_name : String) (E : Externals) where
    file_instance_conflict :
        (id : String) (d : ServiceInstance) (s : FileStore Disk)
        → let r = is_instance_conflict id d s in
          (b : Bool) × (r.0 ≡ ok b)
          × Unchanged file_view s r.1
          × (b ≡ true
              → (d' : ServiceInstance) × (lookup id s.dynamic_state.instance_map ≡ some d')
                × (d' ≢ d))
    unfolding is_instance_conflict
    file_instance_conflict id d s = elim (Option-cases (lookup id s.dynamic_state.instance_map)) [
      | inl absent ↦ (
        false,
        rw (absent, is_instance_conflict, retrieve_instance_details),
        rw (absent, is_instance_conflict, retrieve_instance_details) (Unchanged-refl file_view s),
        λ h. cc,
      )
      | inr (d', present) ↦ (
        not (instance_eq d d'),
        rw (present, is_instance_conflict, retrieve_instance_details),
        rw (present, is_instance_conflict, retrieve_instance_details) (Unchanged-refl file_view s),
        λ h. (d', present, λ same. ground (arith, instance_eq_refl d)),
      )
    ]

    file_instance_fresh :
        (id : String) (d : ServiceInstance) (s : FileStore Disk)
        → (is_instance_conflict id d s).0 ≡ ok false
        → (lookup id s.dynamic_state.instance_map ≡ none)
          ⊎ (lookup id s.dynamic_state.instance_map ≡ some d)
    unfolding is_instance_conflict
    file_instance_fresh id d s h = elim (Option-cases (lookup id s.dynamic_state.instance_map)) [
      | inl absent ↦ inl absent
      | inr (d', present) ↦ inr (ground (arith, instance_eq-eq d d'))
    ]

    file_retrieve_instance :
        (id : String) (s : FileStore Disk)
        → let r = retrieve_instance_details id s in
          ((d : ServiceInstance) × (r.0 ≡ ok d)
            × (lookup id s.dynamic_state.instance_map ≡ some d)
            × Unchanged file_view s r.1)
          ⊎ ((e : Error) × (r.0 ≡ err e) × Unchanged file_view s r.1)
    unfolding retrieve_instance_details
    file_retrieve_instance id s = elim (Option-cases (lookup id s.dynamic_state.instance_map)) [
      | inl absent ↦ inr (
        message (id <> " Not Found."),
        rw (absent, retrieve_instance_details),
        rw (absent, retrieve_instance_details) (Unchanged-refl file_view s),
      )
      | inr (d, present) ↦ inl (
        d,
        rw (present, retrieve_instance_details),
        present,
        rw (present, retrieve_instance_details) (Unchanged-refl file_view s),
      )
    ]

    file_retrieve_binding :
        (id : String) (s : FileStore Disk)
        → let r = retrieve_binding_details id s in
          ((d : BindDetails) × (r.0 ≡ ok d)
            × (lookup id s.dynamic_state.binding_map ≡ some d)
            × Unchanged file_view s r.1)
          ⊎ ((e : Error) × (r.0 ≡ err e) × Unchanged file_view s r.1)
    unfolding retrieve_binding_details
    file_retrieve_binding id s = elim (Option-cases (lookup id s.dynamic_state.binding_map)) [
      | inl absent ↦ inr (
        message (id <> " Not Found."),
        rw (absent, retrieve_binding_details),
        rw (absent, retrieve_binding_details) (Unchanged-refl file_view s),
      )
      | inr (d, present) ↦ inl (
        d,
        rw (present, retrieve_binding_details),
        present,
        rw (present, retrieve_binding_details) (Unchanged-refl file_view s),
      )
    ]

    file_binding_fresh :
        (id : String) (s : FileStore Disk) (e : Error)
        → (retrieve_binding_details id s).0 ≡ err e
        → lookup id s.dynamic_state.binding_map ≡ none
    unfolding retrieve_binding_details
    file_binding_fresh id s e h = elim (Option-cases (lookup id s.dynamic_state.binding_map)) [
      | inl absent ↦ absent
      | inr (d, present) ↦ absurd (ground (arith, h))
    ]

    pub file_store-IsLawful : IsLawful file_view E (file_store ioutil codec file_name E)
    unfolding create_instance_details
    file_store-IsLawful = record {
      retrieve_instance = file_retrieve_instance;
      retrieve_binding = file_retrieve_binding;
      create_instance = λ id d s. inl (
        refl,
        record {
          instances = λ k. lookup-put id k d s.dynamic_state.instance_map;
          bindings = λ k. refl;
        },
      );
      create_binding = file_create_binding E;
      delete_instance = file_delete_instance;
      delete_binding = file_delete_binding;
      instance_conflict = file_instance_conflict;
      instance_fresh = λ id d s h _. file_instance_fresh id d s h;
      binding_conflict = λ id d s. refl;
      binding_fresh = λ salt id d s e h _. file_binding_fresh id s e h;
      save_keeps = file_save_keeps ioutil codec file_name;
      save_ends = file_save_ends ioutil codec file_name;
    }
