-- ===== src/Store/File/Writes.antt =====
-- What the operations of nfsbroker/store_file.go that write do to the two maps in memory.
use nfsbroker.Base.{
  String, ◌<>◌, ◌≡◌, refl, true, none, some, ◌⊎◌, inl, inr, Option-cases, Sum-cases,
}
use nfsbroker.Base.Dict.{lookup, lookup-put, lookup-erase}
use nfsbroker.Api.{Error, message, ok, err, BindDetails, params_from_json}
use nfsbroker.Externals.{Externals}
use nfsbroker.Store.{redact_binding_details}
use nfsbroker.Store.Redact.{redact-Conceals}
use nfsbroker.Store.Laws.{View, Unchanged, Unchanged-refl, InstanceSet, BindingSet, Fails, Conceals}
use nfsbroker.Store.File.{
  FileStore, Ioutil, StateCodec, create_binding_details, delete_instance_details,
  delete_binding_details, save,
}

module _ {Disk : Type 0} where
  -- The finite maps that a file store stands for.
  abbrev pub file_view : View (FileStore Disk)
  file_view = record {
    instances = λ s k. lookup k s.dynamic_state.instance_map;
    bindings = λ s k. lookup k s.dynamic_state.binding_map;
  }

  pub file_delete_instance :
      (id : String) (s : FileStore Disk)
      → let r = delete_instance_details id s in
        ((r.0 ≡ ok tt) × InstanceSet file_view id none s r.1) ⊎ Fails file_view r s
  unfolding delete_instance_details
  file_delete_instance id s = elim (Option-cases (lookup id s.dynamic_state.instance_map)) [
    | inl absent ↦ inr (
      message (id <> " Not Found."),
      rw (absent, delete_instance_details),
      rw (absent, delete_instance_details) (Unchanged-refl file_view s),
    )
    | inr (d, present) ↦ inl (
      rw (present, delete_instance_details),
      rw (present, delete_instance_details)
          (record {
            instances = λ k. lookup-erase id k s.dynamic_state.instance_map;
            bindings = λ k. refl;
          }),
    )
  ]

  pub file_delete_binding :
      (id : String) (s : FileStore Disk)
      → let r = delete_binding_details id s in
        ((r.0 ≡ ok tt) × BindingSet file_view id none s r.1) ⊎ Fails file_view r s
  unfolding delete_binding_details
  file_delete_binding id s = elim (Option-cases (lookup id s.dynamic_state.binding_map)) [
    | inl absent ↦ inr (
      message (id <> " Not Found."),
      rw (absent, delete_binding_details),
      rw (absent, delete_binding_details) (Unchanged-refl file_view s),
    )
    | inr (d, present) ↦ inl (
      rw (present, delete_binding_details),
      rw (present, delete_binding_details)
          (record {
            instances = λ k. refl;
            bindings = λ k. lookup-erase id k s.dynamic_state.binding_map;
          }),
    )
  ]

  module _ (E : Externals) where
    pub file_create_binding :
        (salt id : String) (d : BindDetails) (s : FileStore Disk)
        → let r = create_binding_details E salt id d s in
          ((stored : BindDetails) × (r.0 ≡ ok tt)
            × Conceals E d stored
            × ((d' : BindDetails)
                → params_from_json d.parameters ≡ true
                → redact_binding_details E salt d ≡ inr d'
                → stored ≡ d')
            × ((redact_binding_details E salt d ≡ inr stored)
                ⊎ (lookup id s.dynamic_state.binding_map ≡ none))
            × BindingSet file_view id (some stored) s r.1)
          ⊎ Fails file_view r s
    unfolding create_binding_details
    file_create_binding salt id d s = elim (Sum-cases (redact_binding_details E salt d)) [
      | inl (e, fails) ↦ inr (
        e,
        rw (fails, create_binding_details),
        rw (fails, create_binding_details) (Unchanged-refl file_view s),
      )
      | inr (stored, redacted) ↦ inl (
        stored,
        rw (redacted, create_binding_details),
        redact-Conceals E salt d redacted,
        λ d' _ e. cc,
        inl redacted,
        rw (redacted, create_binding_details)
            (record {
              instances = λ k. refl;
              bindings = λ k. lookup-put id k stored s.dynamic_state.binding_map;
            }),
      )
    ]

  module _ (ioutil : Ioutil Disk) (codec : StateCodec) (file_name : String) where
    pub file_save_keeps :
        (s : FileStore Disk) → Unchanged file_view s (save ioutil codec file_name s).1
    unfolding save
    file_save_keeps s = elim (Sum-cases (codec.marshal_state s.dynamic_state)) [
      | inl (e, fails) ↦ rw (fails, save) (Unchanged-refl file_view s)
      | inr (text, marshalled) ↦
          rw (marshalled, save) (record { instances = λ k. refl; bindings = λ k. refl })
    ]

    pub file_save_ends :
        (s : FileStore Disk)
        → let r = save ioutil codec file_name s in (r.0 ≡ ok tt) ⊎ ((e : Error) × (r.0 ≡ err e))
    unfolding save
    file_save_ends s = elim (Sum-cases (codec.marshal_state s.dynamic_state)) [
      | inl (e, fails) ↦ inr (e, rw (fails, save))
      | inr (text, marshalled) ↦ elim (Option-cases (ioutil.write_file file_name text s.disk).0) [
        | inl done ↦ inl (rw (marshalled, done, save))
        | inr (e, fails) ↦ inr (e, rw (marshalled, fails, save))
      ]
    ]
