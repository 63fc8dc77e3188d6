-- ===== src/Store/File/Calls.antt =====
-- What the calls of nfsbroker/store_file.go answer and leave, once it is known what the maps hold.
use nfsbroker.Base.{String, ◌<>◌, ◌≡◌, refl, false, none, some, ◌⊎◌, inl, inr}
use nfsbroker.Base.Dict.{Dict, lookup, put, erase}
use nfsbroker.Api.{message, ok, err, ServiceInstance, instance_eq_refl, BindDetails}
use nfsbroker.Externals.{Externals}
use nfsbroker.Store.{redact_binding_details, conflicts_with, is_binding_conflict}
use nfsbroker.Store.File.{
  FileStore, DynamicState, retrieve_instance_details, retrieve_binding_details,
  create_binding_details, delete_instance_details, delete_binding_details, is_instance_conflict,
}

module _ {Disk : Type 0} (s : FileStore Disk) where
  abbrev instance_map : Dict ServiceInstance
  instance_map = s.dynamic_state.instance_map

  abbrev binding_map : Dict BindDetails
  binding_map = s.dynamic_state.binding_map

  retrieve_instance-none :
      (id : String)
      → lookup id instance_map ≡ none
      → retrieve_instance_details id s ≡ (err (message (id <> " Not Found.")), s)
  unfolding retrieve_instance_details
  retrieve_instance-none id e = rw (e, retrieve_instance_details) refl

  pub retrieve_instance-some :
      (id : String) {d : ServiceInstance}
      → lookup id instance_map ≡ some d
      → retrieve_instance_details id s ≡ (ok d, s)
  unfolding retrieve_instance_details
  retrieve_instance-some id e = rw (e, retrieve_instance_details) refl

  retrieve_binding-none :
      (id : String)
      → lookup id binding_map ≡ none
      → retrieve_binding_details id s ≡ (err (message (id <> " Not Found.")), s)
  unfolding retrieve_binding_details
  retrieve_binding-none id e = rw (e, retrieve_binding_details) refl

  pub retrieve_binding-some :
      (id : String) {d : BindDetails}
      → lookup id binding_map ≡ some d
      → retrieve_binding_details id s ≡ (ok d, s)
  unfolding retrieve_binding_details
  retrieve_binding-some id e = rw (e, retrieve_binding_details) refl

  -- No instance, or the same one, is no conflict.
  abbrev pub InstanceClear : String → ServiceInstance → Type 0
  InstanceClear id d = (lookup id instance_map ≡ none) ⊎ (lookup id instance_map ≡ some d)

  pub no_instance_conflict :
      (id : String) (d : ServiceInstance)
      → InstanceClear id d
      → is_instance_conflict id d s ≡ (ok false, s)
  unfolding is_instance_conflict
  no_instance_conflict id d (inl fresh) = rw (retrieve_instance-none id fresh) refl
  no_instance_conflict id d (inr held) =
      rw (retrieve_instance-some id held) (rw (instance_eq_refl d) refl)

  abbrev pub with_instance : String → ServiceInstance → DynamicState
  with_instance id d = record s.dynamic_state { instance_map = put id d instance_map }

  abbrev pub without_instance : String → DynamicState
  without_instance id = record s.dynamic_state { instance_map = erase id instance_map }

  abbrev pub with_binding : String → BindDetails → DynamicState
  with_binding id d = record s.dynamic_state { binding_map = put id d binding_map }

  abbrev pub without_binding : String → DynamicState
  without_binding id = record s.dynamic_state { binding_map = erase id binding_map }

  pub delete_instance-ok :
      (id : String) {d : ServiceInstance}
      → lookup id instance_map ≡ some d
      → delete_instance_details id s ≡ (ok tt, record s { dynamic_state = without_instance id })
  unfolding delete_instance_details
  delete_instance-ok id held = rw (held, delete_instance_details) refl

  pub delete_binding-ok :
      (id : String) {d : BindDetails}
      → lookup id binding_map ≡ some d
      → delete_binding_details id s ≡ (ok tt, record s { dynamic_state = without_binding id })
  unfolding delete_binding_details
  delete_binding-ok id held = rw (held, delete_binding_details) refl

  module _ (E : Externals) where
    -- No binding, or one that agrees with the request.
    abbrev pub BindingClear : String → BindDetails → Type 0
    BindingClear id d =
        (lookup id binding_map ≡ none)
        ⊎ ((existing : BindDetails) × (lookup id binding_map ≡ some existing)
            × (conflicts_with E existing d ≡ ok false))

    pub no_binding_conflict :
        (id : String) (d : BindDetails)
        → BindingClear id d
        → is_binding_conflict E retrieve_binding_details id d s ≡ (ok false, s)
    unfolding is_binding_conflict
    no_binding_conflict id d (inl fresh) = rw (retrieve_binding-none id fresh) refl
    no_binding_conflict id d (inr (existing, held, agrees)) =
        rw (retrieve_binding-some id held) (rw agrees refl)

    pub create_binding-ok :
        (salt id : String) (d : BindDetails) {stored : BindDetails}
        → redact_binding_details E salt d ≡ inr stored
        → create_binding_details E salt id d s
          ≡ (ok tt, record s { dynamic_state = with_binding id stored })
    unfolding create_binding_details
    create_binding-ok salt id d e = rw (e, create_binding_details) refl
