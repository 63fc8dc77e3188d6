-- ===== src/Broker/Healthy.antt =====
-- The broker over nfsbroker/store_file.go on a disk that takes every write: what a request needs to
-- succeed.
use nfsbroker.Base.{String, ◌≡◌, refl, Bool, false, none, some, inr, ◌==◌}
use nfsbroker.Base.Dict.{lookup}
use nfsbroker.Api.{Outcome, ok, ServiceInstance, BindDetails}
use nfsbroker.Exec.{settle}
use nfsbroker.Externals.{Externals}
use nfsbroker.Store.{Store, redact_binding_details}
use nfsbroker.Store.File.{
  FileStore, DynamicState, Ioutil, StateCodec, save, file_store, create_instance_details,
}
use nfsbroker.Broker.Types.{Broker, ProvisionDetails, Binding}
use nfsbroker.Broker.Volume.{entries, evaluate_mode, make_binding}
use nfsbroker.Broker.{
  instance_of, provision, provision_locked, provision_decoded, deprovision, bind, unbind,
}
use nfsbroker.Store.File.Calls.{
  retrieve_instance-some, retrieve_binding-some, InstanceClear, no_instance_conflict, with_instance,
  without_instance, with_binding, without_binding, delete_instance-ok, delete_binding-ok,
  BindingClear, no_binding_conflict, create_binding-ok,
}

-- Every state can be encoded, and every write succeeds.
pub record IsHealthy {Disk : Type 0} (ioutil : Ioutil Disk) (codec : StateCodec) : Type 0 where
  pub encodes : (state : DynamicState) → (text : String) × (codec.marshal_state state ≡ inr text)
  pub writes : (name text : String) (disk : Disk) → (ioutil.write_file name text disk).0 ≡ none

module _ {Disk : Type 0} (ioutil : Ioutil Disk) (codec : StateCodec) (file_name : String)
    (H : IsHealthy ioutil codec) (E : Externals) where
  abbrev st : Store (FileStore Disk)
  st = file_store ioutil codec file_name E

  -- A result with the maps that are left.
  abbrev pub Leaves : {A : Type 0} → Outcome A × FileStore Disk → Outcome A → DynamicState → Type 0
  Leaves r o state = (r.0 ≡ o) × (r.1.dynamic_state ≡ state)

  pub save-ok : (s : FileStore Disk) → Leaves (st.save s) (ok tt) s.dynamic_state
  unfolding save
  save-ok s =
      let (text, e) = H.encodes s.dynamic_state in
      rw e (rw (H.writes file_name text s.disk) (refl, refl))

  -- A body that returns is followed by a save that succeeds.
  settle-save :
      {A : Type 0} (a : A) (t : FileStore Disk)
      → (settle (ok a) (st.save t).0 ≡ ok a) × ((st.save t).1.dynamic_state ≡ t.dynamic_state)
  settle-save a t = let (saved, same) = save-ok t in (rw saved refl, same)

  module _ (s : FileStore Disk) where
    provision_locked-ok :
        (id : String) (d : ServiceInstance)
        → InstanceClear s id d
        → provision_locked E st id d s
          ≡ (ok (record { is_async = false }), record s { dynamic_state = with_instance s id d })
    unfolding provision_locked create_instance_details
    provision_locked-ok id d clear = rw (no_instance_conflict s id d clear) refl

    -- A request for a share is served where there is no instance, or the same one.
    pub provision_healthy :
        (id : String) (details : ProvisionDetails) (a : Bool) (share : String)
        → E.decode_share details.raw_parameters ≡ inr share
        → (share == "") ≡ false
        → InstanceClear s id (instance_of details share)
        → Leaves
            (provision E st id details a s)
            (ok (record { is_async = false }))
            (with_instance s id (instance_of details share))
    unfolding provision
    provision_healthy id details a share decoded given clear =
        let d = instance_of details share in
        rw (decoded, provision_decoded)
          (rw given (
            rw (provision_locked-ok id d clear)
              (settle-save _ (record s { dynamic_state = with_instance s id d }))))

    pub deprovision_healthy :
        (id : String) (a : Bool) {d : ServiceInstance}
        → lookup id s.dynamic_state.instance_map ≡ some d
        → Leaves
            (deprovision E st id a s)
            (ok (record { is_async = false; operation_data = "deprovision" }))
            (without_instance s id)
    unfolding deprovision
    deprovision_healthy id a held = rw (retrieve_instance-some s id held) (
        rw (delete_instance-ok s id held)
          (settle-save _ (record s { dynamic_state = without_instance s id })))

    pub unbind_healthy :
        (instance_id binding_id : String) {i : ServiceInstance} {d : BindDetails}
        → lookup instance_id s.dynamic_state.instance_map ≡ some i
        → lookup binding_id s.dynamic_state.binding_map ≡ some d
        → Leaves (unbind E st instance_id binding_id s) (ok tt) (without_binding s binding_id)
    unfolding unbind
    unbind_healthy instance_id binding_id held bound =
        rw (retrieve_instance-some s instance_id held) (
          rw (retrieve_binding-some s binding_id bound) (
            rw (delete_binding-ok s binding_id bound)
              (settle-save _ (record s { dynamic_state = without_binding s binding_id }))))

    -- What `Bind` needs for an answer.
    pub record CanBind (b : Broker) (salt instance_id binding_id : String) (d : BindDetails)
        (answer : Binding) (stored : BindDetails) : Type 0 where
      pub instance : ServiceInstance
      pub held : lookup instance_id s.dynamic_state.instance_map ≡ some instance
      pub app : (d.app_guid == "") ≡ false
      pub mode : String
      pub moded : evaluate_mode (entries d.parameters) ≡ ok mode
      pub clear : BindingClear s E binding_id d
      pub redacted : redact_binding_details E salt d ≡ inr stored
      pub made : make_binding E b instance_id instance mode (entries d.parameters) ≡ ok answer

    pub bind_healthy :
        (b : Broker) (salt instance_id binding_id : String) (d : BindDetails) {answer : Binding}
        {stored : BindDetails}
        → CanBind b salt instance_id binding_id d answer stored
        → Leaves
            (bind E st b salt instance_id binding_id d s)
            (ok answer)
            (with_binding s binding_id stored)
    unfolding bind
    bind_healthy b salt instance_id binding_id d {answer} {stored} C =
        rw (retrieve_instance-some s instance_id C.held) (
          rw C.app (
            rw C.moded (
              rw (no_binding_conflict s E binding_id d C.clear) (
                rw (create_binding-ok s E salt binding_id d C.redacted) (
                  rw C.made (
                    settle-save answer
                      (record s { dynamic_state = with_binding s binding_id stored })))))))
