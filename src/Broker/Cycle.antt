-- ===== src/Broker/Cycle.antt =====
-- Whole lifetimes of an instance and a binding over nfsbroker/store_file.go on a disk that takes every
-- write.
use nfsbroker.Base.{String, ◌≡◌, ap, ◌∙◌, false, none, some, ◌⊎◌, inl, inr, ◌==◌}
use nfsbroker.Base.Dict.{lookup, put, erase, lookup-put_self, lookup-erase-put}
use nfsbroker.Api.{Params, ok, ServiceInstance, BindDetails}
use nfsbroker.Externals.{Externals}
use nfsbroker.Store.{Store, is_redacted, redact_binding_details}
use nfsbroker.Store.Redact.{MatchesOwnHash, conflicts_with-redact}
use nfsbroker.Store.Laws.{Unchanged}
use nfsbroker.Store.File.{FileStore, Ioutil, StateCodec, file_store}
use nfsbroker.Store.File.Writes.{file_view}
use nfsbroker.Broker.Types.{Broker, ProvisionDetails, Binding}
use nfsbroker.Broker.Volume.{entries, evaluate_mode, make_binding}
use nfsbroker.Broker.{instance_of, provision, deprovision, bind, unbind}
use nfsbroker.Broker.Healthy.{
  IsHealthy, Leaves, CanBind, provision_healthy, deprovision_healthy, bind_healthy, unbind_healthy,
}

module _ {Disk : Type 0} (ioutil : Ioutil Disk) (codec : StateCodec) (file_name : String)
    (H : IsHealthy ioutil codec) (E : Externals) (b : Broker) where
  abbrev store : Store (FileStore Disk)
  store = file_store ioutil codec file_name E

  -- A share, and a request to bind it that is in order, neither of them known to the state.
  pub record CanServe (s : FileStore Disk) (details : ProvisionDetails) (d : BindDetails)
      (id binding_id salt : String) (answer : Binding) : Type 0 where
    pub share : String
    pub decoded : E.decode_share details.raw_parameters ≡ inr share
    pub given : (share == "") ≡ false
    pub new_instance : lookup id s.dynamic_state.instance_map ≡ none
    pub new_binding : lookup binding_id s.dynamic_state.binding_map ≡ none
    pub app : (d.app_guid == "") ≡ false
    pub mode : String
    pub moded : evaluate_mode (entries d.parameters) ≡ ok mode
    pub stored : BindDetails
    pub redacted : redact_binding_details E salt d ≡ inr stored
    pub made :
        make_binding E b id (instance_of details share) mode (entries d.parameters) ≡ ok answer

  module _ (s : FileStore Disk) (details : ProvisionDetails) (d : BindDetails)
      (id binding_id salt : String) where
    -- The states after the four requests, one after the other.
    abbrev pub provisioned : FileStore Disk
    provisioned = (provision E store id details false s).1

    abbrev pub bound : FileStore Disk
    bound = (bind E store b salt id binding_id d provisioned).1

    abbrev pub unbound : FileStore Disk
    unbound = (unbind E store id binding_id bound).1

    abbrev pub deprovisioned : FileStore Disk
    deprovisioned = (deprovision E store id false unbound).1

    module _ {answer : Binding} (C : CanServe s details d id binding_id salt answer) where
      abbrev instance : ServiceInstance
      instance = instance_of details C.share

      first :
          Leaves ioutil codec file_name H E
            (provision E store id details false s)
            (ok (record { is_async = false }))
            (record s.dynamic_state { instance_map = put id instance s.dynamic_state.instance_map })
      first =
          provision_healthy ioutil codec file_name H E s id details false C.share C.decoded C.given
            (inl C.new_instance)

      instance_there : lookup id provisioned.dynamic_state.instance_map ≡ some instance
      instance_there =
          ap (λ m. lookup id m.instance_map) first.1
          ∙ lookup-put_self id instance s.dynamic_state.instance_map

      binding_new : lookup binding_id provisioned.dynamic_state.binding_map ≡ none
      binding_new = ap (λ m. lookup binding_id m.binding_map) first.1 ∙ C.new_binding

      can_bind :
          CanBind ioutil codec file_name H E provisioned b salt id binding_id d answer C.stored
      can_bind = record {
        instance = instance;
        held = instance_there;
        app = C.app;
        mode = C.mode;
        moded = C.moded;
        clear = inl binding_new;
        redacted = C.redacted;
        made = C.made;
      }

      second :
          Leaves ioutil codec file_name H E
            (bind E store b salt id binding_id d provisioned)
            (ok answer)
            (record provisioned.dynamic_state {
              binding_map = put binding_id C.stored provisioned.dynamic_state.binding_map;
            })
      second = bind_healthy ioutil codec file_name H E provisioned b salt id binding_id d can_bind

      instance_kept : lookup id bound.dynamic_state.instance_map ≡ some instance
      instance_kept = ap (λ m. lookup id m.instance_map) second.1 ∙ instance_there

      binding_there : lookup binding_id bound.dynamic_state.binding_map ≡ some C.stored
      binding_there =
          ap (λ m. lookup binding_id m.binding_map) second.1 ∙ lookup-put_self binding_id C.stored _

      third :
          Leaves ioutil codec file_name H E
            (unbind E store id binding_id bound)
            (ok tt)
            (record bound.dynamic_state {
              binding_map = erase binding_id bound.dynamic_state.binding_map;
            })
      third =
          unbind_healthy ioutil codec file_name H E bound id binding_id instance_kept binding_there

      fourth :
          Leaves ioutil codec file_name H E
            (deprovision E store id false unbound)
            (ok (record { is_async = false; operation_data = "deprovision" }))
            (record unbound.dynamic_state {
              instance_map = erase id unbound.dynamic_state.instance_map;
            })
      fourth =
          deprovision_healthy ioutil codec file_name H E unbound id false
            (ap (λ m. lookup id m.instance_map) third.1 ∙ instance_kept)

      -- Unbinding leaves the instances, as binding does.
      instances_kept :
          unbound.dynamic_state.instance_map ≡ put id instance s.dynamic_state.instance_map
      instances_kept =
          ap (λ m. m.instance_map) third.1
          ∙ ap (λ m. m.instance_map) second.1
          ∙ ap (λ m. m.instance_map) first.1

      instances_back :
          (k : String)
          → lookup k deprovisioned.dynamic_state.instance_map
            ≡ lookup k s.dynamic_state.instance_map
      instances_back k =
          ap (λ m. lookup k m.instance_map) fourth.1
          ∙ ap (λ m. lookup k (erase id m)) instances_kept
          ∙ lookup-erase-put id k instance s.dynamic_state.instance_map C.new_instance

      bindings_back :
          (k : String)
          → lookup k deprovisioned.dynamic_state.binding_map ≡ lookup k s.dynamic_state.binding_map
      bindings_back k =
          ap (λ m. lookup k m.binding_map) fourth.1
          ∙ ap (λ m. lookup k m.binding_map) third.1
          ∙ ap (λ m. lookup k (erase binding_id m.binding_map)) second.1
          ∙ lookup-erase-put binding_id k C.stored provisioned.dynamic_state.binding_map binding_new
          ∙ ap (λ m. lookup k m.binding_map) first.1

      -- A share is provisioned, bound, unbound and deprovisioned, each with a success, and the
      -- instances and bindings are then those of the start: if the disk takes every write and every
      -- state can be encoded, the share is given, neither the instance nor the binding is there, the
      -- request names an application and a readable mode, its parameters can be redacted, and the
      -- answer can be made.
      pub deprovision-unbind-bind-provision :
          ((provision E store id details false s).0 ≡ ok (record { is_async = false }))
          × ((bind E store b salt id binding_id d provisioned).0 ≡ ok answer)
          × ((unbind E store id binding_id bound).0 ≡ ok tt)
          × ((deprovision E store id false unbound).0
              ≡ ok (record { is_async = false; operation_data = "deprovision" }))
          × Unchanged file_view s deprovisioned
      deprovision-unbind-bind-provision = (
        first.0,
        second.0,
        third.0,
        fourth.0,
        record { instances = instances_back; bindings = bindings_back },
      )

  -- Over the file store, on a disk that takes every write and with a form for every state, a request
  -- that can be bound is answered again after it was, with the same answer, whatever salt is drawn: if
  -- bcrypt accepts a text against its own hash of it, the parameters are none or not redacted
  -- already, and they can be redacted again.
  pub bind-bind :
      (s : FileStore Disk) (salt salt' id binding_id : String) (d : BindDetails) {answer : Binding}
      {stored stored' : BindDetails}
      → MatchesOwnHash E
      → (d.parameters ≡ none) ⊎ ((p : Params) × (d.parameters ≡ some p) × (is_redacted p ≡ false))
      → CanBind ioutil codec file_name H E s b salt id binding_id d answer stored
      → redact_binding_details E salt' d ≡ inr stored'
      → let s' = (bind E store b salt id binding_id d s).1 in
        (bind E store b salt' id binding_id d s').0 ≡ ok answer
  bind-bind s salt salt' id binding_id d {answer} {stored} {stored'} own raw C again =
      let once = bind_healthy ioutil codec file_name H E s b salt id binding_id d C in
      (bind_healthy ioutil codec file_name H E (bind E store b salt id binding_id d s).1 b salt' id
        binding_id d {answer = answer} {stored = stored'}
        (record {
          instance = C.instance;
          held = ap (λ m. lookup id m.instance_map) once.1 ∙ C.held;
          app = C.app;
          mode = C.mode;
          moded = C.moded;
          clear = inr (
            stored,
            ap (λ m. lookup binding_id m.binding_map) once.1 ∙ lookup-put_self binding_id stored _,
            conflicts_with-redact E salt d own raw C.redacted,
          );
          redacted = again;
          made = C.made;
        })).0
