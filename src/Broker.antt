-- ===== src/Broker.antt =====
-- nfsbroker/nfsbroker.go: the service broker over any store. A handler acts on the store's state;
-- the broker's own fields never change. Each handler that takes the mutex runs as a whole, and saves
-- the store at its end. The logger, the clock, the context and `osshim` change no result.
pub mod Types
pub mod Instances
pub mod Check
pub mod Bindings
pub mod Unbinding
pub mod Mounting
pub mod Requests
pub mod ContainerPath
pub mod Restart
pub mod OverSql
pub mod Programs
pub mod Server
pub mod Serial
pub mod Calls
pub mod Healthy
pub mod Cycle
pub mod Sound
pub mod Between
pub mod Durable
pub mod Atomic
pub mod Simulation
pub mod Reference
pub mod Lifetimes
pub mod Volume
use nfsbroker.Base.{
  String, ◌<>◌, Bool, true, false, List, [], ◌∷◌, ◌⊎◌, inl, inr, ◌==◌, if◌then◌else◌,
}
use nfsbroker.Api.{
  Error, raw_params_invalid, instance_already_exists, instance_does_not_exist,
  app_guid_not_provided, binding_already_exists, binding_does_not_exist, message, Outcome, ok, err,
  panic, ServiceInstance, BindDetails,
}
use nfsbroker.Config.{Config}
use nfsbroker.Exec.{Exec, pure, raise, lift, replacing, deferring, ◌>>=◌, ◌>>◌}
use nfsbroker.Externals.{Externals}
use nfsbroker.Store.{Store}
use nfsbroker.Broker.Types.{
  Broker, StaticState, Service, ServicePlan, ProvisionDetails, ProvisionedServiceSpec,
  DeprovisionServiceSpec, Binding,
}
use nfsbroker.Broker.Volume.{entries, evaluate_mode, make_binding}

-- `Services`
unfoldable pub services : Broker → List Service
services b =
    record {
      id = b.static.service_id;
      name = b.static.service_name;
      description =
          "Existing NFSv3 volumes (see: https://code.cloudfoundry.org/nfs-volume-release/)";
      bindable = true;
      plan_updatable = false;
      tags = "nfs" ∷ [];
      requires = "volume_mount" ∷ [];
      plans =
          record { name = "Existing"; id = "Existing"; description = "A preexisting filesystem" }
          ∷ [];
    }
    ∷ []

-- The `instanceDetails` of `Provision`.
abbrev pub instance_of : ProvisionDetails → String → ServiceInstance
instance_of details share = record {
  service_id = details.service_id;
  plan_id = details.plan_id;
  organization_guid = details.organization_guid;
  space_guid = details.space_guid;
  share = share;
}

-- What `New` returns after `Restore`, whose error is dropped.
abbrev pub restored : Broker → Outcome (Unit {0}) → Outcome Broker
restored b (ok u) = ok b
restored b (err e) = ok b
restored b panic = panic

module _ (E : Externals) where
  module _ {S : Type 0} (st : Store S) where
    -- `New`: an error of `Restore` is dropped.
    unfoldable pub new : String → String → Config → Exec S Broker
    new service_name service_id config s =
        let b : Broker = record {
          static = record { service_name = service_name; service_id = service_id };
          config = config;
        } in
        let (o, s') = st.restore s in (restored b o, s')

    -- `instanceConflicts` and `bindingConflicts`
    abbrev pub instance_conflicts : ServiceInstance → String → Exec S Bool
    instance_conflicts details instance_id = st.is_instance_conflict instance_id details

    abbrev pub binding_conflicts : String → BindDetails → Exec S Bool
    binding_conflicts binding_id details = st.is_binding_conflict binding_id details

    -- The part of `Provision` that holds the mutex.
    unfoldable pub provision_locked : String → ServiceInstance → Exec S ProvisionedServiceSpec
    provision_locked instance_id instance_details = do
      conflict ← instance_conflicts instance_details instance_id
      if conflict then raise instance_already_exists else do
        replacing (message ("failed to store instance details " <> instance_id))
            (st.create_instance_details instance_id instance_details)
        pure (record { is_async = false })

    abbrev pub provision_decoded :
        Error ⊎ String → String → ProvisionDetails → Exec S ProvisionedServiceSpec
    provision_decoded (inl e) instance_id details = raise raw_params_invalid
    provision_decoded (inr share) instance_id details =
        if share == ""
        then raise (message "config requires a \"share\" key")
        else deferring st.save (provision_locked instance_id (instance_of details share))

    -- `Provision`
    unfoldable pub provision : String → ProvisionDetails → Bool → Exec S ProvisionedServiceSpec
    provision instance_id details async_allowed =
        provision_decoded (E.decode_share details.raw_parameters) instance_id details

    -- `Deprovision`
    unfoldable pub deprovision : String → Bool → Exec S DeprovisionServiceSpec
    deprovision instance_id async_allowed = deferring st.save do
      replacing instance_does_not_exist (st.retrieve_instance_details instance_id)
      st.delete_instance_details instance_id
      pure (record { is_async = false; operation_data = "deprovision" })

    -- `Bind`, with the salt that bcrypt draws.
    unfoldable pub bind : Broker → String → String → String → BindDetails → Exec S Binding
    bind b salt instance_id binding_id bind_details = deferring st.save do
      instance_details ←
          replacing instance_does_not_exist (st.retrieve_instance_details instance_id)
      if bind_details.app_guid == "" then raise app_guid_not_provided else do
        mode ← lift (evaluate_mode (entries bind_details.parameters))
        conflict ← binding_conflicts binding_id bind_details
        if conflict then raise binding_already_exists else do
          st.create_binding_details salt binding_id bind_details
          lift
              (make_binding E b instance_id instance_details mode (entries bind_details.parameters))

    -- `Unbind`
    unfoldable pub unbind : String → String → Exec S Unit
    unbind instance_id binding_id = deferring st.save do
      replacing instance_does_not_exist (st.retrieve_instance_details instance_id)
      replacing binding_does_not_exist (st.retrieve_binding_details binding_id)
      st.delete_binding_details binding_id

    -- `Update`
    unfoldable pub update : String → Bool → Exec S Unit
    update instance_id async_allowed = lift panic

    -- `LastOperation`
    unfoldable pub last_operation : String → String → Exec S Unit
    last_operation instance_id operation_data = raise (message "unrecognized operationData")
