-- ===== src/Broker/Types.antt =====
-- The structs of nfsbroker/nfsbroker.go, and those of `brokerapi` that the handlers take and return,
-- by the fields that the code uses.
use nfsbroker.Base.{String, Bool, List}
use nfsbroker.Api.{Params}
use nfsbroker.Config.{Config}

-- `staticState`
pub record StaticState : Type 0 where
  pub service_name : String
  pub service_id : String

-- `Broker`, without the store.
pub record Broker : Type 0 where
  pub static : StaticState
  pub config : Config

-- `brokerapi.Service` and `brokerapi.ServicePlan`
pub record ServicePlan : Type 0 where
  pub name : String
  pub id : String
  pub description : String

pub record Service : Type 0 where
  pub id : String
  pub name : String
  pub description : String
  pub bindable : Bool
  pub plan_updatable : Bool
  pub tags : List String
  pub requires : List String
  pub plans : List ServicePlan

-- `brokerapi.ProvisionDetails`
pub record ProvisionDetails : Type 0 where
  pub service_id : String
  pub plan_id : String
  pub organization_guid : String
  pub space_guid : String
  pub raw_parameters : String

pub record ProvisionedServiceSpec : Type 0 where
  pub is_async : Bool

pub record DeprovisionServiceSpec : Type 0 where
  pub is_async : Bool
  pub operation_data : String

-- `brokerapi.Binding`, with its one volume mount.
pub record VolumeMount : Type 0 where
  pub container_dir : String
  pub mode : String
  pub driver : String
  pub device_type : String
  pub volume_id : String
  pub mount_config : Params

pub record Binding : Type 0 where
  pub volume_mounts : List VolumeMount
