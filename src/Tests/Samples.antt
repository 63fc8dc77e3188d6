-- ===== src/Tests/Samples.antt =====
-- Concrete stand-ins for what the broker does not implement, and concrete requests.
use nfsbroker.Base.{
  String, ◌<>◌, ◌≡◌, refl, true, false, none, some, [], ◌∷◌, inr, arith, ◌==◌, ==-refl, string_dec,
  if◌then◌else◌,
}
use nfsbroker.Base.Dict.{NodupKeys, lookup}
use nfsbroker.Api.{Value, text, boolean, Params, ServiceInstance, BindDetails}
use nfsbroker.Config.{Config}
use nfsbroker.Config.Copying.{IsConfig}
use nfsbroker.Store.{hash_key}
use nfsbroker.Externals.{Externals}
use nfsbroker.Store.{Store}
use nfsbroker.Store.File.{FileStore, Ioutil, StateCodec, file_store}
use nfsbroker.Store.Laws.{IsLawful}
use nfsbroker.Store.File.Writes.{file_view}
use nfsbroker.Store.File.Lawful.{file_store-IsLawful}
use nfsbroker.Broker.Types.{Broker, ProvisionDetails}

abbrev pub value_text : Value → String
value_text (text s) = s
value_text (boolean b) = if b then "true" else "false"
value_text _ = "?"

abbrev pub params_text : Params → String
params_text [] = ""
params_text ((k, v) ∷ m) = k <> ("=" <> (value_text v <> (";" <> params_text m)))

abbrev pub externals : Externals
externals = record {
  float_text = λ size bits. "10";
  marshal = λ p. inr (params_text p);
  generate = λ salt s. inr ("$" <> s);
  matches = λ h s. h == ("$" <> s);
  md5_hex = λ s. s;
  decode_share = λ raw. inr raw;
}

-- bcrypt's law holds of the stand-in.
pub externals-own :
    (salt s h : String) → externals.generate salt s ≡ inr h → externals.matches h s ≡ true
externals-own salt s h e = ground (arith, ==-refl h)

-- A disk that always works and keeps the last text.
abbrev pub ioutil : Ioutil String
ioutil = record { read_file = λ name disk. inr disk; write_file = λ name data' disk. (none, data') }

abbrev pub codec : StateCodec
codec = record { marshal_state = λ s. inr "state"; unmarshal_state = λ data' s. (none, s) }

abbrev pub store : Store (FileStore String)
store = file_store ioutil codec "services.json" externals

abbrev pub start : FileStore String
start = record { dynamic_state = record { instance_map = []; binding_map = [] }; disk = "" }

abbrev pub instance_a : ServiceInstance
instance_a = record {
  service_id = "service";
  plan_id = "Existing";
  organization_guid = "org";
  space_guid = "space";
  share = "server/export?uid=7";
}

abbrev pub request_a : ProvisionDetails
request_a = record {
  service_id = "service";
  plan_id = "Existing";
  organization_guid = "org";
  space_guid = "space";
  raw_parameters = "server/export?uid=7";
}

abbrev pub parameters_a : Params
parameters_a = ("uid", text "1000") ∷ ("readonly", boolean true) ∷ []

abbrev pub details_a : BindDetails
details_a = record {
  app_guid = "app";
  plan_id = "Existing";
  service_id = "service";
  bind_resource = none;
  parameters = some parameters_a;
}

-- What is stored of the request.
abbrev pub stored_a : BindDetails
stored_a = record details_a { parameters = some ((hash_key, text "$uid=1000;readonly=true;") ∷ []) }

-- A state with an instance, and no binding.
abbrev pub provisioned_a : FileStore String
provisioned_a = record {
  dynamic_state = record { instance_map = ("a", instance_a) ∷ []; binding_map = [] };
  disk = "state";
}

abbrev pub config_a : Config
config_a = record {
  mount = record {
    allowed = "uid" ∷ "gid" ∷ [];
    forced = ("auto_cache", "true") ∷ [];
    options = ("gid", "5") ∷ [];
  };
  sloppy_mount = false;
}

abbrev pub broker_a : Broker
broker_a = record {
  static = record { service_name = "nfsvolume"; service_id = "service-guid" };
  config = config_a;
}

pub lawful : IsLawful file_view externals store
lawful = file_store-IsLawful ioutil codec "services.json" externals

pub parameters_a-NodupKeys : NodupKeys parameters_a
unfolding lookup string_dec
parameters_a-NodupKeys = (refl, (refl, tt))

pub config_a-IsConfig : IsConfig config_a
unfolding lookup string_dec
config_a-IsConfig = record { options = (refl, tt); forced = (refl, tt) }
