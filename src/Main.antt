-- ===== src/Main.antt =====
-- main.go: what the process does before it serves. Flags and environment are values; logging, the
-- HTTP server and signals are left out. `osshim` and the JSON decoder are parameters.
pub mod Credentials
pub mod Vcap
pub mod Start
pub mod Run
use native.Mathlib.Decide.{ℕ_discrete}
use mathlib.Core.Logic.{ite}
use nfsbroker.Base.{
  ℕ, String, ◌<>◌, ◌≡◌, refl, Bool, true, false, ◌&&◌, Option, none, some, ◌⊎◌, inl, inr, ◌==◌,
  if◌then◌else◌,
}
use nfsbroker.Base.Dict.{Dict, lookup}
use nfsbroker.Base.FilePath.{file_path_join}
use nfsbroker.Api.{
  Value, text, float, object, null, Items, end, item, Fields, close, field, Error, Outcome, ok, err,
  panic, ◌>>=◌,
}
use nfsbroker.Config.{Config, ConfigDetails, new_config, new_config_details}
use nfsbroker.Config.Read.{read_conf}
use nfsbroker.Externals.{Externals}
use nfsbroker.Store.{Store}
use nfsbroker.Store.File.{FileStore}
use nfsbroker.Store.Choice.{Platform, DbParams, NewStore, sql, file, new_store}
use nfsbroker.Sql.Variant.{Variant}
use nfsbroker.Broker.Types.{Broker}
use nfsbroker.Broker.{new}

-- The flags, by their values.
pub record Flags : Type 0 where
  pub data_dir : String
  pub at_address : String
  pub service_name : String
  pub service_id : String
  pub db_driver : String
  pub db_hostname : String
  pub db_port : String
  pub db_name : String
  pub db_ca_cert : String
  pub cf_service_name : String
  pub allowed_options : String
  pub default_options : String

-- The variables that `parseEnvironment` sets.
pub record Environment : Type 0 where
  pub username : String
  pub password : String
  pub db_username : String
  pub db_password : String

-- `os.LookupEnv`, the decoding of `VCAP_SERVICES`, and `%.0f` of a float of 64 bits.
pub record System : Type 0 where
  pub lookup_env : String → Option String
  pub decode_services : String → Error ⊎ Dict Items
  pub whole_text : ℕ → String

-- The exit status of `checkParams`, if it ends the process.
unfoldable pub check_params : Flags → Option ℕ
check_params f = if f.data_dir == "" && f.db_driver == "" then some 1 else none

abbrev or_empty : Option String → String
or_empty none = ""
or_empty (some s) = s

-- `parseEnvironment`
unfoldable pub parse_environment : System → Environment
parse_environment sys = record {
  username = or_empty (sys.lookup_env "USERNAME");
  password = or_empty (sys.lookup_env "PASSWORD");
  db_username = or_empty (sys.lookup_env "DB_USERNAME");
  db_password = or_empty (sys.lookup_env "DB_PASSWORD");
}

-- A read of a decoded object; a missing key gives nil.
unfoldable pub get_field : String → Fields → Value
get_field k close = null
get_field k (field j v fields) = if j == k then v else get_field k fields

-- What panics unless it is there.
abbrev pub needed : {A : Type 0} → Option A → Outcome A
needed none = panic
needed (some a) = ok a

-- A result whose error is logged with `Fatal`, which panics.
abbrev pub or_fatal : {A : Type 0} → Error ⊎ A → Outcome A
or_fatal (inl e) = panic
or_fatal (inr a) = ok a

-- `items[0].(map[string]interface{})`
abbrev pub first_object : Items → Outcome Fields
first_object (item (object fields) items) = ok fields
first_object _ = panic

-- `v.(map[string]interface{})`
abbrev pub as_object : Value → Outcome Fields
as_object (object fields) = ok fields
as_object _ = panic

-- `v.(string)`
abbrev pub as_text : Value → Outcome String
as_text (text s) = ok s
as_text _ = panic

module _ (sys : System) where
  -- A string, or a float that is printed without a fraction.
  abbrev pub port_of : Value → Outcome String
  port_of (text s) = ok s
  port_of (float size bits) = ite (ℕ_discrete size 64) (ok (sys.whole_text bits)) panic
  port_of _ = panic

  -- The parameters of the database that the credentials of a service name.
  abbrev pub with_credentials : DbParams → Fields → Outcome DbParams
  with_credentials p credentials = do
    username ← as_text (get_field "username" credentials)
    password ← as_text (get_field "password" credentials)
    hostname ← as_text (get_field "hostname" credentials)
    port ← port_of (get_field "port" credentials)
    name ← as_text (get_field "name" credentials)
    ok (record p {
      db_username = username;
      db_password = password;
      db_hostname = hostname;
      db_port = port;
      db_name = name;
    })

  -- `parseVcapServices`
  unfoldable pub parse_vcap_services : String → DbParams → Outcome DbParams
  parse_vcap_services cf_service_name p = if p.db_driver == "" then panic else do
    services ← needed (sys.lookup_env "VCAP_SERVICES")
    stuff ← or_fatal (sys.decode_services services)
    bindings ← needed (lookup cf_service_name stuff)
    binding ← first_object bindings
    credentials ← as_object (get_field "credentials" binding)
    with_credentials p credentials

-- The server that the process runs: its address, the broker with its store, and the credentials that
-- a caller has to show.
pub record Process (W : Type 0) : Type 0 where
  pub at_address : String
  pub broker : Broker
  pub store : NewStore W
  pub username : String
  pub password : String

-- `ReadConf` changes the mount details in place, and its error is dropped.
abbrev pub configured : ConfigDetails → Outcome ConfigDetails → Outcome ConfigDetails
configured m (err e) = ok m
configured m o = o

module _ {J W : Type 0} (sys : System) (P : Platform J W) (E : Externals) where
  -- The parameters of `NewStore`.
  abbrev pub db_params : Flags → Environment → DbParams
  db_params f env = record {
    db_driver = f.db_driver;
    db_username = env.db_username;
    db_password = env.db_password;
    db_hostname = f.db_hostname;
    db_port = f.db_port;
    db_name = f.db_name;
    db_ca_cert = f.db_ca_cert;
  }

  -- `parseVcapServices`, if the broker was pushed to a platform.
  abbrev pub found_params : Flags → Environment → Outcome DbParams
  found_params f env =
      if f.cf_service_name == ""
      then ok (db_params f env)
      else parse_vcap_services sys f.cf_service_name (db_params f env)

  abbrev pub state_file : Flags → String
  state_file f = file_path_join f.data_dir (f.service_name <> "-services.json")

  -- `nfsbroker.New` over the store, which restores it.
  abbrev pub on_store : Flags → Config → NewStore W → W → Outcome (Broker × NewStore W) × W
  on_store f config (sql st v) w =
      let (o, (v', w')) = new E st f.service_name f.service_id config (v, w) in
      (o >>= (λ b. ok (b, sql st v')), w')
  on_store f config (file st d) w =
      let (o, s) =
        new E st f.service_name f.service_id config (record { dynamic_state = d; disk = w }) in
      (o >>= (λ b. ok (b, file st s.dynamic_state)), s.disk)

  abbrev pub server : Flags → Environment → Outcome (Broker × NewStore W) → Outcome (Process W)
  server f env o = do
    made ← o
    ok (record {
      at_address = f.at_address;
      broker = made.0;
      store = made.1;
      username = env.username;
      password = env.password;
    })

  abbrev pub with_config :
      Flags → Environment → Outcome ConfigDetails → NewStore W → W → Outcome (Process W) × W
  with_config f env (ok mounts) st w =
      let (o, w') = on_store f (new_config mounts) st w in (server f env o, w')
  with_config f env _ st w = (panic, w)

  abbrev pub with_store : Flags → Environment → Outcome (NewStore W) × W → Outcome (Process W) × W
  with_store f env (ok st, w) =
      with_config f env
        (configured new_config_details
          (read_conf new_config_details f.allowed_options f.default_options))
        st w
  with_store f env (_, w) = (panic, w)

  abbrev pub with_params : Flags → Environment → Outcome DbParams → W → Outcome (Process W) × W
  with_params f env (ok p) w = with_store f env (new_store P E p (state_file f) w)
  with_params f env _ w = (panic, w)

  -- `createServer`
  unfoldable pub create_server : Flags → Environment → W → Outcome (Process W) × W
  create_server f env w = with_params f env (found_params f env) w
