-- ===== src/Broker/Volume.antt =====
-- What `Bind` makes of a stored instance and a request: the mode, the container path, the mount
-- configuration and the volume's name.
use nfsbroker.Base.{
  String, ◌<>◌, Bool, true, Option, none, some, List, [], ◌∷◌, inl, inr, ◌==◌, if◌then◌else◌,
}
use nfsbroker.Base.Dict.{lookup, put}
use nfsbroker.Base.FilePath.{join_path}
use nfsbroker.Api.{
  Value, text, boolean, Params, Error, raw_params_invalid, Outcome, ok, err, panic, ServiceInstance,
  ◌>>=◌,
}
use nfsbroker.Config.{Config, copy}
use nfsbroker.Config.Entries.{set_entries, mount_config, share_of}
use nfsbroker.Externals.{Externals}
use nfsbroker.Broker.Types.{Broker, Binding}

-- `DefaultContainerPath`
abbrev pub default_container_path : String
default_container_path = "/var/vcap/data"

-- A map that may be nil is read as an empty one.
abbrev pub entries : Option Params → Params
entries none = []
entries (some parameters) = parameters

-- `readOnlyToMode`
unfoldable pub read_only_to_mode : Bool → String
read_only_to_mode ro = if ro then "r" else "rw"

abbrev pub mode_of : Option Value → Outcome String
mode_of none = ok "rw"
mode_of (some (boolean ro)) = ok (read_only_to_mode ro)
mode_of (some _) = err raw_params_invalid

-- `evaluateMode`
unfoldable pub evaluate_mode : Params → Outcome String
unfolding read_only_to_mode
evaluate_mode parameters = mode_of (lookup "readonly" parameters)

-- A mount that is no text differs from "", and the type assertion panics.
abbrev pub container_path_of : Option Value → String → Outcome String
container_path_of none vol_id = ok (join_path default_container_path vol_id)
container_path_of (some (text path)) vol_id =
    if path == "" then ok (join_path default_container_path vol_id) else ok path
container_path_of (some _) vol_id = panic

-- `evaluateContainerPath`
unfoldable pub evaluate_container_path : Params → String → Outcome String
evaluate_container_path parameters vol_id = container_path_of (lookup "mount" parameters) vol_id

-- The names that `Bind` keeps from the mount options.
abbrev pub ignore_list : List String
ignore_list = "share" ∷ "mount" ∷ "kerberosPrincipal" ∷ "kerberosKeytab" ∷ "readonly" ∷ []

-- The mount configuration of a binding, with its source, and `readonly` for the mode "r".
unfoldable pub binding_config : Config → String → String → Params
binding_config temp_config source mode =
    let config = put "source" (text (share_of source)) (mount_config temp_config) in
    if mode == "r" then put "readonly" (boolean true) config else config

abbrev pub after_entries {ℓ} : {A : Type ℓ} → Option Error → Outcome A → Outcome A
after_entries none next = next
after_entries (some e) next = err e

module _ (E : Externals) where
  -- `hash`
  unfoldable pub hash : Params → Outcome String
  hash mount_config = elim (E.marshal mount_config) [
    | inl e ↦ err e
    | inr bytes ↦ ok (E.md5_hex bytes)
  ]

  -- The answer of `Bind`, from the mount configuration on.
  unfoldable pub volume_binding : String → Params → String → Params → Outcome Binding
  volume_binding instance_id parameters mode config = do
    s ← hash config
    container_dir ← evaluate_container_path parameters instance_id
    ok (record {
      volume_mounts =
          record {
            container_dir = container_dir;
            mode = if mode == "r" then "rw" else mode;
            driver = "nfsv3driver";
            device_type = "shared";
            volume_id = instance_id <> ("-" <> s);
            mount_config = config;
          }
          ∷ [];
    })

  -- The second half of `Bind`, after the binding was created. `SetEntries` works on a local copy.
  unfoldable pub make_binding :
      Broker → String → ServiceInstance → String → Params → Outcome Binding
  make_binding b instance_id instance_details mode parameters =
      let source = "nfs://" <> instance_details.share in
      let (temp_config, e) =
        set_entries E.float_text (copy b.config) source parameters ignore_list in
      after_entries e
        (volume_binding instance_id parameters mode (binding_config temp_config source mode))
