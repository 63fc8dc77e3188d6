-- ===== src/Broker/Mounting.antt =====
-- What a successful `Bind` answers: the mode, the names of the volume and the mount configuration.
use mathlib.Core.Option
use nfsbroker.Base.{
  String, ◌<>◌, ◌≡◌, ◌∙◌, ap, refl, true, Option, none, some, [], ◌∷◌, inl, inr, arith, ◌==◌,
  if◌then◌else◌, ◌&&◌, Sum-cases,
}
use nfsbroker.Base.Dict.{NodupKeys, lookup, put, lookup-put}
use nfsbroker.Api.{>>=-eq-ok, text, boolean, Value, Params, Error, Outcome, ok, ServiceInstance}
use nfsbroker.Config.{Config, copy}
use nfsbroker.Config.Mount.{decided, lookup-mount_config}
use nfsbroker.Config.Copying.{IsConfig, copy-IsConfig, chosen-copy}
use nfsbroker.Config.Entries.{set_entries, mount_config, share_of}
use nfsbroker.Externals.{Externals}
use nfsbroker.Broker.Types.{Broker, VolumeMount, Binding}
use nfsbroker.Broker.Volume.{
  ignore_list, read_only_to_mode, mode_of, evaluate_mode, evaluate_container_path, hash,
  binding_config, volume_binding, after_entries, make_binding,
}

mode_of-rw :
    (v : Option Value) {mode : String}
    → mode_of v ≡ ok mode
    → (if mode == "r" then "rw" else mode) ≡ "rw"
unfolding read_only_to_mode
mode_of-rw none e = ground arith
mode_of-rw (some (boolean b)) e = ground arith
mode_of-rw (some _) e = ground arith

after_entries-ok :
    (e : Option Error) (next : Outcome Binding) {r : Binding}
    → after_entries e next ≡ ok r
    → next ≡ ok r
after_entries-ok none next h = h
after_entries-ok (some e) next h = cc

module _ (E : Externals) where
  -- The value that a binding's mount configuration has under the name `k`.
  abbrev pub mounted : Config → ServiceInstance → String → Params → String → Option Value
  mounted c instance mode parameters k =
      let source = "nfs://" <> instance.share in
      if mode == "r" && "readonly" == k
      then some (boolean true)
      else if "source" == k
      then some (text (share_of source))
      else Option.map text (decided E.float_text c source parameters ignore_list k)

  lookup-binding_config :
      (c : Config) (source mode k : String)
      → lookup k (binding_config c source mode) ≡ (
          if mode == "r" && "readonly" == k
          then some (boolean true)
          else if "source" == k
          then some (text (share_of source))
          else lookup k (mount_config c))
  unfolding binding_config
  lookup-binding_config c source mode k =
      let config = put "source" (text (share_of source)) (mount_config c) in
      ground (
        arith,
        lookup-put "readonly" k (boolean true) config,
        lookup-put "source" k (text (share_of source)) (mount_config c),
      )

  temp_config : Broker → ServiceInstance → Params → Config
  temp_config b instance parameters =
      (set_entries E.float_text (copy b.config) ("nfs://" <> instance.share) parameters
        ignore_list).0

  lookup-mounted :
      (b : Broker) (instance : ServiceInstance) (mode : String) (parameters : Params) (k : String)
      → IsConfig b.config
      → NodupKeys parameters
      → lookup k
          (binding_config (temp_config b instance parameters) ("nfs://" <> instance.share) mode)
        ≡ mounted b.config instance mode parameters k
  unfolding temp_config
  lookup-mounted b instance mode parameters k w u =
      let source = "nfs://" <> instance.share in
      let w' = copy-IsConfig b.config in
      lookup-binding_config (temp_config b instance parameters) source mode k
      ∙ rw (
        lookup-mount_config E.float_text (copy b.config) source parameters ignore_list k w'.options
            w'.forced u,
        chosen-copy E.float_text b.config source parameters ignore_list k w,
      )

  -- The parts of a successful answer.
  volume_binding-ok :
      (id : String) (parameters : Params) (mode : String) (config : Params) {r : Binding}
      → volume_binding E id parameters mode config ≡ ok r
      → (s : String) × (dir : String) × (E.marshal config ≡ inr s)
        × (evaluate_container_path parameters id ≡ ok dir)
        × (r ≡ record {
          volume_mounts =
              record {
                container_dir = dir;
                mode = if mode == "r" then "rw" else mode;
                driver = "nfsv3driver";
                device_type = "shared";
                volume_id = id <> ("-" <> E.md5_hex s);
                mount_config = config;
              }
              ∷ [];
        })
  unfolding volume_binding hash
  volume_binding-ok id parameters mode config {r} h =
      let (digest, hashed, rest) = >>=-eq-ok _ (hash E config) h in
      let (dir, path, answer) = >>=-eq-ok _ (evaluate_container_path parameters id) rest in
      elim (Sum-cases (E.marshal config)) [
        | inl (e, fails) ↦ absurd (ground arith)
        | inr (s, marshalled) ↦
            (s, dir, marshalled, path, ground (arith, hashed, answer, marshalled))
      ]

  -- An answer of `Bind` for a configuration and a request with distinct names has one volume mount.
  -- Its mode is "rw"; its container path is that of the request; its volume is named by the instance
  -- and the digest of the mount configuration. The mount configuration holds `readonly` if the
  -- request asked for it, the instance's share as its source, and under any other name what
  -- `SetEntries` decides from the operator's configuration, the share and the request.
  pub make_binding-ok :
      (b : Broker) (id : String) (instance : ServiceInstance) (mode : String) (parameters : Params)
      {r : Binding}
      → IsConfig b.config
      → NodupKeys parameters
      → evaluate_mode parameters ≡ ok mode
      → make_binding E b id instance mode parameters ≡ ok r
      → (vm : VolumeMount) × (r.volume_mounts ≡ vm ∷ [])
        × (vm.mode ≡ "rw")
        × (evaluate_container_path parameters id ≡ ok vm.container_dir)
        × ((s : String) × (E.marshal vm.mount_config ≡ inr s)
            × (vm.volume_id ≡ id <> ("-" <> E.md5_hex s)))
        × ((k : String) → lookup k vm.mount_config ≡ mounted b.config instance mode parameters k)
  unfolding make_binding temp_config evaluate_mode
  make_binding-ok b id instance mode parameters {r} w u read h =
      let source = "nfs://" <> instance.share in
      let config = binding_config (temp_config b instance parameters) source mode in
      let e = (set_entries E.float_text (copy b.config) source parameters ignore_list).1 in
      let taken : volume_binding E id parameters mode config ≡ ok r = after_entries-ok e _ h in
      let (s, dir, marshalled, path, answer) = volume_binding-ok id parameters mode config taken in
      (
        record {
          container_dir = dir;
          mode = if mode == "r" then "rw" else mode;
          driver = "nfsv3driver";
          device_type = "shared";
          volume_id = id <> ("-" <> E.md5_hex s);
          mount_config = config;
        },
        ap (λ (x : Binding). x.volume_mounts) answer,
        mode_of-rw (lookup "readonly" parameters) read,
        path,
        (s, marshalled, refl),
        λ k. lookup-mounted b instance mode parameters k w u,
      )
