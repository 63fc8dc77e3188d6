-- ===== src/Tests/Broker.antt =====
-- Runs of the handlers over a file store, and the theorems about them at concrete inputs.
use native.Mathlib.Decide.{ℕ_discrete}
use nfsbroker.Base.{String, ◌<>◌, ◌≡◌, refl, true, false, [], ◌∷◌, string_dec, inr}
use nfsbroker.Base.Text.{split, split_two}
use nfsbroker.Base.FilePath.{join_path}
use nfsbroker.Base.Dict.{lookup, put, erase, in_array, copy_into}
use nfsbroker.Api.{text, boolean, ok, instance_eq}
use nfsbroker.Config.{copy}
use nfsbroker.Config.Entries.{
  set_entries, parse_map, parse_url, is_sloppy_mount, refused, verdict, mount_config, share_of,
}
use nfsbroker.Store.File.{
  retrieve_instance_details, create_instance_details, is_instance_conflict, save,
}
use nfsbroker.Store.File.Writes.{file_view}
use nfsbroker.Broker.{provision, provision_locked, deprovision, bind, unbind}
use nfsbroker.Broker.Volume.{
  evaluate_mode, read_only_to_mode, evaluate_container_path, hash, binding_config, volume_binding,
  make_binding,
}
use nfsbroker.Broker.Types.{VolumeMount, Binding}
use nfsbroker.Broker.Instances.{ProvisionEnds, provision-ends, DeprovisionEnds, deprovision-ends}
use nfsbroker.Broker.Bindings.{BindEnds, bind-ends}
use nfsbroker.Broker.Unbinding.{UnbindEnds, unbind-ends}
use nfsbroker.Broker.Mounting.{mounted, make_binding-ok}
use nfsbroker.Tests.Samples.{
  externals, store, lawful, start, instance_a, request_a, parameters_a, details_a, provisioned_a,
  config_a, broker_a, parameters_a-NodupKeys, config_a-IsConfig,
}

pub answer_a : Binding
answer_a = record {
  volume_mounts =
      record {
        container_dir = "/var/vcap/data/a";
        mode = "rw";
        driver = "nfsv3driver";
        device_type = "shared";
        volume_id = "a-gid=5;uid=7;auto_cache=true;source=nfs://server/export;readonly=true;";
        mount_config =
            ("gid", text "5")
            ∷ ("uid", text "7")
            ∷ ("auto_cache", text "true")
            ∷ ("source", text "nfs://server/export")
            ∷ ("readonly", boolean true)
            ∷ [];
      }
      ∷ [];
}

provisioned :
    provision externals store "a" request_a false start
    ≡ (ok (record { is_async = false }), provisioned_a)
unfolding provision provision_locked is_instance_conflict retrieve_instance_details
    create_instance_details save instance_eq lookup put string_dec
provisioned = refl

pub made : make_binding externals broker_a "a" instance_a "r" parameters_a ≡ ok answer_a
unfolding make_binding volume_binding hash evaluate_container_path binding_config join_path
    set_entries parse_map parse_url is_sloppy_mount refused verdict mount_config share_of copy
    copy_into lookup put erase in_array split split_two string_dec ℕ_discrete answer_a
made = refl

provision-ends_example :
    ProvisionEnds externals store file_view lawful "a" request_a start
      (provision externals store "a" request_a false start)
provision-ends_example = provision-ends externals store file_view lawful "a" request_a false start

deprovision-ends_example :
    DeprovisionEnds externals store file_view lawful "a" provisioned_a
      (deprovision externals store "a" false provisioned_a)
deprovision-ends_example = deprovision-ends externals store file_view lawful "a" false provisioned_a

bind-ends_example :
    BindEnds externals store file_view lawful broker_a "salt" "a" "b" details_a provisioned_a
      (bind externals store broker_a "salt" "a" "b" details_a provisioned_a)
bind-ends_example =
    bind-ends externals store file_view lawful broker_a "salt" "a" "b" details_a provisioned_a

unbind-ends_example :
    UnbindEnds externals store file_view lawful "a" "b" provisioned_a
      (unbind externals store "a" "b" provisioned_a)
unbind-ends_example = unbind-ends externals store file_view lawful "a" "b" provisioned_a

pub mode_a : evaluate_mode parameters_a ≡ ok "r"
unfolding evaluate_mode read_only_to_mode lookup string_dec
mode_a = refl

make_binding-ok_example :
    (vm : VolumeMount) × (answer_a.volume_mounts ≡ vm ∷ [])
    × (vm.mode ≡ "rw")
    × (evaluate_container_path parameters_a "a" ≡ ok vm.container_dir)
    × ((s : String) × (externals.marshal vm.mount_config ≡ inr s)
        × (vm.volume_id ≡ "a" <> ("-" <> externals.md5_hex s)))
    × ((k : String)
        → lookup k vm.mount_config ≡ mounted externals config_a instance_a "r" parameters_a k)
make_binding-ok_example =
    make_binding-ok externals broker_a "a" instance_a "r" parameters_a config_a-IsConfig
      parameters_a-NodupKeys mode_a made
