-- ===== src/Store/File.antt =====
-- nfsbroker/store_file.go: the two maps in memory, and the file that they are saved to. The file
-- system behind `ioutil` and the JSON form of the state are parameters.
pub mod Writes
pub mod Calls
pub mod Lawful
use nfsbroker.Base.{
  String, ◌<>◌, ◌≡◌, Bool, true, false, not, Option, none, some, List, [], ◌⊎◌, inl, inr,
  if◌then◌else◌,
}
use nfsbroker.Base.Dict.{Dict, lookup, put, erase}
use nfsbroker.Api.{Error, message, Outcome, ok, err, ServiceInstance, instance_eq, BindDetails}
use nfsbroker.Exec.{Exec, pure, raise, lift, from_result, ◌>>=◌, ◌>>◌}
use nfsbroker.Externals.{Externals}
use nfsbroker.Store.{Store, redact_binding_details, is_binding_conflict}

-- `DynamicState`
pub record DynamicState : Type 0 where
  pub instance_map : Dict ServiceInstance
  pub binding_map : Dict BindDetails

-- `ioutilshim.Ioutil`, as far as the store uses it, over the contents of a disk.
pub record Ioutil (Disk : Type 0) : Type 0 where
  pub read_file : String → Disk → Error ⊎ String
  pub write_file : String → String → Disk → Option Error × Disk

-- `json.Marshal(s.dynamicState)` and `json.Unmarshal(data, s.dynamicState)`. The second decodes
-- into the maps that are there, and may have changed them when it fails.
pub record StateCodec : Type 0 where
  pub marshal_state : DynamicState → Error ⊎ String
  pub unmarshal_state : String → DynamicState → Option Error × DynamicState

-- `fileStore` with the disk that it writes to.
pub record FileStore (Disk : Type 0) : Type 0 where
  pub dynamic_state : DynamicState
  pub disk : Disk

abbrev pub to_outcome : Option Error → Outcome (Unit {0})
to_outcome none = ok tt
to_outcome (some e) = err e

abbrev pub differs_from : Outcome ServiceInstance → ServiceInstance → Outcome Bool
differs_from (ok existing) details = ok (not (instance_eq details existing))
differs_from _ details = ok false

module _ {Disk : Type 0} where
  -- `NewFileStore`
  unfoldable pub new_file_store : Disk → FileStore Disk
  new_file_store disk = record {
    dynamic_state = record { instance_map = []; binding_map = [] };
    disk = disk;
  }

  -- `RetrieveInstanceDetails`
  unfoldable pub retrieve_instance_details : String → Exec (FileStore Disk) ServiceInstance
  retrieve_instance_details id s = elim (lookup id s.dynamic_state.instance_map) [
    | none ↦ (err (message (id <> " Not Found.")), s)
    | some details ↦ (ok details, s)
  ]

  -- `RetrieveBindingDetails`
  unfoldable pub retrieve_binding_details : String → Exec (FileStore Disk) BindDetails
  retrieve_binding_details id s = elim (lookup id s.dynamic_state.binding_map) [
    | none ↦ (err (message (id <> " Not Found.")), s)
    | some details ↦ (ok details, s)
  ]

  abbrev put_instance : String → ServiceInstance → FileStore Disk → FileStore Disk
  put_instance id details s = record s {
    dynamic_state = record s.dynamic_state {
      instance_map = put id details s.dynamic_state.instance_map;
    };
  }

  abbrev put_binding : String → BindDetails → FileStore Disk → FileStore Disk
  put_binding id details s = record s {
    dynamic_state = record s.dynamic_state {
      binding_map = put id details s.dynamic_state.binding_map;
    };
  }

  -- `CreateInstanceDetails`
  unfoldable pub create_instance_details : String → ServiceInstance → Exec (FileStore Disk) Unit
  create_instance_details id details s = (ok tt, put_instance id details s)

  -- `DeleteInstanceDetails`
  unfoldable pub delete_instance_details : String → Exec (FileStore Disk) Unit
  delete_instance_details id s = elim (lookup id s.dynamic_state.instance_map) [
    | none ↦ (err (message (id <> " Not Found.")), s)
    | some _ ↦ (
      ok tt,
      record s {
        dynamic_state = record s.dynamic_state {
          instance_map = erase id s.dynamic_state.instance_map;
        };
      },
    )
  ]

  -- `DeleteBindingDetails`
  unfoldable pub delete_binding_details : String → Exec (FileStore Disk) Unit
  delete_binding_details id s = elim (lookup id s.dynamic_state.binding_map) [
    | none ↦ (err (message (id <> " Not Found.")), s)
    | some _ ↦ (
      ok tt,
      record s {
        dynamic_state = record s.dynamic_state {
          binding_map = erase id s.dynamic_state.binding_map;
        };
      },
    )
  ]

  -- `IsInstanceConflict`
  unfoldable pub is_instance_conflict : String → ServiceInstance → Exec (FileStore Disk) Bool
  unfolding retrieve_instance_details
  is_instance_conflict id details s =
      let (o, s') = retrieve_instance_details id s in (differs_from o details, s')

  -- `Cleanup`
  unfoldable pub cleanup : Exec (FileStore Disk) Unit
  cleanup = pure tt

  module _ (E : Externals) where
    -- `CreateBindingDetails`
    unfoldable pub create_binding_details :
        String → String → BindDetails → Exec (FileStore Disk) Unit
    create_binding_details salt id details s = elim (redact_binding_details E salt details) [
      | inl e ↦ (err e, s)
      | inr store_details ↦ (ok tt, put_binding id store_details s)
    ]

  module _ (ioutil : Ioutil Disk) (codec : StateCodec) (file_name : String) where
    abbrev pub decode : Error ⊎ String → Exec (FileStore Disk) Unit
    decode (inl e) s = (err e, s)
    decode (inr service_data) s =
        let (e, state) = codec.unmarshal_state service_data s.dynamic_state in
        (to_outcome e, record s { dynamic_state = state })

    -- `Restore`
    unfoldable pub restore : Exec (FileStore Disk) Unit
    restore s = decode (ioutil.read_file file_name s.disk) s

    abbrev pub write : Error ⊎ String → Exec (FileStore Disk) Unit
    write (inl e) s = (err e, s)
    write (inr state_data) s =
        let (e, disk) = ioutil.write_file file_name state_data s.disk in
        (to_outcome e, record s { disk = disk })

    -- `Save`
    unfoldable pub save : Exec (FileStore Disk) Unit
    save s = write (codec.marshal_state s.dynamic_state) s

    -- `fileStore` as a `Store`
    abbrev pub file_store : Externals → Store (FileStore Disk)
    file_store E = record {
      retrieve_instance_details = retrieve_instance_details;
      retrieve_binding_details = retrieve_binding_details;
      create_instance_details = create_instance_details;
      create_binding_details = create_binding_details E;
      delete_instance_details = delete_instance_details;
      delete_binding_details = delete_binding_details;
      is_instance_conflict = is_instance_conflict;
      is_binding_conflict = is_binding_conflict E retrieve_binding_details;
      restore = restore;
      save = save;
      cleanup = cleanup;
    }
