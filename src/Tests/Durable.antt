-- ===== src/Tests/Durable.antt =====
-- A process that ends after a goroutine has deprovisioned the last instance.
use native.Mathlib.Decide.{ℕ_discrete}
use mathlib.Core.Path.{subst}
use nfsbroker.Base.{
  ℕ, String, ◌≡◌, refl, sym, false, none, some, Option, ◌⊎◌, inl, inr, ◌==◌, if◌then◌else◌,
  string_dec,
}
use nfsbroker.Base.Dict.{lookup, erase}
use nfsbroker.Api.{ServiceInstance}
use nfsbroker.Store.{Store}
use nfsbroker.Store.File.{
  DynamicState, FileStore, StateCodec, file_store, new_file_store, restore, save,
  retrieve_instance_details, delete_instance_details,
}
use nfsbroker.Broker.{deprovision}
use nfsbroker.Broker.Requests.{Request, handle, to_deprovision}
use nfsbroker.Broker.Programs.{chain, deprovision_program}
use nfsbroker.Broker.Restart.{BringsBack, empty_state}
use nfsbroker.Broker.Server.{Server, init, lock, call, unlock, Reach, start, later}
use nfsbroker.Broker.Serial.{Log, Serial, idle, serve}
use nfsbroker.Broker.Durable.Disk.{RestoresTo, Survives, reach-Survives}
use nfsbroker.Tests.Samples.{ioutil, externals, broker_a, provisioned_a}

abbrev text_of : Option ServiceInstance → String
text_of none = "{}"
text_of (some d) = "state"

-- A codec that keeps the states with the instance of `provisioned_a` and without.
abbrev codec_a : StateCodec
codec_a = record {
  marshal_state = λ state. inr (text_of (lookup "a" state.instance_map));
  unmarshal_state =
      λ text state. (none, if text == "state" then provisioned_a.dynamic_state else empty_state);
}

abbrev store_a : Store (FileStore String)
store_a = file_store ioutil codec_a "services.json" externals

abbrev requests_a : ℕ → Request
requests_a i = to_deprovision "a" false

abbrev IsKnown : DynamicState → Type 0
IsKnown state = (state ≡ provisioned_a.dynamic_state) ⊎ (state ≡ empty_state)

full_gone :
    (disk : String)
    → (handle externals store_a broker_a
        (to_deprovision "a" false)
        (record { dynamic_state = provisioned_a.dynamic_state; disk = disk })).dynamic_state
      ≡ empty_state
unfolding deprovision retrieve_instance_details delete_instance_details save lookup erase string_dec
full_gone disk = refl

empty_kept :
    (disk : String)
    → (handle externals store_a broker_a
        (to_deprovision "a" false)
        (record { dynamic_state = empty_state; disk = disk })).dynamic_state
      ≡ empty_state
unfolding deprovision retrieve_instance_details delete_instance_details save lookup erase string_dec
empty_kept disk = refl

handle-IsKnown :
    (t : FileStore String)
    → IsKnown t.dynamic_state
    → IsKnown (handle externals store_a broker_a (to_deprovision "a" false) t).dynamic_state
handle-IsKnown t (inl full) = inr (
    subst
      (λ state.
        (handle externals store_a broker_a (to_deprovision "a" false)
          (record { dynamic_state = state; disk = t.disk })).dynamic_state
        ≡ empty_state)
      (sym full) (full_gone t.disk))
handle-IsKnown t (inr bare) = inr (
    subst
      (λ state.
        (handle externals store_a broker_a (to_deprovision "a" false)
          (record { dynamic_state = state; disk = t.disk })).dynamic_state
        ≡ empty_state)
      (sym bare) (empty_kept t.disk))

Serial-IsKnown :
    {log : Log} {t : FileStore String}
    → Serial externals store_a broker_a requests_a provisioned_a log t
    → IsKnown t.dynamic_state
Serial-IsKnown idle = inl refl
Serial-IsKnown (serve {t} i fresh taken before) = handle-IsKnown t (Serial-IsKnown before)

full-BringsBack : BringsBack codec_a provisioned_a.dynamic_state
unfolding lookup string_dec
full-BringsBack text e =
    let same : "state" ≡ text = cc in
    subst
      (λ text'.
        (state' : DynamicState) × (codec_a.unmarshal_state text' empty_state ≡ (none, state'))
        × ((k : String)
            → lookup k state'.instance_map ≡ lookup k provisioned_a.dynamic_state.instance_map)
        × ((k : String)
            → lookup k state'.binding_map ≡ lookup k provisioned_a.dynamic_state.binding_map))
      same (provisioned_a.dynamic_state, refl, (λ k. refl), λ k. refl)

empty-BringsBack : BringsBack codec_a empty_state
unfolding lookup string_dec
empty-BringsBack text e =
    let same : "{}" ≡ text = cc in
    subst
      (λ text'.
        (state' : DynamicState) × (codec_a.unmarshal_state text' empty_state ≡ (none, state'))
        × ((k : String) → lookup k state'.instance_map ≡ lookup k empty_state.instance_map)
        × ((k : String) → lookup k state'.binding_map ≡ lookup k empty_state.binding_map))
      same (empty_state, refl, (λ k. refl), λ k. refl)

backs_a :
    (log : Log) (t : FileStore String)
    → Serial externals store_a broker_a requests_a provisioned_a log t
    → BringsBack codec_a t.dynamic_state
backs_a log t serial = elim (Serial-IsKnown serial) [
  | inl full ↦ subst (BringsBack codec_a) (sym full) full-BringsBack
  | inr bare ↦ subst (BringsBack codec_a) (sym bare) empty-BringsBack
]

started_a : RestoresTo ioutil codec_a "services.json" externals provisioned_a "state"
unfolding restore new_file_store string_dec
started_a = (refl, record { instances = λ k. refl; bindings = λ k. refl })

abbrev Reached : Type 0
Reached =
    (v : Server (FileStore String)) × Reach externals store_a broker_a requests_a
      (init provisioned_a) v

-- The first goroutine has returned.
returned_a : Reached
unfolding deprovision_program chain ℕ_discrete retrieve_instance_details string_dec lookup
    delete_instance_details
returned_a = (
  _,
  later
      (later (later (later (later start (lock 0 refl refl refl)) (call 0 refl)) (call 0 refl))
        (call 0 refl))
      (unlock 0 refl),
)

reach-Survives_example :
    Survives ioutil codec_a "services.json" externals broker_a
      (λ name text disk e. refl)
      requests_a
      provisioned_a
      started_a
      backs_a
      returned_a.0
reach-Survives_example =
    reach-Survives ioutil codec_a "services.json" externals broker_a (λ name text disk e. refl)
      requests_a provisioned_a started_a backs_a returned_a.1
