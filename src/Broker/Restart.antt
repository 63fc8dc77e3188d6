-- ===== src/Broker/Restart.antt =====
-- A restart of the broker over nfsbroker/store_file.go: what a request that succeeded has saved is
-- what `Restore` reads back.
use nfsbroker.Base.{
  String, ◌≡◌, refl, Bool, true, false, none, [], ◌⊎◌, inl, inr, Sum-cases, Option-cases,
  Bool-cases, ◌==◌, arith,
}
use mathlib.Core.Path.{subst}
use nfsbroker.Base.Dict.{lookup}
use nfsbroker.Api.{Error, Outcome, ok, err, panic}
use nfsbroker.Exec.{settle}
use nfsbroker.Externals.{Externals}
use nfsbroker.Store.Laws.{Unchanged}
use nfsbroker.Store.File.{
  FileStore, DynamicState, Ioutil, StateCodec, new_file_store, save, restore, file_store, decode,
  write,
}
use nfsbroker.Store.File.Writes.{file_view}
use nfsbroker.Broker.Types.{Broker, ProvisionDetails}
use nfsbroker.Broker.{provision, deprovision, bind, unbind, provision_decoded}
use nfsbroker.Broker.Requests.{Request, to_provision, to_deprovision, to_bind, to_unbind, handle}

abbrev pub is_ok {ℓ} : {A : Type ℓ} → Outcome A → Bool
is_ok (ok a) = true
is_ok _ = false

settle-is_ok {ℓ κ} :
    {A : Type ℓ} {U : Type κ} (o : Outcome A) (u : Outcome U)
    → is_ok (settle o u) ≡ true
    → is_ok u ≡ true
settle-is_ok (ok a) (ok u) h = refl
settle-is_ok (ok a) (err e) h = h
settle-is_ok (ok a) panic h = h
settle-is_ok (err e) (ok u) h = refl
settle-is_ok (err e) (err x) h = h
settle-is_ok (err e) panic h = h
settle-is_ok panic (ok u) h = refl
settle-is_ok panic (err x) h = h
settle-is_ok panic panic h = h

-- What a deferred save leaves a success was a success.
pub is_ok-settle {ℓ κ} :
    {A : Type ℓ} {U : Type κ} (o : Outcome A) (u : Outcome U)
    → is_ok (settle o u) ≡ true
    → is_ok o ≡ true
is_ok-settle (ok a) u h = refl
is_ok-settle (err e) (ok u) h = h
is_ok-settle (err e) (err x) h = h
is_ok-settle (err e) panic h = h
is_ok-settle panic (ok u) h = h
is_ok-settle panic (err x) h = h
is_ok-settle panic panic h = h

-- A file that was written reads as what was written.
abbrev pub ReadsBack : {Disk : Type 0} → Ioutil Disk → Type 0
ReadsBack {Disk} ioutil =
    (name text : String) (disk : Disk)
    → (ioutil.write_file name text disk).0 ≡ none
    → ioutil.read_file name (ioutil.write_file name text disk).1 ≡ inr text

abbrev pub empty_state : DynamicState
empty_state = record { instance_map = []; binding_map = [] }

-- What the JSON form of the state decodes to, from two empty maps: the same entries.
abbrev pub BringsBack : StateCodec → DynamicState → Type 0
BringsBack codec state =
    (text : String)
    → codec.marshal_state state ≡ inr text
    → (state' : DynamicState) × (codec.unmarshal_state text empty_state ≡ (none, state'))
      × ((k : String) → lookup k state'.instance_map ≡ lookup k state.instance_map)
      × ((k : String) → lookup k state'.binding_map ≡ lookup k state.binding_map)

module _ {Disk : Type 0} (ioutil : Ioutil Disk) (codec : StateCodec) (file_name : String)
    (reads : ReadsBack ioutil) where
  -- A new process over the disk of `s` restores the maps of `s`.
  abbrev pub Restarts : FileStore Disk → Type 0
  Restarts s =
      let r = restore ioutil codec file_name (new_file_store s.disk) in
      (r.0 ≡ ok tt) × Unchanged file_view s r.1

  save_done :
      (s : FileStore Disk) {text : String}
      → codec.marshal_state s.dynamic_state ≡ inr text
      → (ioutil.write_file file_name text s.disk).0 ≡ none
      → save ioutil codec file_name s
        ≡ (ok tt, record s { disk = (ioutil.write_file file_name text s.disk).1 })
  unfolding save
  save_done s marshalled done = rw (marshalled, write) (rw done refl)

  restore_done :
      (disk : Disk) {text : String} {state' : DynamicState}
      → ioutil.read_file file_name disk ≡ inr text
      → codec.unmarshal_state text empty_state ≡ (none, state')
      → restore ioutil codec file_name (new_file_store disk)
        ≡ (ok tt, record { dynamic_state = state'; disk = disk })
  unfolding restore new_file_store
  restore_done disk read decoded = rw (read, decode) (rw decoded refl)

  save-Restarts :
      (s : FileStore Disk)
      → BringsBack codec s.dynamic_state
      → is_ok (save ioutil codec file_name s).0 ≡ true
      → Restarts (save ioutil codec file_name s).1
  unfolding save
  save-Restarts s back saved = elim (Sum-cases (codec.marshal_state s.dynamic_state)) [
    | inl (e, fails) ↦ absurd (ground (arith, fails))
    | inr (text, marshalled) ↦ elim (Option-cases (ioutil.write_file file_name text s.disk).0) [
      | inr (e, fails) ↦ absurd (ground (arith, marshalled, fails))
      | inl done ↦
          let (state', decoded, instances, bindings) = back text marshalled in
          let read = reads file_name text s.disk done in
          rw (save_done s marshalled done) (
            rw (restore_done _ read decoded)
              (refl, record { instances = instances; bindings = bindings }))
    ]
  ]

  save-dynamic_state :
      (s : FileStore Disk) → (save ioutil codec file_name s).1.dynamic_state ≡ s.dynamic_state
  unfolding save
  save-dynamic_state s = elim (Sum-cases (codec.marshal_state s.dynamic_state)) [
    | inl (e, fails) ↦ rw (fails, write) refl
    | inr (text, marshalled) ↦ rw (marshalled, write) refl
  ]

  -- The end of a handler: its outcome before the deferred save, and the state then.
  settle-Restarts :
      {A : Type 0} (o : Outcome A) (s : FileStore Disk)
      → BringsBack codec (save ioutil codec file_name s).1.dynamic_state
      → is_ok (settle o (save ioutil codec file_name s).0) ≡ true
      → Restarts (save ioutil codec file_name s).1
  settle-Restarts o s back h =
      save-Restarts s (subst (λ x. BringsBack codec x) (save-dynamic_state s) back)
        (settle-is_ok o (save ioutil codec file_name s).0 h)

  module _ (E : Externals) (b : Broker) where
    -- The request is answered without an error.
    abbrev pub succeeds : Request → FileStore Disk → Bool
    succeeds (to_provision id details a) s =
        is_ok (provision E (file_store ioutil codec file_name E) id details a s).0
    succeeds (to_deprovision id a) s =
        is_ok (deprovision E (file_store ioutil codec file_name E) id a s).0
    succeeds (to_bind salt i id d) s =
        is_ok (bind E (file_store ioutil codec file_name E) b salt i id d s).0
    succeeds (to_unbind i id) s = is_ok (unbind E (file_store ioutil codec file_name E) i id s).0

    provision-Restarts :
        (id : String) (details : ProvisionDetails) (o : Error ⊎ String) (s : FileStore Disk)
        → let r = provision_decoded E (file_store ioutil codec file_name E) o id details s in
          BringsBack codec r.1.dynamic_state → is_ok r.0 ≡ true → Restarts r.1
    provision-Restarts id details (inl e) s back h = absurd (ground arith)
    provision-Restarts id details (inr share) s back h = elim (Bool-cases (share == "")) [
      | inl empty ↦ absurd (ground (arith, empty))
      | inr given ↦ rw given (settle-Restarts _ _ (rw given at back) (rw given at h))
    ]

    -- After a request that is answered without an error, a new process over the disk restores, without
    -- an error, the instances and bindings that the old one has in memory, if a file reads as what was
    -- written to it, and the JSON form of that state decodes to its entries.
    pub handle-Restarts :
        (q : Request) (s : FileStore Disk)
        → let s' = handle E (file_store ioutil codec file_name E) b q s in
          BringsBack codec s'.dynamic_state → succeeds q s ≡ true → Restarts s'
    unfolding provision deprovision bind unbind
    handle-Restarts (to_provision id details a) s back h =
        provision-Restarts id details (E.decode_share details.raw_parameters) s back h
    handle-Restarts (to_deprovision id a) s back h = settle-Restarts _ _ back h
    handle-Restarts (to_bind salt i id d) s back h = settle-Restarts _ _ back h
    handle-Restarts (to_unbind i id) s back h = settle-Restarts _ _ back h
