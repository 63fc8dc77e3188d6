-- ===== src/Broker/Durable/Disk.antt =====
-- The disk of nfsbroker/store_file.go under the goroutines of nfsbroker/nfsbroker.go: what a new process
-- finds there, whenever the old one ends.
use nfsbroker.Base.{
  ℕ, String, ◌≡◌, sym, Bool, true, false, [], ◌∷◌, ◌⊎◌, inl, inr, Bool-cases, Option-cases,
  Sum-cases,
}
use mathlib.Core.Path.{subst}
use nfsbroker.Base.Dict.{lookup}
use nfsbroker.Api.{ok, BindDetails}
use nfsbroker.Externals.{Externals}
use nfsbroker.Store.{redact_binding_details, is_binding_conflict}
use nfsbroker.Store.Laws.{Unchanged}
use nfsbroker.Store.File.{
  FileStore, Ioutil, StateCodec, new_file_store, restore, file_store, retrieve_instance_details,
  retrieve_binding_details, create_instance_details, create_binding_details,
  delete_instance_details, delete_binding_details, is_instance_conflict,
}
use nfsbroker.Store.File.Writes.{file_view}
use nfsbroker.Broker.Types.{Broker}
use nfsbroker.Broker.Requests.{Request, to_provision, to_deprovision, to_bind, to_unbind}
use nfsbroker.Broker.Restart.{is_ok, ReadsBack, BringsBack, handle-Restarts, succeeds}
use nfsbroker.Broker.Server.{
  Answer, provisioned, deprovisioned, bound, unbound, answer, Server, init, Reach,
}
use nfsbroker.Broker.Serial.{Log, Serial, idle, serve}
use nfsbroker.Broker.Between.{IsKept}
use nfsbroker.Broker.Durable.{KeepsCalls}
use nfsbroker.Broker.Durable.Crash.{Answered, reach-Durable}

-- The request was answered without an error.
abbrev pub is_success : Answer → Bool
is_success (provisioned o) = is_ok o
is_success (deprovisioned o) = is_ok o
is_success (bound o) = is_ok o
is_success (unbound o) = is_ok o

module _ {Disk : Type 0} (d : Disk) where
  abbrev SameDisk : FileStore Disk → Type 0
  SameDisk s = s.disk ≡ d

  retrieve_instance-IsKept : (id : String) → IsKept SameDisk (retrieve_instance_details id)
  unfolding retrieve_instance_details
  retrieve_instance-IsKept id s e = elim (Option-cases (lookup id s.dynamic_state.instance_map)) [
    | inl missing ↦ rw (missing, retrieve_instance_details) e
    | inr (i, found) ↦ rw (found, retrieve_instance_details) e
  ]

  retrieve_binding-IsKept : (id : String) → IsKept SameDisk (retrieve_binding_details id)
  unfolding retrieve_binding_details
  retrieve_binding-IsKept id s e = elim (Option-cases (lookup id s.dynamic_state.binding_map)) [
    | inl missing ↦ rw (missing, retrieve_binding_details) e
    | inr (i, found) ↦ rw (found, retrieve_binding_details) e
  ]

  delete_instance-IsKept : (id : String) → IsKept SameDisk (delete_instance_details id)
  unfolding delete_instance_details
  delete_instance-IsKept id s e = elim (Option-cases (lookup id s.dynamic_state.instance_map)) [
    | inl missing ↦ rw (missing, delete_instance_details) e
    | inr (i, found) ↦ rw (found, delete_instance_details) e
  ]

  delete_binding-IsKept : (id : String) → IsKept SameDisk (delete_binding_details id)
  unfolding delete_binding_details
  delete_binding-IsKept id s e = elim (Option-cases (lookup id s.dynamic_state.binding_map)) [
    | inl missing ↦ rw (missing, delete_binding_details) e
    | inr (i, found) ↦ rw (found, delete_binding_details) e
  ]

  create_binding-IsKept :
      (E : Externals) (salt id : String) (details : BindDetails)
      → IsKept SameDisk (create_binding_details E salt id details)
  unfolding create_binding_details
  create_binding-IsKept E salt id details s e =
      elim (Sum-cases (redact_binding_details E salt details)) [
        | inl (x, fails) ↦ rw (fails, create_binding_details) e
        | inr (stored, redacted) ↦ rw (redacted, create_binding_details) e
      ]

module _ {Disk : Type 0} (ioutil : Ioutil Disk) (codec : StateCodec) (file_name : String)
    (E : Externals) where
  file_store-KeepsCalls : (d : Disk) → KeepsCalls (SameDisk d) (file_store ioutil codec file_name E)
  unfolding create_instance_details is_instance_conflict is_binding_conflict
  file_store-KeepsCalls d = record {
    retrieve_instance = retrieve_instance-IsKept d;
    retrieve_binding = retrieve_binding-IsKept d;
    instance_conflict = λ id i. retrieve_instance-IsKept d id;
    binding_conflict = λ id i. retrieve_binding-IsKept d id;
    create_instance = λ id i s e. e;
    create_binding = create_binding-IsKept d E;
    delete_instance = delete_instance-IsKept d;
    delete_binding = delete_binding-IsKept d;
  }

  -- A new process over the disk restores, without an error, the maps of `t`.
  abbrev pub RestoresTo : FileStore Disk → Disk → Type 0
  RestoresTo t disk =
      let r = restore ioutil codec file_name (new_file_store disk) in
      (r.0 ≡ ok tt) × Unchanged file_view t r.1

  -- A new process restores the state, unless the last handler ended with an error.
  abbrev pub Recovers : Log → FileStore Disk → Disk → Type 0
  Recovers [] t disk = RestoresTo t disk
  Recovers ((i, a) ∷ log) t disk = (is_success a ≡ false) ⊎ RestoresTo t disk

  module _ (b : Broker) (reads : ReadsBack ioutil) where
    succeeds-answer :
        (q : Request) (s : FileStore Disk)
        → is_success (answer E (file_store ioutil codec file_name E) b q s) ≡ true
        → succeeds ioutil codec file_name reads E b q s ≡ true
    succeeds-answer (to_provision id details a) s e = e
    succeeds-answer (to_deprovision id a) s e = e
    succeeds-answer (to_bind salt i id d) s e = e
    succeeds-answer (to_unbind i id) s e = e

    module _ (requests : ℕ → Request) (s : FileStore Disk) (started : RestoresTo s s.disk)
        (backs : (log : Log) (t : FileStore Disk)
          → Serial E (file_store ioutil codec file_name E) b requests s log t
          → BringsBack codec t.dynamic_state) where
      Serial-Recovers :
          {t : FileStore Disk} {log : Log}
          → Serial E (file_store ioutil codec file_name E) b requests s log t
          → Recovers log t t.disk
      Serial-Recovers idle = started
      Serial-Recovers (serve {t} i fresh taken before) =
          elim (Bool-cases
            (is_success (answer E (file_store ioutil codec file_name E) b (requests i) t))) [
              | inl done_well ↦ inr (
                  handle-Restarts ioutil codec file_name reads E b (requests i) t
                    (backs _ _ (serve i fresh taken before))
                    (succeeds-answer (requests i) t done_well))
              | inr failed ↦ inl failed
            ]

      -- What an end of the process at this point leaves.
      abbrev pub Survives : Server (FileStore Disk) → Type 0
      Survives v =
          (log : Log) × (t : FileStore Disk) × Serial E (file_store ioutil codec file_name E) b
            requests s log t
          × Answered E (file_store ioutil codec file_name E) b requests log v
          × (v.store.disk ≡ t.disk)
          × Recovers log t v.store.disk

      -- Whenever the process ends, between two calls of its handlers too, but not within one, the
      -- disk is the one that whole handlers leave, one after the other, among them that of every
      -- goroutine that was answered and not refused; and a new process restores from it the
      -- instances and bindings that they leave, unless the last of them ended with an error: if a
      -- file reads as what was written to it, the process started with what its disk restores, and
      -- the JSON form of each state that such handlers lead to decodes to its entries.
      pub reach-Survives :
          {v : Server (FileStore Disk)}
          → Reach E (file_store ioutil codec file_name E) b requests (init s) v
          → Survives v
      reach-Survives {v} r =
          let (log, t, serial, same, answers) =
            reach-Durable E (file_store ioutil codec file_name E) (λ s. s.disk)
              file_store-KeepsCalls b requests r in
          (
            log,
            t,
            serial,
            answers,
            same,
            subst (λ disk. Recovers log t disk) (sym same) (Serial-Recovers serial),
          )
