-- ===== src/Fakes/Trace/Handlers.antt =====
-- Which calls each handler of nfsbroker/nfsbroker.go makes of a store.
use nfsbroker.Base.{
  String, Bool, false, ◌<>◌, ◌≡◌, refl, ap, ◌∙◌, true, Bool-cases, List, [], ◌∷◌, ◌⊎◌, inl, inr,
  ◌==◌, some,
}
use nfsbroker.Exec.{Exec, replacing}
use nfsbroker.Api.{
  Error, raw_params_invalid, err, message, instance_already_exists, binding_already_exists,
  binding_does_not_exist, instance_does_not_exist, app_guid_not_provided, ServiceInstance,
  BindDetails,
}
use nfsbroker.Externals.{Externals}
use nfsbroker.Broker.Types.{Broker, ProvisionDetails}
use nfsbroker.Broker.{
  instance_of, provision, provision_locked, provision_decoded, deprovision, bind, unbind,
}
use nfsbroker.Broker.Volume.{entries, evaluate_mode}
use nfsbroker.Broker.Requests.{Request, to_provision, to_deprovision, to_bind, to_unbind, handle}
use nfsbroker.Broker.Server.{Answer, provisioned, refusal, refusal_of, answer}
use nfsbroker.Broker.Durable.Disk.{is_success}
use nfsbroker.Fakes.{Faked}
use nfsbroker.Fakes.Store.{FakeStore, fake_store}
use nfsbroker.Fakes.Trace.{
  StoreCall, retrieve_instance, retrieve_binding, delete_instance, delete_binding, create_instance,
  instance_conflict, create_binding, binding_conflict, save, note, note_all, Begins, Performs,
  Saves, lift-Performs, raise-Performs, call-Performs, if-Performs, then-Performs,
  lift-then-Performs, deferring-Saves,
}

-- The share that a request decodes to, if it does.
abbrev decoded_share : Error ⊎ String → String
decoded_share (inl e) = ""
decoded_share (inr share) = share

-- All calls of a handler but its save, in their order.
abbrev pub script : Externals → Request → List StoreCall
script E (to_provision id details a) =
    let d = instance_of details (decoded_share (E.decode_share details.raw_parameters)) in
    instance_conflict id d ∷ create_instance id d ∷ []
script E (to_deprovision id a) = retrieve_instance id ∷ delete_instance id ∷ []
script E (to_bind salt instance_id id d) =
    retrieve_instance instance_id ∷ binding_conflict id d ∷ create_binding id d ∷ []
script E (to_unbind instance_id id) =
    retrieve_instance instance_id ∷ retrieve_binding id ∷ delete_binding id ∷ []

unless_false : {A : Type 0} (x : Bool) → (x ≡ true → A) → (x ≡ false) ⊎ A
unless_false true h = inr (h refl)
unless_false false h = inl refl

module _ (E : Externals) {W : Type 0} (b : Broker) where
  abbrev retrieves : String → Exec (Faked (FakeStore W) W) ServiceInstance
  retrieves id = replacing instance_does_not_exist (fake_store.retrieve_instance_details id)

  provision_locked-Performs :
      (id : String) (d : ServiceInstance)
      → Performs {W = W}
          (instance_conflict id d ∷ create_instance id d ∷ [])
          (provision_locked E fake_store id d)
  unfolding provision_locked
  provision_locked-Performs id d =
      then-Performs _ _
        (λ conflict. if-Performs conflict _ _ _ (raise-Performs _ instance_already_exists) (
          then-Performs _ _ (λ u. lift-Performs _) (create_instance id d)
            (replacing (message ("failed to store instance details " <> id))
              (fake_store.create_instance_details id d))
            (λ s. refl)))
        (instance_conflict id d) (fake_store.is_instance_conflict id d) (λ s. refl)

  deprovision-Saves :
      (id : String) (a : Bool)
      → Saves {W = W}
          (retrieve_instance id ∷ delete_instance id ∷ [])
          (deprovision E fake_store id a)
  unfolding deprovision
  deprovision-Saves id a =
      deferring-Saves _ fake_store.save _ (λ s. refl)
        (then-Performs _ _
          (λ d.
            then-Performs _ _ (λ u. lift-Performs _) (delete_instance id)
              (fake_store.delete_instance_details id) (λ s. refl))
          (retrieve_instance id) (retrieves id) (λ s. refl))

  unbind-Saves :
      (instance_id id : String)
      → Saves {W = W}
          (retrieve_instance instance_id ∷ retrieve_binding id ∷ delete_binding id ∷ [])
          (unbind E fake_store instance_id id)
  unfolding unbind
  unbind-Saves instance_id id =
      deferring-Saves _ fake_store.save _ (λ s. refl)
        (then-Performs _ _
          (λ i.
            then-Performs _ _
              (λ d.
                call-Performs (delete_binding id) (fake_store.delete_binding_details id)
                  (λ s. refl))
              (retrieve_binding id)
              (replacing binding_does_not_exist (fake_store.retrieve_binding_details id))
              (λ s. refl))
          (retrieve_instance instance_id) (retrieves instance_id) (λ s. refl))

  bind-Saves :
      (salt instance_id id : String) (d : BindDetails)
      → Saves {W = W}
          (retrieve_instance instance_id ∷ binding_conflict id d ∷ create_binding id d ∷ [])
          (bind E fake_store b salt instance_id id d)
  unfolding bind
  bind-Saves salt instance_id id d =
      deferring-Saves _ fake_store.save _ (λ s. refl)
        (then-Performs _ _
          (λ i. if-Performs (d.app_guid == "") _ _ _ (raise-Performs _ app_guid_not_provided) (
            lift-then-Performs _ _
              (λ mode.
                then-Performs _ _
                  (λ conflict.
                    if-Performs conflict _ _ _ (raise-Performs _ binding_already_exists) (
                      then-Performs _ _ (λ u. lift-Performs _) (create_binding id d)
                        (fake_store.create_binding_details salt id d) (λ s. refl)))
                  (binding_conflict id d) (fake_store.is_binding_conflict id d) (λ s. refl))
              (evaluate_mode (entries d.parameters))))
          (retrieve_instance instance_id) (retrieves instance_id) (λ s. refl))

  -- The fake has recorded these calls, and a save at the end; all of the script, if the answer is a
  -- success.
  pub record MakesCalls (q : Request) (s : Faked (FakeStore W) W) (made : List StoreCall)
      : Type 0 where
    pub begins : Begins made (script E q)
    pub recorded : (handle E fake_store b q s).fake ≡ note save (note_all made s.fake)
    pub whole : (is_success (answer E fake_store b q s) ≡ false) ⊎ (made ≡ script E q)

  abbrev pub Records : Request → Faked (FakeStore W) W → Type 0
  Records q s =
      ((a : Answer) × (refusal E q ≡ some a) × ((handle E fake_store b q s).fake ≡ s.fake))
      ⊎ ((made : List StoreCall) × MakesCalls q s made)

  provision-Records :
      (id : String) (details : ProvisionDetails) (a : Bool) (o : Error ⊎ String)
      → E.decode_share details.raw_parameters ≡ o
      → (s : Faked (FakeStore W) W) → Records (to_provision id details a) s
  unfolding provision
  provision-Records id details a (inl e) fails s = inl (
    provisioned (err raw_params_invalid),
    ap (refusal_of E) fails,
    ap (λ o. (provision_decoded E fake_store o id details s).1.fake) fails,
  )
  provision-Records id details a (inr share) decoded s =
      let at = ap (λ o. provision_decoded E fake_store o id details s) decoded in
      elim (Bool-cases (share == "")) [
        | inl empty ↦ inl (
          provisioned (err (message "config requires a \"share\" key")),
          ap (refusal_of E) decoded ∙ rw empty refl,
          ap (λ r. r.1.fake) at ∙ rw empty refl,
        )
        | inr given ↦
            let (made, begins, same, whole) =
              (deferring-Saves _ fake_store.save _ (λ s. refl)
                  (provision_locked-Performs id (instance_of details share))).saved
                s in
            inr (
              made,
              record {
                begins = rw decoded begins;
                recorded = ap (λ r. r.1.fake) at ∙ rw given same;
                whole = rw decoded (rw given (unless_false _ whole));
              },
            )
      ]

  -- A handler is refused before it calls the store, or makes the first calls of its script, with the
  -- arguments of the request, up to some point, and one save, whatever the store replies, panics
  -- included; if it answers a success, it made all calls of the script.
  pub handle-Records : (q : Request) (s : Faked (FakeStore W) W) → Records q s
  handle-Records (to_provision id details a) s =
      provision-Records id details a (E.decode_share details.raw_parameters) refl s
  handle-Records (to_deprovision id a) s =
      let (made, begins, same, whole) = (deprovision-Saves id a).saved s in
      inr (made, record { begins = begins; recorded = same; whole = unless_false _ whole })
  handle-Records (to_bind salt i id d) s =
      let (made, begins, same, whole) = (bind-Saves salt i id d).saved s in
      inr (made, record { begins = begins; recorded = same; whole = unless_false _ whole })
  handle-Records (to_unbind i id) s =
      let (made, begins, same, whole) = (unbind-Saves i id).saved s in
      inr (made, record { begins = begins; recorded = same; whole = unless_false _ whole })
