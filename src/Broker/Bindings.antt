-- ===== src/Broker/Bindings.antt =====
-- `Bind` over any lawful store.
use nfsbroker.Base.{String, ◌≡◌, ◌∙◌, sym, true, none, some, ◌⊎◌, inl, inr, ◌==◌, ==-eq, Bool-cases}
use nfsbroker.Api.{
  Error, instance_does_not_exist, app_guid_not_provided, binding_already_exists, Outcome, ok, err,
  panic, ServiceInstance, BindDetails, params_from_json,
}
use nfsbroker.Exec.{settle}
use nfsbroker.Externals.{Externals}
use nfsbroker.Store.{Store, redact_binding_details, conflicts_with}
use nfsbroker.Store.Laws.{
  View, Conceals, IsLawful, Unchanged, BindingSet, Unchanged-trans, BindingSet-after,
  BindingSet-before, settle-err,
}
use nfsbroker.Broker.Types.{Broker, Binding}
use nfsbroker.Broker.Volume.{entries, evaluate_mode, make_binding}
use nfsbroker.Broker.{bind}
use nfsbroker.Broker.Check.{evaluate_mode-cases, Clear, check-cases, Clear-created}

module _ (E : Externals) {S : Type 0} (st : Store S) (V : View S) (L : IsLawful V E st) where
  -- Why `Bind` refuses a request, with its error.
  pub data Refusal (salt instance_id binding_id : String) (d : BindDetails) (s : S)
      : Error → Type 0 where
    no_instance :
        (e : Error)
        → (st.retrieve_instance_details instance_id s).0 ≡ err e
        → Refusal salt instance_id binding_id d s instance_does_not_exist
    no_app_guid : d.app_guid ≡ "" → Refusal salt instance_id binding_id d s app_guid_not_provided
    bad_mode :
        {e : Error}
        → evaluate_mode (entries d.parameters) ≡ err e
        → Refusal salt instance_id binding_id d s e
    conflict :
        (existing : BindDetails)
        → V.bindings s binding_id ≡ some existing
        → conflicts_with E existing d ≡ ok true
        → Refusal salt instance_id binding_id d s binding_already_exists
    not_created :
        (e : Error) (t : S)
        → (st.create_binding_details salt binding_id d t).0 ≡ err e
        → Refusal salt instance_id binding_id d s e

  -- How `Bind` ends.
  pub data BindEnds (b : Broker) (salt instance_id binding_id : String) (d : BindDetails) (s : S)
      (r : Outcome Binding × S) : Type 0 where
    refused :
        (e : Error)
        → Refusal salt instance_id binding_id d s e
        → Unchanged V s r.1
        → r.0 ≡ err e
        → BindEnds b salt instance_id binding_id d s r
    panicked :
        (existing : BindDetails)
        → V.bindings s binding_id ≡ some existing
        → conflicts_with E existing d ≡ panic
        → Unchanged V s r.1
        → r.0 ≡ panic
        → BindEnds b salt instance_id binding_id d s r
    created :
        (instance : ServiceInstance) (mode : String) (stored : BindDetails) (t : S)
        → V.instances s instance_id ≡ some instance
        → evaluate_mode (entries d.parameters) ≡ ok mode
        → Clear E st V L binding_id d s
        → Conceals E d stored
        → ((d' : BindDetails)
            → params_from_json d.parameters ≡ true
            → redact_binding_details E salt d ≡ inr d'
            → stored ≡ d')
        → ((redact_binding_details E salt d ≡ inr stored) ⊎ (V.bindings s binding_id ≡ none))
        → BindingSet V binding_id (some stored) s r.1
        → r.0
          ≡ settle (make_binding E b instance_id instance mode (entries d.parameters)) (st.save t).0
        → BindEnds b salt instance_id binding_id d s r

  -- Every run of `Bind` over a lawful store ends in one of these ways. It is refused: the instance
  -- cannot be retrieved, the request names no application, its `readonly` is no Boolean, a binding
  -- with other details has the identifier, or the store fails to create the binding; then nothing
  -- changes. It panics on a stored binding whose hash cannot be compared, and nothing changes. Or the
  -- binding is stored under its identifier, as its redaction if that succeeds, for a request whose
  -- parameters are decoded JSON, and in any case with no parameters or no key but `paramsHash`, under
  -- which is the hash that bcrypt makes of the request's parameters, unless these were a `paramsHash`
  -- already; a binding that was there is replaced only by a redaction, nothing else changes, and the
  -- result is that of making the mount from the stored instance, overruled by a failed save: an error
  -- in making the mount leaves the binding stored.
  pub bind-ends :
      (b : Broker) (salt instance_id binding_id : String) (d : BindDetails) (s : S)
      → BindEnds b salt instance_id binding_id d s (bind E st b salt instance_id binding_id d s)
  unfolding bind
  bind-ends b salt instance_id binding_id d s = elim (L.retrieve_instance instance_id s) [
    | inr (e, fails, same) ↦
        let t = (st.retrieve_instance_details instance_id s).1 in
        refused instance_does_not_exist (no_instance e fails)
          (rw fails (Unchanged-trans V same (L.save_keeps t)))
          (rw fails (settle-err V L instance_does_not_exist t))
    | inl (instance, read, found, same) ↦
        let t = (st.retrieve_instance_details instance_id s).1 in
        elim (Bool-cases (d.app_guid == "")) [
          | inl empty ↦
              refused app_guid_not_provided (no_app_guid (==-eq d.app_guid "" empty))
                (rw read (rw empty (Unchanged-trans V same (L.save_keeps t))))
                (rw read (rw empty (settle-err V L app_guid_not_provided t)))
          | inr named ↦ elim (evaluate_mode-cases (entries d.parameters)) [
            | inr (e, bad) ↦
                refused e (bad_mode bad)
                  (rw read (rw (named, bad) (Unchanged-trans V same (L.save_keeps t))))
                  (rw read (rw (named, bad) (settle-err V L e t)))
            | inl (mode, mode_read) ↦ elim (check-cases E st V L binding_id d t) [
              | inl (t', check, same', clear) ↦
                  let t'' = (st.create_binding_details salt binding_id d t').1 in
                  let before = Unchanged-trans V same same' in
                  elim (L.create_binding salt binding_id d t') [
                    | inl (stored, done, hidden, redacted, replaces, set) ↦
                        created instance mode stored t'' found mode_read
                          (Clear-created E st V L d same clear done) hidden redacted
                          (elim replaces [
                            | inl e ↦ inl e
                            | inr absent ↦ inr (sym (before.bindings binding_id) ∙ absent)
                          ])
                          (rw read (
                            rw (named, mode_read)
                              (rw check (
                                rw done (
                                  BindingSet-after V before
                                    (BindingSet-before V set (L.save_keeps t'')))))))
                          (rw read (rw (named, mode_read) (rw check (rw done))))
                    | inr (e, fails, kept) ↦
                        refused e (not_created e t' fails)
                          (rw read (
                            rw (named, mode_read)
                              (rw check (
                                rw fails (
                                  Unchanged-trans V before
                                    (Unchanged-trans V kept (L.save_keeps t'')))))))
                          (rw read
                            (rw (named, mode_read) (rw check (rw fails (settle-err V L e t'')))))
                  ]
              | inr (inl (t', check, same', existing, held, conflicts)) ↦
                  refused binding_already_exists
                    (conflict existing (sym (same.bindings binding_id) ∙ held) conflicts)
                    (rw read (
                      rw (named, mode_read)
                        (rw check
                          (Unchanged-trans V same (Unchanged-trans V same' (L.save_keeps t'))))))
                    (rw read
                      (rw (named, mode_read) (rw check (settle-err V L binding_already_exists t'))))
              | inr (inr (t', check, same', existing, held, panics)) ↦
                  panicked existing (sym (same.bindings binding_id) ∙ held) panics
                    (rw read (
                      rw (named, mode_read)
                        (rw check
                          (Unchanged-trans V same (Unchanged-trans V same' (L.save_keeps t'))))))
                    (rw read (rw (named, mode_read) (rw check)))
            ]
          ]
        ]
  ]
