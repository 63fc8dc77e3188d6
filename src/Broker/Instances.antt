-- ===== src/Broker/Instances.antt =====
-- `Provision` and `Deprovision` over any lawful store.
use nfsbroker.Base.{
  String, ◌<>◌, ◌≡◌, ◌≢◌, ◌∙◌, refl, ap, Bool, false, none, some, ◌⊎◌, inl, inr, ◌==◌, Bool-cases,
  ==-eq, Sum-cases,
}
use nfsbroker.Api.{
  Error, raw_params_invalid, instance_already_exists, instance_does_not_exist, message, Outcome, ok,
  err, ServiceInstance,
}
use nfsbroker.Externals.{Externals}
use nfsbroker.Store.{Store}
use nfsbroker.Store.Laws.{
  View, IsLawful, Unchanged, InstanceSet, Unchanged-trans, InstanceSet-after, InstanceSet-before,
  settle-ok, settle-err,
}
use nfsbroker.Broker.Types.{ProvisionDetails, ProvisionedServiceSpec, DeprovisionServiceSpec}
use nfsbroker.Broker.{instance_of, provision_locked, provision, deprovision}

module _ (E : Externals) {S : Type 0} (st : Store S) (V : View S) (L : IsLawful V E st) where
  -- How the locked part of `Provision` ends.
  provision_locked-cases :
      (id : String) (d : ServiceInstance) (s : S)
      → ((t : S) × (provision_locked E st id d s ≡ (ok (record { is_async = false }), t))
          × InstanceSet V id (some d) s t
          × ((V.instances s id ≡ none) ⊎ (V.instances s id ≡ some d)))
        ⊎ ((t : S) × (provision_locked E st id d s ≡ (err instance_already_exists, t))
            × Unchanged V s t
            × (d' : ServiceInstance) × (V.instances s id ≡ some d')
            × (d' ≢ d))
        ⊎ ((t : S) × (provision_locked E st id d s
              ≡ (err (message ("failed to store instance details " <> id)), t))
            × Unchanged V s t
            × (e : Error) × ((st.create_instance_details id d (st.is_instance_conflict id d s).1).0
                ≡ err e))
  unfolding provision_locked
  provision_locked-cases id d s =
      let (b, checked, same, differs) = L.instance_conflict id d s in
      let s' = (st.is_instance_conflict id d s).1 in
      elim (Bool-cases b) [
        | inl conflict ↦
            let (d', found, other) = differs conflict in
            inr (inl (s', rw (checked, conflict), same, d', found, other))
        | inr fresh ↦ elim (L.create_instance id d s') [
          | inl (created, set) ↦ inl (
            (st.create_instance_details id d s').1,
            rw (checked, fresh) (rw created),
            InstanceSet-after V same set,
            L.instance_fresh id d s (checked ∙ ap ok fresh) created,
          )
          | inr (e, fails, kept) ↦ inr (
              inr (
                (st.create_instance_details id d s').1,
                rw (checked, fresh) (rw fails),
                Unchanged-trans V same kept,
                e,
                fails,
              ))
        ]
      ]

  -- How `Provision` ends, on each of its paths: its result and the state that it leaves.
  pub data ProvisionEnds (id : String) (details : ProvisionDetails) (s : S)
      (r : Outcome ProvisionedServiceSpec × S) : Type 0 where
    undecodable :
        (e : Error)
        → E.decode_share details.raw_parameters ≡ inl e
        → r ≡ (err raw_params_invalid, s)
        → ProvisionEnds id details s r
    no_share :
        E.decode_share details.raw_parameters ≡ inr ""
        → r ≡ (err (message "config requires a \"share\" key"), s)
        → ProvisionEnds id details s r
    provisioned :
        (share : String)
        → E.decode_share details.raw_parameters ≡ inr share
        → (share == "") ≡ false
        → (V.instances s id ≡ none) ⊎ (V.instances s id ≡ some (instance_of details share))
        → InstanceSet V id (some (instance_of details share)) s r.1
        → (r.0 ≡ ok (record { is_async = false }))
          ⊎ ((e : Error) × (t : S) × (r.1 ≡ (st.save t).1)
              × ((st.save t).0 ≡ err e)
              × (r.0 ≡ err e))
        → ProvisionEnds id details s r
    conflicting :
        (share : String)
        → E.decode_share details.raw_parameters ≡ inr share
        → (d : ServiceInstance) → V.instances s id ≡ some d
        → d ≢ instance_of details share
        → Unchanged V s r.1
        → r.0 ≡ err instance_already_exists
        → ProvisionEnds id details s r
    not_created :
        (share : String)
        → E.decode_share details.raw_parameters ≡ inr share
        → (share == "") ≡ false
        → (e : Error)
        → (st.create_instance_details id
            (instance_of details share)
            (st.is_instance_conflict id (instance_of details share) s).1).0
          ≡ err e
        → Unchanged V s r.1
        → r.0 ≡ err (message ("failed to store instance details " <> id))
        → ProvisionEnds id details s r

  -- Every run of `Provision` over a lawful store ends in one of these ways. Raw parameters that do
  -- not decode, or have no share, are refused with the state untouched. An instance with other
  -- details under the identifier is a conflict, and stays. A store that fails to create is
  -- reported, and nothing changes. Otherwise the identifier had no instance or the same one, it then has the instance of
  -- the request, nothing else changes, and the result is a synchronous success or the error of the
  -- save.
  pub provision-ends :
      (id : String) (details : ProvisionDetails) (async_allowed : Bool) (s : S)
      → ProvisionEnds id details s (provision E st id details async_allowed s)
  unfolding provision
  provision-ends id details async_allowed s =
      elim (Sum-cases (E.decode_share details.raw_parameters)) [
        | inl (e, bad) ↦ undecodable e bad (rw bad)
        | inr (share, decoded) ↦ elim (Bool-cases (share == "")) [
          | inl empty ↦ no_share (decoded ∙ ap inr (==-eq share "" empty)) (rw (decoded, empty))
          | inr given ↦ elim (provision_locked-cases id (instance_of details share) s) [
            | inl (t, run, set, fresh) ↦
                provisioned share decoded given fresh
                  (rw (decoded, given, run) (InstanceSet-before V set (L.save_keeps t)))
                  (elim (settle-ok V L {A = ProvisionedServiceSpec} (record { is_async = false })
                    t) [
                      | inl saved ↦ inl (rw (decoded, given, run) saved)
                      | inr (e, failed, ends) ↦ inr (
                        e,
                        t,
                        rw (decoded, given, run) refl,
                        failed,
                        rw (decoded, given, run) ends,
                      )
                    ])
            | inr (inl (t, run, kept, d, found, other)) ↦
                conflicting share decoded d found other
                  (rw (decoded, given, run) (Unchanged-trans V kept (L.save_keeps t)))
                  (rw (decoded, given, run) (settle-err V L _ t))
            | inr (inr (t, run, kept, e, fails)) ↦
                not_created share decoded given e fails
                  (rw (decoded, given, run) (Unchanged-trans V kept (L.save_keeps t)))
                  (rw (decoded, given, run) (settle-err V L _ t))
          ]
        ]
      ]

  -- How `Deprovision` ends.
  pub data DeprovisionEnds (id : String) (s : S) (r : Outcome DeprovisionServiceSpec × S)
      : Type 0 where
    missing :
        (e : Error)
        → (st.retrieve_instance_details id s).0 ≡ err e
        → Unchanged V s r.1
        → r.0 ≡ err instance_does_not_exist
        → DeprovisionEnds id s r
    deleted :
        (d : ServiceInstance)
        → V.instances s id ≡ some d
        → InstanceSet V id none s r.1
        → (r.0 ≡ ok (record { is_async = false; operation_data = "deprovision" }))
          ⊎ ((e : Error) × (t : S) × (r.1 ≡ (st.save t).1)
              × ((st.save t).0 ≡ err e)
              × (r.0 ≡ err e))
        → DeprovisionEnds id s r
    not_deleted :
        (d : ServiceInstance)
        → V.instances s id ≡ some d
        → (e : Error)
        → (st.delete_instance_details id (st.retrieve_instance_details id s).1).0 ≡ err e
        → Unchanged V s r.1
        → r.0 ≡ err e
        → DeprovisionEnds id s r

  -- Every run of `Deprovision` over a lawful store ends in one of these ways: the instance cannot be
  -- retrieved, which is reported as missing; or it is there, and afterwards it is gone and nothing
  -- else changed, with a success or the error of the save; or the store refuses to delete it, whose
  -- error is the result, and nothing changed.
  pub deprovision-ends :
      (id : String) (async_allowed : Bool) (s : S)
      → DeprovisionEnds id s (deprovision E st id async_allowed s)
  unfolding deprovision
  deprovision-ends id async_allowed s = elim (L.retrieve_instance id s) [
    | inl (d, read, found, same) ↦
        let s' = (st.retrieve_instance_details id s).1 in
        let t = (st.delete_instance_details id s').1 in
        elim (L.delete_instance id s') [
          | inl (done, set) ↦
              deleted d found
                (rw read
                  (rw done (InstanceSet-after V same (InstanceSet-before V set (L.save_keeps t)))))
                (elim (settle-ok V L {A = DeprovisionServiceSpec}
                  (record { is_async = false; operation_data = "deprovision" }) t) [
                    | inl saved ↦ inl (rw read (rw done saved))
                    | inr (e, failed, ends) ↦
                        inr (e, t, rw read (rw done refl), failed, rw read (rw done ends))
                  ])
          | inr (e, fails, kept) ↦
              not_deleted d found e fails
                (rw read
                  (rw fails (Unchanged-trans V same (Unchanged-trans V kept (L.save_keeps t)))))
                (rw read (rw fails (settle-err V L e t)))
        ]
    | inr (e, fails, same) ↦
        let s' = (st.retrieve_instance_details id s).1 in
        missing e fails (rw fails (Unchanged-trans V same (L.save_keeps s')))
          (rw fails (settle-err V L instance_does_not_exist s'))
  ]
