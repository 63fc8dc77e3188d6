-- ===== src/Broker/Unbinding.antt =====
-- `Unbind` over any lawful store.
use nfsbroker.Base.{String, ◌≡◌, ◌∙◌, refl, sym, none, some, ◌⊎◌, inl, inr}
use nfsbroker.Api.{
  Error, instance_does_not_exist, binding_does_not_exist, Outcome, ok, err, ServiceInstance,
  BindDetails,
}
use nfsbroker.Externals.{Externals}
use nfsbroker.Store.{Store}
use nfsbroker.Store.Laws.{
  View, IsLawful, Unchanged, BindingSet, Unchanged-trans, BindingSet-after, BindingSet-before,
  settle-ok, settle-err,
}
use nfsbroker.Broker.{unbind}

module _ (E : Externals) {S : Type 0} (st : Store S) (V : View S) (L : IsLawful V E st) where
  -- How `Unbind` ends.
  pub data UnbindEnds (instance_id binding_id : String) (s : S) (r : Outcome (Unit {0}) × S)
      : Type 0 where
    no_instance :
        (e : Error)
        → (st.retrieve_instance_details instance_id s).0 ≡ err e
        → Unchanged V s r.1
        → r.0 ≡ err instance_does_not_exist
        → UnbindEnds instance_id binding_id s r
    no_binding :
        (e : Error) (instance : ServiceInstance)
        → V.instances s instance_id ≡ some instance
        → (st.retrieve_binding_details binding_id (st.retrieve_instance_details instance_id s).1).0
          ≡ err e
        → Unchanged V s r.1
        → r.0 ≡ err binding_does_not_exist
        → UnbindEnds instance_id binding_id s r
    removed :
        (instance : ServiceInstance) (d : BindDetails)
        → V.instances s instance_id ≡ some instance
        → V.bindings s binding_id ≡ some d
        → BindingSet V binding_id none s r.1
        → (r.0 ≡ ok tt)
          ⊎ ((e : Error) × (t : S) × (r.1 ≡ (st.save t).1)
              × ((st.save t).0 ≡ err e)
              × (r.0 ≡ err e))
        → UnbindEnds instance_id binding_id s r
    not_removed :
        (instance : ServiceInstance) (d : BindDetails)
        → V.instances s instance_id ≡ some instance
        → V.bindings s binding_id ≡ some d
        → (e : Error)
        → (st.delete_binding_details binding_id
            (st.retrieve_binding_details binding_id
              (st.retrieve_instance_details instance_id s).1).1).0
          ≡ err e
        → Unchanged V s r.1
        → r.0 ≡ err e
        → UnbindEnds instance_id binding_id s r

  -- Every run of `Unbind` over a lawful store ends in one of these ways: the instance or the binding
  -- cannot be retrieved, or both are there and the store refuses to delete the binding, whose error
  -- is the result, and nothing changes; or both were there, the binding is gone, nothing else changed, and the result is a success or the error
  -- of the save. The binding need not be one of that instance.
  pub unbind-ends :
      (instance_id binding_id : String) (s : S)
      → UnbindEnds instance_id binding_id s (unbind E st instance_id binding_id s)
  unfolding unbind
  unbind-ends instance_id binding_id s = elim (L.retrieve_instance instance_id s) [
    | inr (e, fails, same) ↦
        let t = (st.retrieve_instance_details instance_id s).1 in
        no_instance e fails (rw fails (Unchanged-trans V same (L.save_keeps t)))
          (rw fails (settle-err V L instance_does_not_exist t))
    | inl (instance, read, found, same) ↦
        let t = (st.retrieve_instance_details instance_id s).1 in
        let t' = (st.retrieve_binding_details binding_id t).1 in
        elim (L.retrieve_binding binding_id t) [
          | inr (e, fails, same') ↦
              no_binding e instance found fails
                (rw read
                  (rw fails (Unchanged-trans V same (Unchanged-trans V same' (L.save_keeps t')))))
                (rw read (rw fails (settle-err V L binding_does_not_exist t')))
          | inl (d, read', held, same') ↦
              let t'' = (st.delete_binding_details binding_id t').1 in
              let before = Unchanged-trans V same same' in
              elim (L.delete_binding binding_id t') [
                | inl (done, set) ↦
                    removed instance d found (sym (same.bindings binding_id) ∙ held)
                      (rw read (
                        rw read'
                          (BindingSet-after V before (BindingSet-before V set (L.save_keeps t'')))))
                      (elim (settle-ok V L {A = Unit {0}} tt t'') [
                        | inl saved ↦ inl (rw read (rw read' (rw done saved)))
                        | inr (e, failed, ends) ↦ inr (
                          e,
                          t'',
                          rw read (rw read' refl),
                          failed,
                          rw read (rw read' (rw done ends)),
                        )
                      ])
                | inr (e, fails, kept) ↦
                    not_removed instance d found (sym (same.bindings binding_id) ∙ held) e fails
                      (rw read (
                        rw read'
                          (Unchanged-trans V before (Unchanged-trans V kept (L.save_keeps t'')))))
                      (rw read (rw read' (rw fails (settle-err V L e t''))))
              ]
        ]
  ]
