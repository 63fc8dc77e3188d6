-- ===== src/Broker/Requests.antt =====
-- Sequences of requests: the handlers of nfsbroker/nfsbroker.go hold the broker's mutex, so the
-- requests that are served make up a sequence of whole handlers.
use nfsbroker.Base.{String, ◌≡◌, Bool, false, none, some, List, [], ◌∷◌, ◌⊎◌, inl, inr, ◌==◌}
use nfsbroker.Api.{ServiceInstance, BindDetails}
use nfsbroker.Externals.{Externals}
use nfsbroker.Store.{Store, redact_binding_details}
use nfsbroker.Store.Laws.{
  View, Conceals, IsLawful, Unchanged, Unchanged-refl, InstanceSet, BindingSet,
}
use nfsbroker.Broker.Types.{Broker, ProvisionDetails}
use nfsbroker.Broker.{instance_of, provision, deprovision, bind, unbind}
use nfsbroker.Broker.Instances.{
  ProvisionEnds, provision-ends, DeprovisionEnds, deprovision-ends, undecodable, no_share,
  provisioned, conflicting, not_created, missing, deleted, not_deleted,
}
use nfsbroker.Broker.Check.{Clear}
use nfsbroker.Broker.Bindings.{BindEnds, bind-ends, refused, panicked, created}
use nfsbroker.Broker.Unbinding.{
  UnbindEnds, unbind-ends, no_instance, no_binding, removed, not_removed,
}

-- A request that may change the store; the salt of a bind is the one that bcrypt draws for it.
pub data Request : Type 0 where
  to_provision : String → ProvisionDetails → Bool → Request
  to_deprovision : String → Bool → Request
  to_bind : String → String → String → BindDetails → Request
  to_unbind : String → String → Request

module _ (E : Externals) {S : Type 0} (st : Store S) (b : Broker) where
  -- The state after a request, whatever its answer.
  abbrev pub handle : Request → S → S
  handle (to_provision id details async_allowed) s = (provision E st id details async_allowed s).1
  handle (to_deprovision id async_allowed) s = (deprovision E st id async_allowed s).1
  handle (to_bind salt instance_id binding_id d) s = (bind E st b salt instance_id binding_id d s).1
  handle (to_unbind instance_id binding_id) s = (unbind E st instance_id binding_id s).1

  -- The states that requests can lead to.
  pub data Reaches (s : S) : List Request → S → Type 0 where
    start : Reaches s [] s
    after :
        {qs : List Request} {t : S}
        → (q : Request) → Reaches s qs t
        → Reaches s (q ∷ qs) (handle q t)

module _ (E : Externals) {S : Type 0} (st : Store S) (V : View S) (L : IsLawful V E st) where
  -- What a request may do to the two maps.
  abbrev pub Effect : Request → S → S → Type 0
  Effect (to_provision id details async_allowed) s t =
      Unchanged V s t
      ⊎ ((share : String) × ((share == "") ≡ false)
          × ((V.instances s id ≡ none) ⊎ (V.instances s id ≡ some (instance_of details share)))
          × InstanceSet V id (some (instance_of details share)) s t)
  Effect (to_deprovision id async_allowed) s t = Unchanged V s t ⊎ InstanceSet V id none s t
  Effect (to_bind salt instance_id binding_id d) s t =
      Unchanged V s t
      ⊎ ((stored : BindDetails) × Conceals E d stored
          × Clear E st V L binding_id d s
          × ((redact_binding_details E salt d ≡ inr stored) ⊎ (V.bindings s binding_id ≡ none))
          × ((instance : ServiceInstance) × (V.instances s instance_id ≡ some instance))
          × BindingSet V binding_id (some stored) s t)
  Effect (to_unbind instance_id binding_id) s t = Unchanged V s t ⊎ BindingSet V binding_id none s t

  provision-Effect :
      (id : String) (details : ProvisionDetails) (a : Bool) {s : S} {r : _}
      → ProvisionEnds E st V L id details s r
      → Effect (to_provision id details a) s r.1
  provision-Effect id details a {s} (undecodable e bad same) = inl (rw same (Unchanged-refl V s))
  provision-Effect id details a {s} (no_share empty same) = inl (rw same (Unchanged-refl V s))
  provision-Effect id details a (provisioned share decoded given fresh set ends) =
      inr (share, given, fresh, set)
  provision-Effect id details a (conflicting share decoded d found other kept ends) = inl kept
  provision-Effect id details a (not_created share decoded given e fails kept ends) = inl kept

  deprovision-Effect :
      (id : String) (a : Bool) {s : S} {r : _}
      → DeprovisionEnds E st V L id s r
      → Effect (to_deprovision id a) s r.1
  deprovision-Effect id a (missing e fails kept ends) = inl kept
  deprovision-Effect id a (deleted d found set ends) = inr set
  deprovision-Effect id a (not_deleted d found e fails kept ends) = inl kept

  bind-Effect :
      (b : Broker) (salt instance_id binding_id : String) (d : BindDetails) {s : S} {r : _}
      → BindEnds E st V L b salt instance_id binding_id d s r
      → Effect (to_bind salt instance_id binding_id d) s r.1
  bind-Effect b salt instance_id binding_id d (refused e why kept ends) = inl kept
  bind-Effect b salt instance_id binding_id d (panicked existing held panics kept ends) = inl kept
  bind-Effect b salt instance_id binding_id d
        (created instance mode stored t found read clear hidden redacted replaces set ends) =
      inr (stored, hidden, clear, replaces, (instance, found), set)

  unbind-Effect :
      (instance_id binding_id : String) {s : S} {r : _}
      → UnbindEnds E st V L instance_id binding_id s r
      → Effect (to_unbind instance_id binding_id) s r.1
  unbind-Effect instance_id binding_id (no_instance e fails kept ends) = inl kept
  unbind-Effect instance_id binding_id (no_binding e i found fails kept ends) = inl kept
  unbind-Effect instance_id binding_id (removed i d found held set ends) = inr set
  unbind-Effect instance_id binding_id (not_removed i d found held e fails kept ends) = inl kept

  pub handle-Effect : (b : Broker) (q : Request) (s : S) → Effect q s (handle E st b q s)
  handle-Effect b (to_provision id details a) s =
      provision-Effect id details a (provision-ends E st V L id details a s)
  handle-Effect b (to_deprovision id a) s =
      deprovision-Effect id a (deprovision-ends E st V L id a s)
  handle-Effect b (to_bind salt instance_id binding_id d) s =
      bind-Effect b salt instance_id binding_id d
        (bind-ends E st V L b salt instance_id binding_id d s)
  handle-Effect b (to_unbind instance_id binding_id) s =
      unbind-Effect instance_id binding_id (unbind-ends E st V L instance_id binding_id s)
