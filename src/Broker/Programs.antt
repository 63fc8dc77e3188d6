-- ===== src/Broker/Programs.antt =====
-- The handlers of nfsbroker/nfsbroker.go call by call: between two calls of the store, another
-- goroutine may run.
use nfsbroker.Base.{String, ◌<>◌, ◌≡◌, refl, Bool, false, ◌==◌, if◌then◌else◌}
use nfsbroker.Api.{
  instance_already_exists, instance_does_not_exist, app_guid_not_provided, binding_already_exists,
  binding_does_not_exist, message, Outcome, ok, err, panic, ServiceInstance, BindDetails,
}
use nfsbroker.Exec.{Exec, replacing, deferring, settle}
use nfsbroker.Base.{arith}
use nfsbroker.Externals.{Externals}
use nfsbroker.Store.{Store}
use nfsbroker.Broker.Types.{Broker, ProvisionedServiceSpec, DeprovisionServiceSpec, Binding}
use nfsbroker.Broker.Volume.{entries, evaluate_mode, make_binding}
use nfsbroker.Broker.{provision_locked, deprovision, bind, unbind}

-- What is left of a call: its result, or one atomic call that changes the state, and what follows,
-- which depends on the state before it.
pub data Program (S A : Type 0) : Type 0 where
  done : A → Program S A
  step : (S → S) → (S → Program S A) → Program S A

-- All of it, without an interruption.
unfoldable pub run : {S A : Type 0} → Program S A → S → A × S
run (done a) s = (a, s)
run (step next rest) s = run (rest s) (next s)

abbrev pub atomic : {S A : Type 0} → (S → A × S) → Program S A
atomic m = step (λ s. (m s).1) (λ s. done (m s).0)

unfoldable pub chain : {S A B : Type 0} → Program S A → (A → Program S B) → Program S B
chain (done a) f = f a
chain (step next rest) f = step next (λ s. chain (rest s) f)

pub run-chain :
    {S A B : Type 0} (p : Program S A) (f : A → Program S B) (s : S)
    → run (chain p f) s ≡ (let (a, s') = run p s in run (f a) s')
unfolding run chain
run-chain (done a) f s = refl
run-chain (step next rest) f s = run-chain (rest s) f (next s)

abbrev pub by_outcome :
    {S A B : Type 0} → (A → Program S (Outcome B)) → Outcome A → Program S (Outcome B)
by_outcome f (ok a) = f a
by_outcome f (err e) = done (err e)
by_outcome f panic = done panic

infixl 5 ◌>>=◌ ◌>>◌
-- A call, and what follows if it returns a value.
abbrev pub ◌>>=◌ :
    {S A B : Type 0} → Program S (Outcome A) → (A → Program S (Outcome B)) → Program S (Outcome B)
p >>= f = chain p (by_outcome f)

abbrev pub ◌>>◌ :
    {S A B : Type 0} → Program S (Outcome A) → Program S (Outcome B) → Program S (Outcome B)
p >> q = p >>= λ _. q

-- The body, and the deferred save.
abbrev pub deferred :
    {S A : Type 0} → Exec S (Unit {0}) → Program S (Outcome A) → Program S (Outcome A)
deferred save body = chain body (λ o. chain (atomic save) (λ o'. done (settle o o')))

module _ (E : Externals) {S : Type 0} (st : Store S) where
  -- `Provision`, from the lock on
  unfoldable pub provision_program :
      String → ServiceInstance → Program S (Outcome ProvisionedServiceSpec)
  provision_program id d = deferred st.save do
    conflict ← atomic (st.is_instance_conflict id d)
    if conflict then done (err instance_already_exists) else do
      atomic (
          replacing (message ("failed to store instance details " <> id))
            (st.create_instance_details id d))
      done (ok (record { is_async = false }))

  -- `Deprovision`
  unfoldable pub deprovision_program : String → Program S (Outcome DeprovisionServiceSpec)
  deprovision_program id = deferred st.save do
    atomic (replacing instance_does_not_exist (st.retrieve_instance_details id))
    atomic (st.delete_instance_details id)
    done (ok (record { is_async = false; operation_data = "deprovision" }))

  -- `Bind`
  unfoldable pub bind_program :
      Broker → String → String → String → BindDetails → Program S (Outcome Binding)
  bind_program b salt instance_id binding_id d = deferred st.save do
    instance_details ←
        atomic (replacing instance_does_not_exist (st.retrieve_instance_details instance_id))
    if d.app_guid == "" then done (err app_guid_not_provided) else do
      mode ← done (evaluate_mode (entries d.parameters))
      conflict ← atomic (st.is_binding_conflict binding_id d)
      if conflict then done (err binding_already_exists) else do
        atomic (st.create_binding_details salt binding_id d)
        done (make_binding E b instance_id instance_details mode (entries d.parameters))

  -- `Unbind`
  unfoldable pub unbind_program : String → String → Program S (Outcome (Unit {0}))
  unbind_program instance_id binding_id = deferred st.save do
    atomic (replacing instance_does_not_exist (st.retrieve_instance_details instance_id))
    atomic (replacing binding_does_not_exist (st.retrieve_binding_details binding_id))
    atomic (st.delete_binding_details binding_id)

  pub run-unbind_program :
      (instance_id binding_id : String) (s : S)
      → run (unbind_program instance_id binding_id) s ≡ unbind E st instance_id binding_id s
  unfolding unbind_program unbind run chain
  run-unbind_program instance_id binding_id s = ground arith

  pub run-bind_program :
      (b : Broker) (salt instance_id binding_id : String) (d : BindDetails) (s : S)
      → run (bind_program b salt instance_id binding_id d) s
        ≡ bind E st b salt instance_id binding_id d s
  unfolding bind_program bind run chain
  run-bind_program b salt instance_id binding_id d s = ground arith

  pub run-deprovision_program :
      (id : String) (a : Bool) (s : S) → run (deprovision_program id) s ≡ deprovision E st id a s
  unfolding deprovision_program deprovision run chain
  run-deprovision_program id a s = ground arith

  pub run-provision_program :
      (id : String) (d : ServiceInstance) (s : S)
      → run (provision_program id d) s ≡ deferring st.save (provision_locked E st id d) s
  unfolding provision_program provision_locked run chain
  run-provision_program id d s = ground arith
