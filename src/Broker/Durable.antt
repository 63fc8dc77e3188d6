-- ===== src/Broker/Durable.antt =====
-- Where a handler of nfsbroker/nfsbroker.go writes: its deferred `Save` is the last call that it makes.
pub mod Crash
pub mod Disk
use nfsbroker.Base.{
  none, String, ◌≡◌, refl, Bool, ◌⊎◌, inl, inr, ◌==◌, Bool-cases, arith, true, false,
}
use nfsbroker.Api.{Error, Outcome, ServiceInstance, BindDetails, ok, err, panic}
use nfsbroker.Exec.{Exec, settle}
use nfsbroker.Externals.{Externals}
use nfsbroker.Store.{Store}
use nfsbroker.Broker.Types.{Broker, ProvisionDetails}
use nfsbroker.Broker.{instance_of}
use nfsbroker.Broker.Volume.{entries, evaluate_mode}
use nfsbroker.Broker.Requests.{Request, to_provision, to_deprovision, to_bind, to_unbind}
use nfsbroker.Broker.Programs.{
  Program, done, step, chain, deferred, provision_program, deprovision_program, bind_program,
  unbind_program,
}
use nfsbroker.Broker.Server.{
  Answer, provisioned, deprovisioned, bound, unbound, refusal, refusal_of, program, provisioning,
}
use nfsbroker.Broker.Between.{
  Keeps, ends, calls, IsKept, if-Keeps, by_outcome-Keeps, then-Keeps, atomic-Keeps,
}

-- Each call that is left keeps a property of the state, but the last one.
pub data Saving {S A : Type 0} (P : S → Type 0) : Program S A → Type 0 where
  saves : (next : S → S) (answer : S → A) → Saving P (step next (λ s. done (answer s)))
  before :
      (next : S → S) (rest : S → Program S A)
      → ((s : S) → P s → P (next s))
      → ((s : S) → Saving P (rest s))
      → Saving P (step next rest)

module _ {S A B : Type 0} {P : S → Type 0} where
  chain-Saving :
      {p : Program S A} {f : A → Program S B}
      → Keeps P p
      → ((a : A) → Saving P (f a))
      → Saving P (chain p f)
  unfolding chain
  chain-Saving (ends a) h = h a
  chain-Saving (calls next rest k w) h = before next _ k (λ s. chain-Saving (w s) h)

  answered-Saving :
      {p : Program S A} (f : A → B) → Saving P p → Saving P (chain p (λ a. done (f a)))
  unfolding chain
  answered-Saving f (saves next answer) = saves next (λ s. f (answer s))
  answered-Saving f (before next rest k w) = before next _ k (λ s. answered-Saving f (w s))

deferred-Saving :
    {S A : Type 0} {P : S → Type 0} (save : Exec S (Unit {0})) {body : Program S (Outcome A)}
    → Keeps P body
    → Saving P (deferred save body)
unfolding chain
deferred-Saving save w = chain-Saving w (λ o. saves (λ s. (save s).1) (λ s. settle o (save s).0))

-- The calls of a store between a handler's lock and its save.
pub record KeepsCalls {S : Type 0} (P : S → Type 0) (st : Store S) : Type 0 where
  pub retrieve_instance : (id : String) → IsKept P (st.retrieve_instance_details id)
  pub retrieve_binding : (id : String) → IsKept P (st.retrieve_binding_details id)
  pub instance_conflict :
      (id : String) (d : ServiceInstance) → IsKept P (st.is_instance_conflict id d)
  pub binding_conflict : (id : String) (d : BindDetails) → IsKept P (st.is_binding_conflict id d)
  pub create_instance :
      (id : String) (d : ServiceInstance) → IsKept P (st.create_instance_details id d)
  pub create_binding :
      (salt id : String) (d : BindDetails) → IsKept P (st.create_binding_details salt id d)
  pub delete_instance : (id : String) → IsKept P (st.delete_instance_details id)
  pub delete_binding : (id : String) → IsKept P (st.delete_binding_details id)

module _ (E : Externals) {S : Type 0} (st : Store S) {P : S → Type 0} (K : KeepsCalls P st)
    (b : Broker) where
  provision-Saving : (id : String) (d : ServiceInstance) → Saving P (provision_program E st id d)
  unfolding provision_program
  provision-Saving id d = deferred-Saving st.save (
      then-Keeps _ (K.instance_conflict id d) λ conflict.
        if-Keeps conflict (ends _) (then-Keeps _ (K.create_instance id d) (λ u. ends _)))

  deprovision-Saving : (id : String) → Saving P (deprovision_program E st id)
  unfolding deprovision_program
  deprovision-Saving id =
      deferred-Saving st.save (
        then-Keeps _ (K.retrieve_instance id)
          λ d. then-Keeps _ (K.delete_instance id) (λ u. ends _))

  unbind-Saving :
      (instance_id binding_id : String) → Saving P (unbind_program E st instance_id binding_id)
  unfolding unbind_program
  unbind-Saving instance_id binding_id = deferred-Saving st.save (
      then-Keeps _ (K.retrieve_instance instance_id) λ i.
        then-Keeps _ (K.retrieve_binding binding_id)
          (λ d. atomic-Keeps (K.delete_binding binding_id)))

  bind-Saving :
      (salt instance_id binding_id : String) (d : BindDetails)
      → Saving P (bind_program E st b salt instance_id binding_id d)
  unfolding bind_program chain
  bind-Saving salt instance_id binding_id d = deferred-Saving st.save (
      then-Keeps _ (K.retrieve_instance instance_id) λ i. if-Keeps (d.app_guid == "") (ends _) (
        by_outcome-Keeps
          (λ mode. then-Keeps _ (K.binding_conflict binding_id d) λ conflict.
            if-Keeps conflict (ends _)
              (then-Keeps _ (K.create_binding salt binding_id d) (λ u. ends _)))
          (evaluate_mode (entries d.parameters))))

  provisioning-Saving :
      (o : Error ⊎ String) (id : String) (details : ProvisionDetails)
      → refusal_of E o ≡ none
      → Saving P (provisioning E st b o id details)
  provisioning-Saving (inl e) id details taken = absurd (cc)
  provisioning-Saving (inr share) id details taken =
      answered-Saving provisioned (provision-Saving id (instance_of details share))

  -- Only the last call of a handler that has taken the mutex, which is `Save`, may change what the
  -- others keep.
  pub program-Saving : (q : Request) → refusal E q ≡ none → Saving P (program E st b q)
  program-Saving (to_provision id details a) taken =
      provisioning-Saving (E.decode_share details.raw_parameters) id details taken
  program-Saving (to_deprovision id a) taken = answered-Saving deprovisioned (deprovision-Saving id)
  program-Saving (to_bind salt i id d) taken = answered-Saving bound (bind-Saving salt i id d)
  program-Saving (to_unbind i id) taken = answered-Saving unbound (unbind-Saving i id)
