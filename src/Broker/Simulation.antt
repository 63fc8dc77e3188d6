-- ===== src/Broker/Simulation.antt =====
-- The handlers of nfsbroker/nfsbroker.go over two stores of which one does what the other does.
pub mod Sequences
use nfsbroker.Base.{String, ◌≡◌, refl, ap, Bool, true, false, ◌⊎◌, inl, inr, ◌==◌, if◌then◌else◌}
use nfsbroker.Api.{Error, Outcome, ok, err, panic, ServiceInstance, BindDetails}
use nfsbroker.Exec.{Exec, continue, with_error, settle, replacing, deferring, lift, ◌>>=◌, ◌>>◌}
use nfsbroker.Externals.{Externals}
use nfsbroker.Store.{Store}
use nfsbroker.Broker.Types.{Broker, ProvisionDetails}
use nfsbroker.Broker.{
  instance_of, provision, provision_locked, provision_decoded, deprovision, bind, unbind,
}
use nfsbroker.Broker.Volume.{entries, evaluate_mode, make_binding}

-- Two calls on related states give the same outcome and leave related states.
abbrev pub Follows : {S T A : Type 0} → (S → T → Type 0) → Exec S A → Exec T A → Type 0
Follows {S} {T} R m n = (s : S) (t : T) → R s t → ((m s).0 ≡ (n t).0) × R (m s).1 (n t).1

module _ {S T A B : Type 0} {R : S → T → Type 0} where
  continue-Follows :
      (f : A → Exec S B) (g : A → Exec T B)
      → ((a : A) → Follows R (f a) (g a))
      → (o : Outcome A) → Follows R (continue o f) (continue o g)
  continue-Follows f g h (ok a) s t r = h a s t r
  continue-Follows f g h (err e) s t r = (refl, r)
  continue-Follows f g h panic s t r = (refl, r)

  then-Follows :
      (m : Exec S A) (n : Exec T A) (f : A → Exec S B) (g : A → Exec T B)
      → Follows R m n
      → ((a : A) → Follows R (f a) (g a))
      → Follows R (m >>= f) (n >>= g)
  then-Follows m n f g h k s t r =
      let (same, after) = h s t r in rw same (continue-Follows f g k (n t).0 (m s).1 (n t).1 after)

lift-Follows : {S T A : Type 0} (R : S → T → Type 0) (o : Outcome A) → Follows R (lift o) (lift o)
lift-Follows R o s t r = (refl, r)

module _ {S T A : Type 0} {R : S → T → Type 0} where
  if-Follows :
      (b : Bool) (m m' : Exec S A) (n n' : Exec T A)
      → Follows R m n
      → Follows R m' n'
      → Follows R (if b then m else m') (if b then n else n')
  if-Follows true m m' n n' h h' = h
  if-Follows false m m' n n' h h' = h'

  replacing-Follows :
      (e : Error) (m : Exec S A) (n : Exec T A)
      → Follows R m n
      → Follows R (replacing e m) (replacing e n)
  replacing-Follows e m n h s t r = let (same, after) = h s t r in (ap (with_error e) same, after)

  deferring-Follows :
      (save : Exec S (Unit {0})) (save' : Exec T (Unit {0})) (m : Exec S A) (n : Exec T A)
      → Follows R save save'
      → Follows R m n
      → Follows R (deferring save m) (deferring save' n)
  deferring-Follows save save' m n k h s t r =
      let (same, after) = h s t r in
      let (same', after') = k (m s).1 (n t).1 after in (rw (same, same') refl, after')

-- Each call that a handler makes of one store follows the call of the other. A binding is created
-- with one salt.
pub record Simulates {S T : Type 0} (R : S → T → Type 0) (salt : String) (st : Store S)
    (st' : Store T) : Type 0 where
  pub retrieve_instance :
      (id : String) → Follows R (st.retrieve_instance_details id) (st'.retrieve_instance_details id)
  pub retrieve_binding :
      (id : String) → Follows R (st.retrieve_binding_details id) (st'.retrieve_binding_details id)
  pub create_instance :
      (id : String) (d : ServiceInstance)
      → Follows R (st.create_instance_details id d) (st'.create_instance_details id d)
  pub create_binding :
      (id : String) (d : BindDetails)
      → Follows R (st.create_binding_details salt id d) (st'.create_binding_details salt id d)
  pub delete_instance :
      (id : String) → Follows R (st.delete_instance_details id) (st'.delete_instance_details id)
  pub delete_binding :
      (id : String) → Follows R (st.delete_binding_details id) (st'.delete_binding_details id)
  pub instance_conflict :
      (id : String) (d : ServiceInstance)
      → Follows R (st.is_instance_conflict id d) (st'.is_instance_conflict id d)
  pub binding_conflict :
      (id : String) (d : BindDetails)
      → Follows R (st.is_binding_conflict id d) (st'.is_binding_conflict id d)
  pub save : Follows R st.save st'.save

module _ (E : Externals) {S T : Type 0} {R : S → T → Type 0} {salt : String} (st : Store S)
    (st' : Store T) (M : Simulates R salt st st') where
  provision_locked-Follows :
      (id : String) (d : ServiceInstance)
      → Follows R (provision_locked E st id d) (provision_locked E st' id d)
  unfolding provision_locked
  provision_locked-Follows id d = then-Follows _ _ _ _ (M.instance_conflict id d) λ conflict.
      if-Follows conflict _ _ _ _ (lift-Follows R _) (
        then-Follows _ _ _ _ (replacing-Follows _ _ _ (M.create_instance id d))
          (λ u. lift-Follows R _))

  provision_decoded-Follows :
      (o : Error ⊎ String) (id : String) (details : ProvisionDetails)
      → Follows R (provision_decoded E st o id details) (provision_decoded E st' o id details)
  provision_decoded-Follows (inl e) id details s t r = (refl, r)
  provision_decoded-Follows (inr share) id details s t r =
      if-Follows (share == "") _ _ _ _ (lift-Follows R _)
        (deferring-Follows _ _ _ _ M.save (provision_locked-Follows id (instance_of details share)))
        s t r

  pub provision-Follows :
      (id : String) (details : ProvisionDetails) (a : Bool)
      → Follows R (provision E st id details a) (provision E st' id details a)
  unfolding provision
  provision-Follows id details a =
      provision_decoded-Follows (E.decode_share details.raw_parameters) id details

  pub deprovision-Follows :
      (id : String) (a : Bool) → Follows R (deprovision E st id a) (deprovision E st' id a)
  unfolding deprovision
  deprovision-Follows id a = deferring-Follows _ _ _ _ M.save (
      then-Follows _ _ _ _ (replacing-Follows _ _ _ (M.retrieve_instance id))
        λ d. then-Follows _ _ _ _ (M.delete_instance id) (λ u. lift-Follows R _))

  pub bind-Follows :
      (b : Broker) (instance_id binding_id : String) (d : BindDetails)
      → Follows R
          (bind E st b salt instance_id binding_id d)
          (bind E st' b salt instance_id binding_id d)
  unfolding bind
  bind-Follows b instance_id binding_id d = deferring-Follows _ _ _ _ M.save (
      then-Follows _ _ _ _ (replacing-Follows _ _ _ (M.retrieve_instance instance_id)) λ i.
        if-Follows (d.app_guid == "") _ _ _ _ (lift-Follows R _) (
          then-Follows _ _ _ _ (lift-Follows R (evaluate_mode (entries d.parameters))) λ mode.
            then-Follows _ _ _ _ (M.binding_conflict binding_id d) λ conflict.
              if-Follows conflict _ _ _ _ (lift-Follows R _)
                (then-Follows _ _ _ _ (M.create_binding binding_id d) (λ u. lift-Follows R _))))

  pub unbind-Follows :
      (instance_id binding_id : String)
      → Follows R (unbind E st instance_id binding_id) (unbind E st' instance_id binding_id)
  unfolding unbind
  unbind-Follows instance_id binding_id = deferring-Follows _ _ _ _ M.save (
      then-Follows _ _ _ _ (replacing-Follows _ _ _ (M.retrieve_instance instance_id)) λ i.
        then-Follows _ _ _ _ (replacing-Follows _ _ _ (M.retrieve_binding binding_id))
          λ d. M.delete_binding binding_id)
