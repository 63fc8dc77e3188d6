-- ===== src/Broker/Calls.antt =====
-- How many calls of the store a handler of nfsbroker/nfsbroker.go makes while it holds the mutex.
use nfsbroker.Base.{
  String, ℕ, zero, suc, ◌+◌, ◌≤◌, Bool, true, false, ◌⊎◌, inl, inr, arith, ◌==◌, if◌then◌else◌,
}
use nfsbroker.Api.{Error, Outcome, ok, err, panic, ServiceInstance, BindDetails}
use nfsbroker.Exec.{Exec, settle}
use nfsbroker.Externals.{Externals}
use nfsbroker.Store.{Store}
use nfsbroker.Broker.Volume.{entries, evaluate_mode}
use nfsbroker.Broker.{instance_of}
use nfsbroker.Broker.Types.{Broker, ProvisionDetails}
use nfsbroker.Broker.Requests.{Request, to_provision, to_deprovision, to_bind, to_unbind}
use nfsbroker.Broker.Programs.{
  Program, done, step, chain, atomic, by_outcome, ◌>>=◌, deferred, provision_program,
  deprovision_program, bind_program, unbind_program,
}
use nfsbroker.Broker.Server.{
  Answer, provisioned, deprovisioned, bound, unbound, program, provisioning,
}

-- At most so many calls, whatever the states between them.
pub data Within {S A : Type 0} : ℕ → Program S A → Type 0 where
  ends : (n : ℕ) (a : A) → Within n (done a)
  calls :
      (n : ℕ) (next : S → S) (rest : S → Program S A)
      → ((s : S) → Within n (rest s))
      → Within (suc n) (step next rest)

module _ {S A : Type 0} where
  Within-le : {p : Program S A} {m : ℕ} → Within m p → (n : ℕ) → m ≤ n → Within n p
  Within-le (ends m a) n le = ends n a
  Within-le (calls m next rest w) zero le = absurd (omega arith)
  Within-le (calls m next rest w) (suc n) le =
      calls n next rest (λ s. Within-le (w s) n (omega arith))

  if-Within :
      {n : ℕ} (b : Bool) {p q : Program S A}
      → Within n p
      → Within n q
      → Within n (if b then p else q)
  if-Within true w w' = w
  if-Within false w w' = w'

module _ {S A B : Type 0} where
  chain-Within :
      {p : Program S A} {m n : ℕ} {f : A → Program S B}
      → Within m p
      → ((a : A) → Within n (f a))
      → Within (m + n) (chain p f)
  unfolding chain
  chain-Within {n} (ends m a) h = Within-le (h a) (m + n) (omega arith)
  chain-Within {n} {f} (calls m next rest w) h =
      let more : Within (suc (m + n)) (step next (λ s. chain (rest s) f)) =
        calls (m + n) next _ (λ s. chain-Within (w s) h) in
      Within-le more (suc m + n) (omega arith)

  by_outcome-Within :
      {n : ℕ} {f : A → Program S (Outcome B)}
      → ((a : A) → Within n (f a))
      → (o : Outcome A) → Within n (by_outcome f o)
  by_outcome-Within h (ok a) = h a
  by_outcome-Within {n} h (err e) = ends n (err e)
  by_outcome-Within {n} h panic = ends n panic

  then-Within :
      {n : ℕ} (m : Exec S A) {f : A → Program S (Outcome B)}
      → ((a : A) → Within n (f a))
      → Within (suc n) (atomic m >>= f)
  unfolding chain
  then-Within {n} m h = calls n _ _ (λ s. by_outcome-Within h (m s).0)

atomic-Within : {S A : Type 0} (m : Exec S A) → Within 1 (atomic m)
atomic-Within m = calls 0 _ _ (λ s. ends 0 (m s).0)

deferred-Within :
    {S A : Type 0} {n : ℕ} (save : Exec S (Unit {0})) {body : Program S (Outcome A)}
    → Within n body
    → Within (n + 1) (deferred save body)
deferred-Within save w =
    chain-Within w (λ o. chain-Within (atomic-Within save) (λ o'. ends 0 (settle o o')))

answered-Within :
    {S A : Type 0} {n : ℕ} {p : Program S A} (f : A → Answer)
    → Within n p
    → n ≤ 4
    → Within 4 (chain p (λ a. done (f a)))
answered-Within {n} f w le = Within-le (chain-Within w (λ a. ends 0 (f a))) 4 (omega arith)

module _ (E : Externals) {S : Type 0} (st : Store S) (b : Broker) where
  provision-Within : (id : String) (d : ServiceInstance) → Within 3 (provision_program E st id d)
  unfolding provision_program
  provision-Within id d =
      deferred-Within {n = 2} st.save
        (then-Within _ λ conflict. if-Within conflict (ends 1 _) (then-Within _ (λ u. ends 0 _)))

  deprovision-Within : (id : String) → Within 3 (deprovision_program E st id)
  unfolding deprovision_program
  deprovision-Within id =
      deferred-Within {n = 2} st.save (then-Within _ (λ d. then-Within _ (λ u. ends 0 _)))

  unbind-Within :
      (instance_id binding_id : String) → Within 4 (unbind_program E st instance_id binding_id)
  unfolding unbind_program
  unbind-Within instance_id binding_id =
      deferred-Within {n = 3} st.save (then-Within _ (λ i. then-Within _ (λ d. atomic-Within _)))

  bind-Within :
      (salt instance_id binding_id : String) (d : BindDetails)
      → Within 4 (bind_program E st b salt instance_id binding_id d)
  unfolding bind_program chain
  bind-Within salt instance_id binding_id d = deferred-Within {n = 3} st.save (
      then-Within _ λ i. if-Within (d.app_guid == "") (ends 2 _) (
        by_outcome-Within
          (λ mode.
            then-Within _ λ conflict. if-Within conflict (ends 1 _) (then-Within _ (λ u. ends 0 _)))
          (evaluate_mode (entries d.parameters))))

  provisioning-Within :
      (o : Error ⊎ String) (id : String) (details : ProvisionDetails)
      → Within 4 (provisioning E st b o id details)
  provisioning-Within (inl e) id details = ends 4 _
  provisioning-Within (inr share) id details =
      answered-Within provisioned (provision-Within id (instance_of details share)) (omega arith)

  -- A handler makes at most four calls of the store between `Lock` and `Unlock`, its save included,
  -- whatever the store answers and whatever state it is in before each.
  pub program-Within : (q : Request) → Within 4 (program E st b q)
  program-Within (to_provision id details a) =
      provisioning-Within (E.decode_share details.raw_parameters) id details
  program-Within (to_deprovision id a) =
      answered-Within deprovisioned (deprovision-Within id) (omega arith)
  program-Within (to_bind salt i id d) =
      answered-Within bound (bind-Within salt i id d) (omega arith)
  program-Within (to_unbind i id) = answered-Within unbound (unbind-Within i id) (omega arith)
