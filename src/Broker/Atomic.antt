-- ===== src/Broker/Atomic.antt =====
-- Where a handler of nfsbroker/nfsbroker.go changes what the store holds: in one call at most.
pub mod Reached
pub mod Sql
use nfsbroker.Base.{
  none, String, ◌≡◌, refl, sym, Bool, ◌⊎◌, inl, inr, ◌==◌, true, false, if◌then◌else◌,
}
use nfsbroker.Api.{Error, Outcome, ok, err, panic, ServiceInstance, BindDetails}
use nfsbroker.Exec.{Exec, settle}
use nfsbroker.Externals.{Externals}
use nfsbroker.Store.{Store, is_binding_conflict}
use nfsbroker.Store.Laws.{View, Unchanged, Unchanged-refl, Unchanged-trans, IsLawful}
use nfsbroker.Broker.{instance_of}
use nfsbroker.Broker.Types.{Broker, ProvisionDetails}
use nfsbroker.Broker.Volume.{entries, evaluate_mode}
use nfsbroker.Broker.Requests.{Request, to_provision, to_deprovision, to_bind, to_unbind}
use nfsbroker.Broker.Programs.{
  Program, done, step, chain, run, atomic, by_outcome, ◌>>=◌, deferred, provision_program,
  deprovision_program, bind_program, unbind_program,
}
use nfsbroker.Broker.Server.{
  Answer, provisioned, deprovisioned, bound, unbound, refusal, refusal_of, program, provisioning,
}

-- The calls of a store that read leave it the same, in the sense of an equivalence.
pub record IsReading {S : Type 0} (R : S → S → Type 0) (st : Store S) : Type 0 where
  pub same : (s : S) → R s s
  pub back : (s t : S) → R s t → R t s
  pub after : (s t u : S) → R s t → R t u → R s u
  pub retrieve_instance : (id : String) (s : S) → R s (st.retrieve_instance_details id s).1
  pub retrieve_binding : (id : String) (s : S) → R s (st.retrieve_binding_details id s).1
  pub instance_conflict :
      (id : String) (d : ServiceInstance) (s : S) → R s (st.is_instance_conflict id d s).1
  pub binding_conflict :
      (id : String) (d : BindDetails) (s : S) → R s (st.is_binding_conflict id d s).1
  pub save : (s : S) → R s (st.save s).1

-- No call that is left changes the store.
pub data Reading {S A : Type 0} (R : S → S → Type 0) : Program S A → Type 0 where
  over : (a : A) → Reading R (done a)
  reads :
      (next : S → S) (rest : S → Program S A)
      → ((s : S) → R s (next s))
      → ((s : S) → Reading R (rest s))
      → Reading R (step next rest)

-- One call that is left does, at most.
pub data Writing {S A : Type 0} (R : S → S → Type 0) : Program S A → Type 0 where
  written : {p : Program S A} → Reading R p → Writing R p
  before :
      (next : S → S) (rest : S → Program S A)
      → ((s : S) → R s (next s))
      → ((s : S) → Writing R (rest s))
      → Writing R (step next rest)
  writes :
      (next : S → S) (rest : S → Program S A)
      → ((s : S) → Reading R (rest s))
      → Writing R (step next rest)

pub run-Reading :
    {S A : Type 0} {st : Store S} {R : S → S → Type 0} (L : IsReading R st) {p : Program S A}
    → Reading R p
    → (s : S) → R s (run p s).1
unfolding run
run-Reading L (over a) s = L.same s
run-Reading L (reads next rest k w) s = L.after s (next s) _ (k s) (run-Reading L (w s) (next s))

module _ {S A B : Type 0} {R : S → S → Type 0} where
  chain-Reading :
      {p : Program S A} {f : A → Program S B}
      → Reading R p
      → ((a : A) → Reading R (f a))
      → Reading R (chain p f)
  unfolding chain
  chain-Reading (over a) h = h a
  chain-Reading (reads next rest k w) h = reads next _ k (λ s. chain-Reading (w s) h)

  chain-Writing :
      {p : Program S A} {f : A → Program S B}
      → Writing R p
      → ((a : A) → Reading R (f a))
      → Writing R (chain p f)
  unfolding chain
  chain-Writing (written w) h = written (chain-Reading w h)
  chain-Writing (before next rest k w) h = before next _ k (λ s. chain-Writing (w s) h)
  chain-Writing (writes next rest w) h = writes next _ (λ s. chain-Reading (w s) h)

  by_outcome-Reading :
      {f : A → Program S (Outcome B)}
      → ((a : A) → Reading R (f a))
      → (o : Outcome A) → Reading R (by_outcome f o)
  by_outcome-Reading h (ok a) = h a
  by_outcome-Reading h (err e) = over (err e)
  by_outcome-Reading h panic = over panic

  by_outcome-Writing :
      {f : A → Program S (Outcome B)}
      → ((a : A) → Writing R (f a))
      → (o : Outcome A) → Writing R (by_outcome f o)
  by_outcome-Writing h (ok a) = h a
  by_outcome-Writing h (err e) = written (over (err e))
  by_outcome-Writing h panic = written (over panic)

  -- A call that reads, before what writes; and a call that writes, before what reads.
  then-before :
      (m : Exec S A) {f : A → Program S (Outcome B)}
      → ((s : S) → R s (m s).1)
      → ((a : A) → Writing R (f a))
      → Writing R (atomic m >>= f)
  unfolding chain
  then-before m k h = before _ _ k (λ s. by_outcome-Writing h (m s).0)

  then-writes :
      (m : Exec S A) {f : A → Program S (Outcome B)}
      → ((a : A) → Reading R (f a))
      → Writing R (atomic m >>= f)
  unfolding chain
  then-writes m h = writes _ _ (λ s. by_outcome-Reading h (m s).0)

module _ {S A : Type 0} {R : S → S → Type 0} where
  if-Writing :
      (b : Bool) {p q : Program S A} → Writing R p → Writing R q → Writing R (if b then p else q)
  if-Writing true w w' = w
  if-Writing false w w' = w'

  deferred-Writing :
      (save : Exec S (Unit {0})) {body : Program S (Outcome A)}
      → ((s : S) → R s (save s).1)
      → Writing R body
      → Writing R (deferred save body)
  unfolding chain
  deferred-Writing save k w = chain-Writing w (λ o. reads _ _ k (λ s. over (settle o (save s).0)))

  answered-Writing :
      {B : Type 0} {p : Program S A} (f : A → B)
      → Writing R p
      → Writing R (chain p (λ a. done (f a)))
  answered-Writing f w = chain-Writing w (λ a. over (f a))

module _ {S : Type 0} (E : Externals) (st : Store S) (V : View S) (L : IsLawful V E st) where
  retrieve_binding-Unchanged :
      (id : String) (s : S) → Unchanged V s (st.retrieve_binding_details id s).1
  retrieve_binding-Unchanged id s = elim (L.retrieve_binding id s) [
    | inl (d, read, found, same) ↦ same
    | inr (x, fails, same) ↦ same
  ]

  -- What a lawful store reads leaves its maps as they are.
  pub lawful-IsReading : IsReading (Unchanged V) st
  unfolding is_binding_conflict
  lawful-IsReading = record {
    same = Unchanged-refl V;
    back = λ s t same. record {
      instances = λ k. sym (same.instances k);
      bindings = λ k. sym (same.bindings k);
    };
    after = λ s t u first second. Unchanged-trans V first second;
    retrieve_instance = λ id s. elim (L.retrieve_instance id s) [
      | inl (d, read, found, same) ↦ same
      | inr (x, fails, same) ↦ same
    ];
    retrieve_binding = retrieve_binding-Unchanged;
    instance_conflict =
        λ id d s. let (c, checked, same, differs) = L.instance_conflict id d s in same;
    binding_conflict = λ id d s. rw (L.binding_conflict id d s) (retrieve_binding-Unchanged id s);
    save = L.save_keeps;
  }

module _ (E : Externals) {S : Type 0} (st : Store S) (R : S → S → Type 0) (L : IsReading R st)
    (b : Broker) where
  provision-Writing : (id : String) (d : ServiceInstance) → Writing R (provision_program E st id d)
  unfolding provision_program
  provision-Writing id d = deferred-Writing st.save L.save (
      then-before _ (L.instance_conflict id d)
        λ conflict. if-Writing conflict (written (over _)) (then-writes _ (λ u. over _)))

  deprovision-Writing : (id : String) → Writing R (deprovision_program E st id)
  unfolding deprovision_program
  deprovision-Writing id =
      deferred-Writing st.save L.save
        (then-before _ (L.retrieve_instance id) (λ d. then-writes _ (λ u. over _)))

  unbind-Writing :
      (instance_id binding_id : String) → Writing R (unbind_program E st instance_id binding_id)
  unfolding unbind_program
  unbind-Writing instance_id binding_id = deferred-Writing st.save L.save (
      then-before _ (L.retrieve_instance instance_id)
        λ i. then-before _ (L.retrieve_binding binding_id) (λ d. writes _ _ (λ s. over _)))

  bind-Writing :
      (salt instance_id binding_id : String) (d : BindDetails)
      → Writing R (bind_program E st b salt instance_id binding_id d)
  unfolding bind_program chain
  bind-Writing salt instance_id binding_id d = deferred-Writing st.save L.save (
      then-before _ (L.retrieve_instance instance_id) λ i.
        if-Writing (d.app_guid == "") (written (over _)) (
          by_outcome-Writing
            (λ mode.
              then-before _ (L.binding_conflict binding_id d)
                λ conflict. if-Writing conflict (written (over _)) (then-writes _ (λ u. over _)))
            (evaluate_mode (entries d.parameters))))

  provisioning-Writing :
      (o : Error ⊎ String) (id : String) (details : ProvisionDetails)
      → Writing R (provisioning E st b o id details)
  provisioning-Writing (inl e) id details = written (over _)
  provisioning-Writing (inr share) id details =
      answered-Writing provisioned (provision-Writing id (instance_of details share))

  -- One call of a handler, at most, changes the store.
  pub program-Writing : (q : Request) → Writing R (program E st b q)
  program-Writing (to_provision id details a) =
      provisioning-Writing (E.decode_share details.raw_parameters) id details
  program-Writing (to_deprovision id a) = answered-Writing deprovisioned (deprovision-Writing id)
  program-Writing (to_bind salt i id d) = answered-Writing bound (bind-Writing salt i id d)
  program-Writing (to_unbind i id) = answered-Writing unbound (unbind-Writing i id)
