-- ===== src/Broker/Server.antt =====
-- Any number of goroutines that serve requests with the handlers of nfsbroker/nfsbroker.go and share
-- its mutex and its store.
use native.Mathlib.Decide.{ℕ_discrete}
use mathlib.Core.Path.{subst}
use mathlib.Core.Logic.{ite, if_pos, if_neg}
use nfsbroker.Base.{
  ℕ, String, ◌≡◌, ◌≢◌, refl, sym, ◌∙◌, ap, Option, none, some, ◌⊎◌, inl, inr, ◌==◌, if◌then◌else◌,
  arith, Bool-cases,
}
use nfsbroker.Api.{Error, raw_params_invalid, message, Outcome, err}
use nfsbroker.Externals.{Externals}
use nfsbroker.Store.{Store}
use nfsbroker.Broker.Types.{
  Broker, ProvisionDetails, ProvisionedServiceSpec, DeprovisionServiceSpec, Binding,
}
use nfsbroker.Broker.{instance_of, provision, provision_decoded, deprovision, bind, unbind}
use nfsbroker.Broker.Requests.{Request, to_provision, to_deprovision, to_bind, to_unbind, handle}
use nfsbroker.Broker.Programs.{
  Program, done, step, run, chain, run-chain, provision_program, deprovision_program, bind_program,
  unbind_program, run-provision_program, run-deprovision_program, run-bind_program,
  run-unbind_program,
}

-- What a request is answered with.
pub data Answer : Type 0 where
  provisioned : Outcome ProvisionedServiceSpec → Answer
  deprovisioned : Outcome DeprovisionServiceSpec → Answer
  bound : Outcome Binding → Answer
  unbound : Outcome (Unit {0}) → Answer

-- A goroutine: it has not taken the mutex yet, it holds it and has a program left, or its request
-- is answered.
pub data Thread (S : Type 0) : Type 0 where
  waiting : Thread S
  inside : Program S Answer → Thread S
  finished : Answer → Thread S

-- The store, the holder of the mutex, and the goroutines by number.
pub record Server (S : Type 0) : Type 0 where
  pub store : S
  pub holder : Option ℕ
  pub threads : ℕ → Thread S

abbrev pub update : {A : Type 0} → (ℕ → A) → ℕ → A → ℕ → A
update f i t j = ite (ℕ_discrete i j) t (f j)

pub at_same : {A : Type 0} (i j : ℕ) (a b : A) → i ≡ j → ite (ℕ_discrete i j) a b ≡ a
at_same i j a b e = if_pos (ℕ_discrete i j) e a b

pub at_other : {A : Type 0} (i j : ℕ) (a b : A) → i ≢ j → ite (ℕ_discrete i j) a b ≡ b
at_other i j a b ne = if_neg (ℕ_discrete i j) ne a b

pub update-ne : {A : Type 0} (f : ℕ → A) {i : ℕ} (t : A) {j : ℕ} → i ≢ j → update f i t j ≡ f j
update-ne f {i} t {j} ne = at_other i j t (f j) ne

pub update_self : {A : Type 0} (f : ℕ → A) (i : ℕ) (t : A) → update f i t i ≡ t
update_self f i t = at_same i i t (f i) refl

-- What holds at the index that is written and elsewhere holds everywhere.
pub update_all :
    {A : Type 0} (P : ℕ → A → Type 0) {f : ℕ → A} {i : ℕ} {t : A}
    → P i t
    → ((j : ℕ) → i ≢ j → P j (f j))
    → (j : ℕ) → P j (update f i t j)
update_all P {f} {i} {t} here there j = elim (ℕ_discrete i j) [
  | yes e ↦ subst (P j) (sym (at_same i j t (f j) e)) (subst (λ k. P k t) e here)
  | no ne ↦ subst (P j) (sym (at_other i j t (f j) ne)) (there j ne)
]

abbrev pub init : {S : Type 0} → S → Server S
init s = record { store = s; holder = none; threads = λ i. waiting }

module _ (E : Externals) where
  abbrev pub refusal_of : Error ⊎ String → Option Answer
  refusal_of (inl e) = some (provisioned (err raw_params_invalid))
  refusal_of (inr share) =
      if share == ""
      then some (provisioned (err (message "config requires a \"share\" key")))
      else none

  -- The answer to a request that is refused before its handler takes the mutex.
  abbrev pub refusal : Request → Option Answer
  refusal (to_provision id details a) = refusal_of (E.decode_share details.raw_parameters)
  refusal _ = none

module _ (E : Externals) {S : Type 0} (st : Store S) (b : Broker) where
  abbrev pub provisioning : Error ⊎ String → String → ProvisionDetails → Program S Answer
  provisioning (inl e) id details = done (provisioned (err raw_params_invalid))
  provisioning (inr share) id details =
      chain (provision_program E st id (instance_of details share)) λ o. done (provisioned o)

  -- What the handler of a request does while it holds the mutex.
  abbrev pub program : Request → Program S Answer
  program (to_provision id details a) =
      provisioning (E.decode_share details.raw_parameters) id details
  program (to_deprovision id a) = chain (deprovision_program E st id) λ o. done (deprovisioned o)
  program (to_bind salt instance_id binding_id d) =
      chain (bind_program E st b salt instance_id binding_id d) λ o. done (bound o)
  program (to_unbind instance_id binding_id) =
      chain (unbind_program E st instance_id binding_id) λ o. done (unbound o)

  -- The answer of a handler that runs alone.
  abbrev pub answer : Request → S → Answer
  answer (to_provision id details a) s = provisioned (provision E st id details a s).0
  answer (to_deprovision id a) s = deprovisioned (deprovision E st id a s).0
  answer (to_bind salt instance_id binding_id d) s =
      bound (bind E st b salt instance_id binding_id d s).0
  answer (to_unbind instance_id binding_id) s = unbound (unbind E st instance_id binding_id s).0

  provisioning-run :
      (o : Error ⊎ String) (id : String) (details : ProvisionDetails) (s : S)
      → refusal_of E o ≡ none
      → let r = provision_decoded E st o id details s in
        run (provisioning o id details) s ≡ (provisioned r.0, r.1)
  unfolding run
  provisioning-run (inl e) id details s h = cc
  provisioning-run (inr share) id details s h = elim (Bool-cases (share == "")) [
    | inl empty ↦ absurd (ground (arith, empty))
    | inr given ↦
        rw (given, run-chain)
          (ap (λ r. (provisioned r.0, r.1))
            (run-provision_program E st id (instance_of details share) s))
  ]

  -- Run without an interruption, the program of a request answers and leaves what its handler does.
  pub run-program :
      (q : Request) (s : S)
      → refusal E q ≡ none
      → run (program q) s ≡ (answer q s, handle E st b q s)
  unfolding provision run
  run-program (to_provision id details a) s h =
      provisioning-run (E.decode_share details.raw_parameters) id details s h
  run-program (to_deprovision id a) s h =
      run-chain (deprovision_program E st id) _ s
      ∙ ap (λ r. (deprovisioned r.0, r.1)) (run-deprovision_program E st id a s)
  run-program (to_bind salt i id d) s h =
      run-chain (bind_program E st b salt i id d) _ s
      ∙ ap (λ r. (bound r.0, r.1)) (run-bind_program E st b salt i id d s)
  run-program (to_unbind i id) s h =
      run-chain (unbind_program E st i id) _ s
      ∙ ap (λ r. (unbound r.0, r.1)) (run-unbind_program E st i id s)

  module _ (requests : ℕ → Request) where
    -- One step of one goroutine, each with its request.
    pub data Step (v : Server S) : Server S → Type 0 where
      refuse :
          (i : ℕ) {a : Answer}
          → v.threads i ≡ waiting
          → refusal E (requests i) ≡ some a
          → Step v (record v { threads = update v.threads i (finished a) })
      lock :
          (i : ℕ)
          → v.threads i ≡ waiting
          → refusal E (requests i) ≡ none
          → v.holder ≡ none
          → Step v (record v {
            holder = some i;
            threads = update v.threads i (inside (program (requests i)));
          })
      call :
          (i : ℕ) {next : S → S} {rest : S → Program S Answer}
          → v.threads i ≡ inside (step next rest)
          → Step v (record v {
            store = next v.store;
            threads = update v.threads i (inside (rest v.store));
          })
      unlock :
          (i : ℕ) {a : Answer}
          → v.threads i ≡ inside (done a)
          → Step v (record v { holder = none; threads = update v.threads i (finished a) })

    -- Any number of steps.
    pub data Reach (u : Server S) : Server S → Type 0 where
      start : Reach u u
      later : {v w : Server S} → Reach u v → Step v w → Reach u w
