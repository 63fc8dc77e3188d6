-- ===== src/Store/Laws.antt =====
-- What the broker relies on in a `Store`: each operation, told by what it does to the two finite maps
-- that the store stands for. An operation that fails leaves them as they were.
use nfsbroker.Base.{
  String, ◌≡◌, refl, ◌∙◌, ap, ◌≢◌, Bool, true, false, Option, none, some, [], ◌∷◌, ◌⊎◌, inl, inr,
  ◌==◌, if◌then◌else◌,
}
use nfsbroker.Api.{
  Error, Outcome, ok, err, ServiceInstance, BindDetails, Params, params_from_json, text,
}
use nfsbroker.Exec.{settle}
use nfsbroker.Externals.{Externals}
use nfsbroker.Store.{Store, hash_key, is_redacted, redact_binding_details, is_binding_conflict}

-- The maps that a state stands for.
pub record View (S : Type 0) : Type 0 where
  pub instances : S → String → Option ServiceInstance
  pub bindings : S → String → Option BindDetails

-- No parameters, or nothing but their hash.
abbrev pub hides : Option Params → Bool
hides none = true
hides (some parameters) = is_redacted parameters

abbrev pub HidesParams : Option Params → Type 0
HidesParams p = hides p ≡ true

-- A request whose only parameter is a `paramsHash` already, which is stored as it is.
abbrev pub is_forged : Option Params → Bool
is_forged none = false
is_forged (some parameters) = is_redacted parameters

-- Nothing, or the hash that bcrypt makes of the JSON form of the parameters that are given.
abbrev pub HashedOf : Externals → Option Params → Option Params → Type 0
HashedOf E given stored =
    (stored ≡ none)
    ⊎ ((p : Params) × (salt json hash : String) × (given ≡ some p)
        × (E.marshal p ≡ inr json)
        × (E.generate salt json ≡ inr hash)
        × (stored ≡ some ((hash_key, text hash) ∷ [])))

-- No key but that of the hash, and under it a hash of the request's parameters, unless these were
-- a `paramsHash` already.
abbrev pub Conceals : Externals → BindDetails → BindDetails → Type 0
Conceals E d stored =
    HidesParams stored.parameters
    × ((is_forged d.parameters ≡ true) ⊎ HashedOf E d.parameters stored.parameters)

module _ {S : Type 0} (V : View S) where
  pub record Unchanged (s t : S) : Type 0 where
    pub instances : (k : String) → V.instances t k ≡ V.instances s k
    pub bindings : (k : String) → V.bindings t k ≡ V.bindings s k

  pub record InstanceSet (id : String) (v : Option ServiceInstance) (s t : S) : Type 0 where
    pub instances : (k : String) → V.instances t k ≡ (if id == k then v else V.instances s k)
    pub bindings : (k : String) → V.bindings t k ≡ V.bindings s k

  pub record BindingSet (id : String) (v : Option BindDetails) (s t : S) : Type 0 where
    pub instances : (k : String) → V.instances t k ≡ V.instances s k
    pub bindings : (k : String) → V.bindings t k ≡ (if id == k then v else V.bindings s k)

  abbrev pub Fails : Outcome (Unit {0}) × S → S → Type 0
  Fails r s = (e : Error) × (r.0 ≡ err e) × Unchanged s r.1

  pub record IsLawful (E : Externals) (st : Store S) : Type 0 where
    pub retrieve_instance :
        (id : String) (s : S)
        → let r = st.retrieve_instance_details id s in
          ((d : ServiceInstance) × (r.0 ≡ ok d) × (V.instances s id ≡ some d) × Unchanged s r.1)
          ⊎ ((e : Error) × (r.0 ≡ err e) × Unchanged s r.1)
    pub retrieve_binding :
        (id : String) (s : S)
        → let r = st.retrieve_binding_details id s in
          ((d : BindDetails) × (r.0 ≡ ok d) × (V.bindings s id ≡ some d) × Unchanged s r.1)
          ⊎ ((e : Error) × (r.0 ≡ err e) × Unchanged s r.1)
    pub create_instance :
        (id : String) (d : ServiceInstance) (s : S)
        → let r = st.create_instance_details id d s in
          ((r.0 ≡ ok tt) × InstanceSet id (some d) s r.1) ⊎ Fails r s
    -- What is stored conceals the parameters, is the redaction of decoded JSON if that succeeds, and
    -- replaces a binding only with a redaction.
    pub create_binding :
        (salt id : String) (d : BindDetails) (s : S)
        → let r = st.create_binding_details salt id d s in
          ((stored : BindDetails) × (r.0 ≡ ok tt)
            × Conceals E d stored
            × ((d' : BindDetails)
                → params_from_json d.parameters ≡ true
                → redact_binding_details E salt d ≡ inr d'
                → stored ≡ d')
            × ((redact_binding_details E salt d ≡ inr stored) ⊎ (V.bindings s id ≡ none))
            × BindingSet id (some stored) s r.1)
          ⊎ Fails r s
    pub delete_instance :
        (id : String) (s : S)
        → let r = st.delete_instance_details id s in
          ((r.0 ≡ ok tt) × InstanceSet id none s r.1) ⊎ Fails r s
    pub delete_binding :
        (id : String) (s : S)
        → let r = st.delete_binding_details id s in
          ((r.0 ≡ ok tt) × BindingSet id none s r.1) ⊎ Fails r s
    -- A conflict is an instance with other details.
    pub instance_conflict :
        (id : String) (d : ServiceInstance) (s : S)
        → let r = st.is_instance_conflict id d s in
          (b : Bool) × (r.0 ≡ ok b)
          × Unchanged s r.1
          × (b ≡ true → (d' : ServiceInstance) × (V.instances s id ≡ some d') × (d' ≢ d))
    -- What is created after the check found no conflict replaces no instance with other details.
    pub instance_fresh :
        (id : String) (d : ServiceInstance) (s : S)
        → (st.is_instance_conflict id d s).0 ≡ ok false
        → (st.create_instance_details id d (st.is_instance_conflict id d s).1).0 ≡ ok tt
        → (V.instances s id ≡ none) ⊎ (V.instances s id ≡ some d)
    pub binding_conflict :
        (id : String) (d : BindDetails) (s : S)
        → st.is_binding_conflict id d s ≡ is_binding_conflict E st.retrieve_binding_details id d s
    -- What is created after the check found nothing to compare with replaces no binding.
    pub binding_fresh :
        (salt id : String) (d : BindDetails) (s : S) (e : Error)
        → let r = st.retrieve_binding_details id s in
          r.0 ≡ err e → (st.create_binding_details salt id d r.1).0 ≡ ok tt → V.bindings s id ≡ none
    pub save_keeps : (s : S) → Unchanged s (st.save s).1
    pub save_ends : (s : S) → ((st.save s).0 ≡ ok tt) ⊎ ((e : Error) × ((st.save s).0 ≡ err e))

  pub Unchanged-refl : (s : S) → Unchanged s s
  Unchanged-refl s = record { instances = λ k. refl; bindings = λ k. refl }

  module _ {s t u : S} where
    pub Unchanged-trans : Unchanged s t → Unchanged t u → Unchanged s u
    Unchanged-trans a b = record {
      instances = λ k. b.instances k ∙ a.instances k;
      bindings = λ k. b.bindings k ∙ a.bindings k;
    }

    module _ {id : String} {v : Option ServiceInstance} where
      pub InstanceSet-after : Unchanged s t → InstanceSet id v t u → InstanceSet id v s u
      InstanceSet-after a b = record {
        instances = λ k. b.instances k ∙ ap (λ w. if id == k then v else w) (a.instances k);
        bindings = λ k. b.bindings k ∙ a.bindings k;
      }

      pub InstanceSet-before : InstanceSet id v s t → Unchanged t u → InstanceSet id v s u
      InstanceSet-before a b = record {
        instances = λ k. b.instances k ∙ a.instances k;
        bindings = λ k. b.bindings k ∙ a.bindings k;
      }

    module _ {id : String} {v : Option BindDetails} where
      pub BindingSet-after : Unchanged s t → BindingSet id v t u → BindingSet id v s u
      BindingSet-after a b = record {
        instances = λ k. b.instances k ∙ a.instances k;
        bindings = λ k. b.bindings k ∙ ap (λ w. if id == k then v else w) (a.bindings k);
      }

      pub BindingSet-before : BindingSet id v s t → Unchanged t u → BindingSet id v s u
      BindingSet-before a b = record {
        instances = λ k. b.instances k ∙ a.instances k;
        bindings = λ k. b.bindings k ∙ a.bindings k;
      }

  module _ {E : Externals} {st : Store S} (L : IsLawful E st) where
    -- The deferred save does not replace an error.
    pub settle-err : {A : Type 0} (e : Error) (t : S) → settle {A = A} (err e) (st.save t).0 ≡ err e
    settle-err e t = elim (L.save_ends t) [ inl saved ↦ rw saved | inr (x, failed) ↦ rw failed ]

    -- After a body that ends with a value, the save decides.
    pub settle-ok :
        {A : Type 0} (a : A) (t : S)
        → (settle (ok a) (st.save t).0 ≡ ok a)
          ⊎ ((e : Error) × ((st.save t).0 ≡ err e) × (settle (ok a) (st.save t).0 ≡ err e))
    settle-ok a t = elim (L.save_ends t) [
      | inl saved ↦ inl (rw saved)
      | inr (e, failed) ↦ inr (e, failed, rw failed)
    ]
