-- ===== src/Broker/Sound.antt =====
-- What every sequence of requests to the handlers of nfsbroker/nfsbroker.go keeps true of the store.
use nfsbroker.Base.{
  String, sym, ◌≡◌, ◌∙◌, false, Option, some, List, [], ◌∷◌, inl, inr, ◌==◌, arith, Bool-cases,
}
use mathlib.Core.Path.{subst}
use nfsbroker.Api.{ServiceInstance, BindDetails, Params}
use nfsbroker.Externals.{Externals}
use nfsbroker.Store.{Store}
use nfsbroker.Store.Laws.{
  View, is_forged, HashedOf, Conceals, IsLawful, Unchanged, InstanceSet, BindingSet,
}
use nfsbroker.Broker.Types.{Broker}
use nfsbroker.Broker.Requests.{
  Request, to_provision, to_deprovision, to_bind, to_unbind, Reaches, start, after, Effect,
  handle-Effect,
}

-- No parameters, or nothing but the hash that bcrypt makes of the JSON form of some.
abbrev pub IsHashed : Externals → Option Params → Type 0
IsHashed E stored = (given : Option Params) × HashedOf E given stored

-- Every instance has a share, and no binding tells its parameters.
pub record IsSound {S : Type 0} (E : Externals) (V : View S) (s : S) : Type 0 where
  pub shares :
      (k : String) (d : ServiceInstance) → V.instances s k ≡ some d → (d.share == "") ≡ false
  pub hidden : (k : String) (d : BindDetails) → V.bindings s k ≡ some d → IsHashed E d.parameters

-- A bind does not name its only parameter `paramsHash`.
abbrev pub IsUnforged : Request → Type 0
IsUnforged (to_bind salt i id d) = is_forged d.parameters ≡ false
IsUnforged _ = Unit

abbrev pub AllUnforged : List Request → Type 0
AllUnforged [] = Unit
AllUnforged (q ∷ qs) = IsUnforged q × AllUnforged qs

module _ {S : Type 0} (E : Externals) (V : View S) where
  pub Unchanged-IsSound : {s t : S} → Unchanged V s t → IsSound E V s → IsSound E V t
  Unchanged-IsSound same w = record {
    shares = λ k d e. w.shares k d (sym (same.instances k) ∙ e);
    hidden = λ k d e. w.hidden k d (sym (same.bindings k) ∙ e);
  }

  pub InstanceSet-IsSound :
      {id : String} {v : Option ServiceInstance} {s t : S}
      → ((d : ServiceInstance) → v ≡ some d → (d.share == "") ≡ false)
      → InstanceSet V id v s t
      → IsSound E V s
      → IsSound E V t
  InstanceSet-IsSound {id} fits set w = record {
    shares = λ k d e. elim (Bool-cases (id == k)) [
      | inl same ↦ fits d (ground (arith, set.instances k))
      | inr other ↦ w.shares k d (ground (arith, set.instances k))
    ];
    hidden = λ k d e. w.hidden k d (sym (set.bindings k) ∙ e);
  }

  pub BindingSet-IsSound :
      {id : String} {v : Option BindDetails} {s t : S}
      → ((d : BindDetails) → v ≡ some d → IsHashed E d.parameters)
      → BindingSet V id v s t
      → IsSound E V s
      → IsSound E V t
  BindingSet-IsSound {id} fits set w = record {
    shares = λ k d e. w.shares k d (sym (set.instances k) ∙ e);
    hidden = λ k d e. elim (Bool-cases (id == k)) [
      | inl same ↦ fits d (ground (arith, set.bindings k))
      | inr other ↦ w.hidden k d (ground (arith, set.bindings k))
    ];
  }

module _ (E : Externals) {S : Type 0} (st : Store S) (V : View S) (L : IsLawful V E st) where
  unforged-IsHashed :
      (d stored : BindDetails)
      → is_forged d.parameters ≡ false
      → Conceals E d stored
      → IsHashed E stored.parameters
  unforged-IsHashed d stored raw (hides, inl forged) = absurd (cc)
  unforged-IsHashed d stored raw (hides, inr hashed) = (d.parameters, hashed)

  Effect-IsSound :
      (q : Request) {s t : S} → IsUnforged q → Effect E st V L q s t → IsSound E V s → IsSound E V t
  Effect-IsSound (to_provision id details a) u (inl kept) w = Unchanged-IsSound E V kept w
  Effect-IsSound (to_provision id details a) u (inr (share, given, fresh, set)) w =
      InstanceSet-IsSound E V (λ d e. ground arith) set w
  Effect-IsSound (to_deprovision id a) u (inl kept) w = Unchanged-IsSound E V kept w
  Effect-IsSound (to_deprovision id a) u (inr set) w = InstanceSet-IsSound E V (λ d e. cc) set w
  Effect-IsSound (to_bind salt i id d) u (inl kept) w = Unchanged-IsSound E V kept w
  Effect-IsSound (to_bind salt i id d) u (inr (stored, hidden, clear, replaces, found, set)) w =
      BindingSet-IsSound E V
        (λ d' e.
          let same : stored ≡ d' = cc in
          subst (λ x. IsHashed E x.parameters) same (unforged-IsHashed d stored u hidden))
        set w
  Effect-IsSound (to_unbind i id) u (inl kept) w = Unchanged-IsSound E V kept w
  Effect-IsSound (to_unbind i id) u (inr set) w = BindingSet-IsSound E V (λ d e. cc) set w

  -- In every state that a sequence of requests leads to over a lawful store, from a state where every
  -- instance has a share, and every binding has no parameters or nothing but the hash that bcrypt
  -- makes of the JSON form of some, both are still so: if no request binds with a `paramsHash` as
  -- its only parameter.
  pub reaches-IsSound :
      (b : Broker) {s t : S} {qs : List Request}
      → Reaches E st b s qs t
      → AllUnforged qs
      → IsSound E V s
      → IsSound E V t
  reaches-IsSound b start u w = w
  reaches-IsSound b (after {qs} {t} q r) (u, us) w =
      Effect-IsSound q u (handle-Effect E st V L b q t) (reaches-IsSound b r us w)
