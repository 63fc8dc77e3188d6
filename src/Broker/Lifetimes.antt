-- ===== src/Broker/Lifetimes.antt =====
-- How long an instance and a binding stay, over a sequence of requests to the handlers of
-- nfsbroker/nfsbroker.go.
use nfsbroker.Base.{
  String, ap, sym, ◌≡◌, refl, ◌∙◌, Bool, true, false, some, List, [], ◌∷◌, inl, inr, ◌==◌,
  if◌then◌else◌, arith, ==-eq, Bool-cases,
}
use mathlib.Core.Path.{subst}
use mathlib.Core.Option.{some-injective}
use nfsbroker.Api.{ok, ServiceInstance, BindDetails}
use nfsbroker.Externals.{Externals}
use nfsbroker.Store.{Store, redact_binding_details, conflicts_with}
use nfsbroker.Store.Redact.{redact-HidesParams, conflicts_with-eq-false}
use nfsbroker.Store.Laws.{View, IsLawful}
use nfsbroker.Broker.Types.{Broker}
use nfsbroker.Broker.Requests.{
  Request, to_provision, to_deprovision, to_bind, to_unbind, Reaches, start, after, Effect,
  handle-Effect,
}

-- No request of the list deprovisions the instance.
abbrev pub spares : String → List Request → Bool
spares id [] = true
spares id (to_deprovision k async_allowed ∷ qs) = if k == id then false else spares id qs
spares id (q ∷ qs) = spares id qs

-- No request of the list unbinds the binding.
abbrev pub keeps : String → List Request → Bool
keeps id [] = true
keeps id (to_unbind instance_id k ∷ qs) = if k == id then false else keeps id qs
keeps id (q ∷ qs) = keeps id qs

-- Two bindings of one application to one plan, with one resource.
pub record SameSubject (d d' : BindDetails) : Type 0 where
  pub app_guid : d'.app_guid ≡ d.app_guid
  pub plan_id : d'.plan_id ≡ d.plan_id
  pub service_id : d'.service_id ≡ d.service_id
  pub bind_resource : d'.bind_resource ≡ d.bind_resource

SameSubject-stored :
    (E : Externals) (salt : String) (d' : BindDetails) {d existing stored : BindDetails}
    → redact_binding_details E salt d' ≡ inr stored
    → conflicts_with E existing d' ≡ ok false
    → SameSubject d existing
    → SameSubject d stored
SameSubject-stored E salt d' {d} {existing} {stored} redacted agrees same =
    let (_, a, p, s, r) = redact-HidesParams E salt d' redacted in
    let (a', p', s', r') = conflicts_with-eq-false E existing d' agrees in
    record {
      app_guid = a ∙ sym a' ∙ same.app_guid;
      plan_id = p ∙ sym p' ∙ same.plan_id;
      service_id = s ∙ sym s' ∙ same.service_id;
      bind_resource = r ∙ r' ∙ same.bind_resource;
    }

module _ {S : Type 0} (V : View S) where
  -- The identifier has a binding with the subject of `d`.
  abbrev pub Bound : String → BindDetails → S → Type 0
  Bound id d s = (d' : BindDetails) × (V.bindings s id ≡ some d') × SameSubject d d'

  Bound-kept :
      {id : String} {d : BindDetails} {s t : S}
      → V.bindings t id ≡ V.bindings s id
      → Bound id d s
      → Bound id d t
  Bound-kept same (d', held, subject) = (d', same ∙ held, subject)

module _ (E : Externals) {S : Type 0} (st : Store S) (V : View S) (L : IsLawful V E st) where
  -- A request other than to deprovision the instance leaves its details as they are.
  Effect-instance :
      (q : Request) (id : String) (d : ServiceInstance) {s t : S}
      → spares id (q ∷ []) ≡ true
      → Effect E st V L q s t
      → V.instances s id ≡ some d
      → V.instances t id ≡ some d
  Effect-instance (to_provision k details a) id d sp (inl kept) e = kept.instances id ∙ e
  Effect-instance (to_provision k details a) id d {s} sp (inr (share, given, fresh, set)) e =
      elim (Bool-cases (k == id)) [
        | inl same ↦ ground (arith, set.instances id, fresh, ap (V.instances s) (==-eq k id same))
        | inr other ↦ ground (arith, set.instances id)
      ]
  Effect-instance (to_deprovision k a) id d sp (inl kept) e = kept.instances id ∙ e
  Effect-instance (to_deprovision k a) id d sp (inr set) e = ground (arith, set.instances id)
  Effect-instance (to_bind salt i k d') id d sp (inl kept) e = kept.instances id ∙ e
  Effect-instance (to_bind salt i k d') id d sp (inr (stored, hidden, clear, replaces, found, set))
        e =
      set.instances id ∙ e
  Effect-instance (to_unbind i k) id d sp (inl kept) e = kept.instances id ∙ e
  Effect-instance (to_unbind i k) id d sp (inr set) e = set.instances id ∙ e

  spares-cons :
      (id : String) (q : Request) (qs : List Request)
      → spares id (q ∷ qs) ≡ true
      → (spares id (q ∷ []) ≡ true) × (spares id qs ≡ true)
  spares-cons id (to_provision k details a) qs h = (refl, h)
  spares-cons id (to_deprovision k a) qs h = ground arith
  spares-cons id (to_bind salt i k d) qs h = (refl, h)
  spares-cons id (to_unbind i k) qs h = (refl, h)

  -- An instance keeps its details over any sequence of requests to a lawful store, provisions of the
  -- same identifier included, until a request deprovisions it.
  pub reaches-instance :
      (b : Broker) (id : String) (d : ServiceInstance) {s t : S} {qs : List Request}
      → Reaches E st b s qs t
      → spares id qs ≡ true
      → V.instances s id ≡ some d
      → V.instances t id ≡ some d
  reaches-instance b id d start sp e = e
  reaches-instance b id d (after {qs} {t} q r) sp e =
      let (this, earlier) = spares-cons id q qs sp in
      Effect-instance q id d this (handle-Effect E st V L b q t)
        (reaches-instance b id d r earlier e)

  -- A request other than to unbind the binding leaves a binding for the same application and plan.
  Effect-binding :
      (q : Request) (id : String) (d : BindDetails) {s t : S}
      → keeps id (q ∷ []) ≡ true
      → Effect E st V L q s t
      → Bound V id d s
      → Bound V id d t
  Effect-binding (to_provision k details a) id d sp (inl kept) e = Bound-kept V (kept.bindings id) e
  Effect-binding (to_provision k details a) id d sp (inr (share, given, fresh, set)) e =
      Bound-kept V (set.bindings id) e
  Effect-binding (to_deprovision k a) id d sp (inl kept) e = Bound-kept V (kept.bindings id) e
  Effect-binding (to_deprovision k a) id d sp (inr set) e = Bound-kept V (set.bindings id) e
  Effect-binding (to_bind salt i k d') id d sp (inl kept) e = Bound-kept V (kept.bindings id) e
  Effect-binding (to_bind salt i k d') id d {s} sp
        (inr (stored, hidden, clear, replaces, found, set)) (d₀, held, same) =
      elim (Bool-cases (k == id)) [
        | inr other ↦ (d₀, ground (arith, set.bindings id), same)
        | inl this ↦
            let e = ap (V.bindings s) (==-eq k id this) in
            elim replaces [
              | inr absent ↦ absurd (ground (arith, e))
              | inl redacted ↦ elim clear [
                | inl absent ↦ absurd (ground (arith, e))
                | inr (existing, there, agrees) ↦ (
                  stored,
                  ground (arith, set.bindings id),
                  SameSubject-stored E salt d' redacted agrees (
                      subst (λ x. SameSubject d x) (some-injective _ _ (sym held ∙ sym e ∙ there))
                        same),
                )
              ]
            ]
      ]
  Effect-binding (to_unbind i k) id d sp (inl kept) e = Bound-kept V (kept.bindings id) e
  Effect-binding (to_unbind i k) id d sp (inr set) e =
      Bound-kept V (ground (arith, set.bindings id)) e

  keeps-cons :
      (id : String) (q : Request) (qs : List Request)
      → keeps id (q ∷ qs) ≡ true
      → (keeps id (q ∷ []) ≡ true) × (keeps id qs ≡ true)
  keeps-cons id (to_provision k details a) qs h = (refl, h)
  keeps-cons id (to_deprovision k a) qs h = (refl, h)
  keeps-cons id (to_bind salt i k d) qs h = (refl, h)
  keeps-cons id (to_unbind i k) qs h = ground arith

  -- A binding stays, for the same application, service, plan and resource, over any sequence of
  -- requests to a lawful store, binds of the same identifier included, until a request unbinds it.
  pub reaches-binding :
      (b : Broker) (id : String) (d : BindDetails) {s t : S} {qs : List Request}
      → Reaches E st b s qs t
      → keeps id qs ≡ true
      → V.bindings s id ≡ some d
      → (d' : BindDetails) × (V.bindings t id ≡ some d') × SameSubject d d'
  reaches-binding b id d start h held =
      (d, held, record { app_guid = refl; plan_id = refl; service_id = refl; bind_resource = refl })
  reaches-binding b id d (after {qs} {t} q r) h held =
      let (this, earlier) = keeps-cons id q qs h in
      Effect-binding q id d this (handle-Effect E st V L b q t)
        (reaches-binding b id d r earlier held)
