-- ===== src/Store/Redact.antt =====
-- What `redactBindingDetails` leaves, and when `isBindingConflict` reports a conflict.
use nfsbroker.Base.{
  String, ◌≡◌, ◌∙◌, refl, Bool, true, false, not, Option, none, some, [], ◌∷◌, ◌⊎◌, inl, inr, arith,
  ◌==◌, ==-refl, Sum-cases, Bool-cases, Option-cases,
}
use nfsbroker.Base.Dict.{lookup, is_some}
use nfsbroker.Api.{
  Value, text, Params, params_from_json, from_json, Outcome, ok, panic, BindDetails, resource_eq,
  resource_eq_refl, resource_eq-eq,
}
use nfsbroker.Externals.{Externals}
use nfsbroker.Store.{
  hash_key, is_redacted, redact_binding_details, hash_differs, parameters_conflict, conflicts_with,
}
use nfsbroker.Store.Laws.{HidesParams, HashedOf, Conceals}

-- Redacted details keep every field but the parameters, and no parameter but a hash.
pub redact-HidesParams :
    (E : Externals) (salt : String) (d : BindDetails) {d' : BindDetails}
    → redact_binding_details E salt d ≡ inr d'
    → HidesParams d'.parameters
      × (d'.app_guid ≡ d.app_guid)
      × (d'.plan_id ≡ d.plan_id)
      × (d'.service_id ≡ d.service_id)
      × (d'.bind_resource ≡ d.bind_resource)
unfolding redact_binding_details is_redacted lookup is_some
redact-HidesParams E salt d {d'} e = ground arith

-- Redacting twice is redacting once, whatever salt is drawn the second time.
redact-redact :
    (E : Externals) (salt salt' : String) (d : BindDetails) {d' : BindDetails}
    → redact_binding_details E salt d ≡ inr d'
    → redact_binding_details E salt' d' ≡ inr d'
unfolding redact_binding_details is_redacted lookup is_some
redact-redact E salt salt' d {d'} e = ground arith

pub redact-params_from_json :
    (E : Externals) (salt : String) (d : BindDetails) {d' : BindDetails}
    → redact_binding_details E salt d ≡ inr d'
    → params_from_json d.parameters ≡ true
    → params_from_json d'.parameters ≡ true
unfolding redact_binding_details from_json
redact-params_from_json E salt d {d'} e h = ground arith

-- What bcrypt documents of a hash that it made.
abbrev pub MatchesOwnHash : Externals → Type 0
MatchesOwnHash E = (salt s h : String) → E.generate salt s ≡ inr h → E.matches h s ≡ true

-- What a successful redaction of parameters that are not redacted yet has done.
redact_raw :
    (E : Externals) (salt : String) (d : BindDetails) (p : Params) {d' : BindDetails}
    → d.parameters ≡ some p
    → is_redacted p ≡ false
    → redact_binding_details E salt d ≡ inr d'
    → (s : String) × (h : String) × (E.marshal p ≡ inr s)
      × (E.generate salt s ≡ inr h)
      × (d'.parameters ≡ some ((hash_key, text h) ∷ []))
unfolding redact_binding_details
redact_raw E salt d p given raw e = elim (Sum-cases (E.marshal p)) [
  | inl (x, fails) ↦ absurd (ground arith)
  | inr (s, marshalled) ↦ elim (Sum-cases (E.generate salt s)) [
    | inl (x, fails) ↦ absurd (ground arith)
    | inr (h, generated) ↦ (s, h, marshalled, generated, ground arith)
  ]
]

-- What a successful redaction stores conceals the parameters.
pub redact-Conceals :
    (E : Externals) (salt : String) (d : BindDetails) {d' : BindDetails}
    → redact_binding_details E salt d ≡ inr d'
    → Conceals E d d'
redact-Conceals E salt d {d'} e = (
  (redact-HidesParams E salt d e).0,
  elim (Option-cases d.parameters) [
    | inl bare ↦
        let kept : d'.parameters ≡ none = unfold redact_binding_details in ground arith in
        inr (inl kept)
    | inr (p, given) ↦ elim (Bool-cases (is_redacted p)) [
      | inl forged ↦ inl (rw given forged)
      | inr raw ↦
          let (json, hash, marshalled, generated, stored) = redact_raw E salt d p given raw e in
          inr (inr (p, salt, json, hash, given, marshalled, generated, stored))
    ]
  ],
)

-- A hash is a text, which JSON keeps.
pub HashedOf-params_from_json :
    (E : Externals) (given stored : Option Params)
    → HashedOf E given stored
    → params_from_json stored ≡ true
unfolding from_json
HashedOf-params_from_json E given stored (inl bare) = rw bare refl
HashedOf-params_from_json E given stored (inr (p, salt, json, hash, g, m, h, is_hash)) =
    rw is_hash refl

pub conflicts_with-same :
    (E : Externals) (existing details : BindDetails)
    → existing.app_guid ≡ details.app_guid
    → existing.plan_id ≡ details.plan_id
    → existing.service_id ≡ details.service_id
    → existing.bind_resource ≡ details.bind_resource
    → conflicts_with E existing details
      ≡ parameters_conflict E details.parameters existing.parameters
unfolding conflicts_with
conflicts_with-same E existing details a p s r =
    rw r (ground (arith, resource_eq_refl details.bind_resource))

parameters_agree :
    (E : Externals) (salt : String) (d : BindDetails) {d' : BindDetails}
    → MatchesOwnHash E
    → (d.parameters ≡ none) ⊎ ((p : Params) × (d.parameters ≡ some p) × (is_redacted p ≡ false))
    → redact_binding_details E salt d ≡ inr d'
    → parameters_conflict E d.parameters d'.parameters ≡ ok false
unfolding lookup
parameters_agree E salt d {d'} own (inl bare) e =
    let kept : d'.parameters ≡ none = unfold redact_binding_details in ground arith in
    rw (bare, kept)
parameters_agree E salt d own (inr (p, given, raw)) e =
    let (s, h, marshalled, generated, stored) = redact_raw E salt d p given raw e in
    rw (given, stored, marshalled, parameters_conflict, ==-refl) (rw (own salt s h generated))

-- If a request has no parameters, or some that are not redacted already, and redacting succeeds,
-- then the same request does not conflict with what is stored of it, given that bcrypt accepts a
-- text against a hash that it made of that text.
pub conflicts_with-redact :
    (E : Externals) (salt : String) (d : BindDetails) {d' : BindDetails}
    → MatchesOwnHash E
    → (d.parameters ≡ none) ⊎ ((p : Params) × (d.parameters ≡ some p) × (is_redacted p ≡ false))
    → redact_binding_details E salt d ≡ inr d'
    → conflicts_with E d' d ≡ ok false
unfolding lookup
conflicts_with-redact E salt d {d'} own given e =
    let (_, a, p, s, r) = redact-HidesParams E salt d e in
    conflicts_with-same E d' d a p s r ∙ parameters_agree E salt d own given e

-- Details that the check finds no conflict in have the same three identifiers and the same resource.
pub conflicts_with-eq-false :
    (E : Externals) (existing details : BindDetails)
    → conflicts_with E existing details ≡ ok false
    → (existing.app_guid ≡ details.app_guid)
      × (existing.plan_id ≡ details.plan_id)
      × (existing.service_id ≡ details.service_id)
      × (details.bind_resource ≡ existing.bind_resource)
unfolding conflicts_with
conflicts_with-eq-false E existing details h =
    ground (arith, resource_eq-eq details.bind_resource existing.bind_resource)

-- How a check ends: with an answer, or in a panic.
abbrev pub Answers : Outcome Bool → Type 0
Answers o = ((b : Bool) × (o ≡ ok b)) ⊎ (o ≡ panic)

hash_differs-Answers :
    (E : Externals) (v : Option Value) (s : String) → Answers (hash_differs E v s)
hash_differs-Answers E (some (text h)) s = inl (not (E.matches h s), refl)
hash_differs-Answers E _ s = inr refl

parameters_conflict-Answers :
    (E : Externals) (p q : Option Params) → Answers (parameters_conflict E p q)
parameters_conflict-Answers E none none = inl (false, refl)
parameters_conflict-Answers E none (some q) = inl (true, refl)
parameters_conflict-Answers E (some p) none = inl (true, refl)
parameters_conflict-Answers E (some p) (some q) = elim (Sum-cases (E.marshal p)) [
  | inl (e, fails) ↦ inl (true, rw (fails, parameters_conflict))
  | inr (s, marshalled) ↦
      rw (marshalled, parameters_conflict) (hash_differs-Answers E (lookup hash_key q) s)
]

-- The check ends with an answer, or panics on a stored value that is no hash; never with an error.
pub conflicts_with-Answers :
    (E : Externals) (existing details : BindDetails) → Answers (conflicts_with E existing details)
unfolding conflicts_with
conflicts_with-Answers E existing details =
    elim (Bool-cases (existing.app_guid == details.app_guid)) [
      | inr differ ↦ inl (true, rw differ)
      | inl app ↦ elim (Bool-cases (existing.plan_id == details.plan_id)) [
        | inr differ ↦ inl (true, rw (app, differ))
        | inl plan ↦ elim (Bool-cases (existing.service_id == details.service_id)) [
          | inr differ ↦ inl (true, rw (app, plan, differ))
          | inl service ↦
              elim (Bool-cases (resource_eq details.bind_resource existing.bind_resource)) [
                | inr differ ↦ inl (true, rw (app, plan, service, differ))
                | inl resource ↦
                    rw (app, plan, service, resource)
                      (parameters_conflict-Answers E details.parameters existing.parameters)
              ]
        ]
      ]
    ]
