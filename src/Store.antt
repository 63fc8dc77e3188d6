-- ===== src/Store.antt =====
-- nfsbroker/store.go: the `Store` interface over a state `S`, and the two helpers that both stores
-- share: `redactBindingDetails` and `isBindingConflict`. The salt that bcrypt draws is an argument.
pub mod Redact
pub mod Forged
pub mod Laws
pub mod File
pub mod Sql
pub mod Choice
use mathlib.Core.Bool.{not}
use nfsbroker.Base.{
  ℕ, String, Bool, true, false, ◌&&◌, Option, none, some, List, [], ◌∷◌, ◌⊎◌, inl, inr, ◌==◌,
  if◌then◌else◌,
}
use nfsbroker.Base.Dict.{lookup, is_some, length}
use nfsbroker.Api.{
  Value, text, Params, Error, Outcome, ok, err, panic, ServiceInstance, BindDetails, resource_eq,
}
use nfsbroker.Exec.{Exec}
use nfsbroker.Externals.{Externals}

-- `Store`
pub record Store (S : Type 0) : Type 0 where
  pub retrieve_instance_details : String → Exec S ServiceInstance
  pub retrieve_binding_details : String → Exec S BindDetails
  pub create_instance_details : String → ServiceInstance → Exec S Unit
  pub create_binding_details : String → String → BindDetails → Exec S Unit
  pub delete_instance_details : String → Exec S Unit
  pub delete_binding_details : String → Exec S Unit
  pub is_instance_conflict : String → ServiceInstance → Exec S Bool
  pub is_binding_conflict : String → BindDetails → Exec S Bool
  pub restore : Exec S Unit
  pub save : Exec S Unit
  pub cleanup : Exec S Unit

-- `HashKey`
abbrev pub hash_key : String
hash_key = "paramsHash"

-- The test of `redactBindingDetails` for parameters that are redacted already.
unfoldable pub is_redacted : Params → Bool
is_redacted (entry ∷ []) = is_some (lookup hash_key (entry ∷ []))
is_redacted _ = false

module _ (E : Externals) where
  -- `redactBindingDetails` after its two tests.
  abbrev pub hashed : String → BindDetails → Error ⊎ String → Error ⊎ BindDetails
  hashed salt details (inl e) = inl e
  hashed salt details (inr s) = elim (E.generate salt s) [
    | inl e ↦ inl e
    | inr h ↦ inr (record details { parameters = some ((hash_key, text h) ∷ []) })
  ]

  -- `redactBindingDetails`
  unfoldable pub redact_binding_details : String → BindDetails → Error ⊎ BindDetails
  unfolding is_redacted
  redact_binding_details salt details = elim details.parameters [
    | none ↦ inr details
    | some parameters ↦
        if is_redacted parameters then inr details else hashed salt details (E.marshal parameters)
  ]

  -- The comparison of a request's parameters with a stored hash: `h.(string)` panics on any other
  -- value, and on a nil map entry.
  abbrev pub hash_differs : Option Value → String → Outcome Bool
  hash_differs (some (text h)) s = ok (not (E.matches h s))
  hash_differs _ s = panic

  abbrev pub parameters_conflict : Option Params → Option Params → Outcome Bool
  parameters_conflict none none = ok false
  parameters_conflict none (some existing) = ok true
  parameters_conflict (some parameters) none = ok true
  parameters_conflict (some parameters) (some existing) = elim (E.marshal parameters) [
    | inl e ↦ ok true
    | inr s ↦ hash_differs (lookup hash_key existing) s
  ]

  -- `isBindingConflict` after it has found an existing binding.
  unfoldable pub conflicts_with : BindDetails → BindDetails → Outcome Bool
  conflicts_with existing details =
      if not (existing.app_guid == details.app_guid)
      then ok true
      else if not (existing.plan_id == details.plan_id)
      then ok true
      else if not (existing.service_id == details.service_id)
      then ok true
      else if not (resource_eq details.bind_resource existing.bind_resource)
      then ok true
      else parameters_conflict details.parameters existing.parameters

  abbrev pub conflict_found : Outcome BindDetails → BindDetails → Outcome Bool
  conflict_found (ok existing) details = conflicts_with existing details
  conflict_found (err _) details = ok false
  conflict_found panic details = panic

  -- `isBindingConflict`, by the store's way to retrieve a binding.
  unfoldable pub is_binding_conflict :
      {S : Type 0} → (String → Exec S BindDetails) → String → BindDetails → Exec S Bool
  is_binding_conflict retrieve id details s =
      let (o, s') = retrieve id s in (conflict_found o details, s')
