-- ===== src/Store/Forged.antt =====
-- Parameters that look redacted to nfsbroker/store.go, but were sent so by a client.
use nfsbroker.Base.{
  String, ◌≡◌, refl, ◌∙◌, Bool, true, false, some, [], ◌∷◌, inr, arith, string_dec,
}
use nfsbroker.Base.Dict.{lookup, is_some}
use nfsbroker.Api.{Value, text, panic, BindDetails}
use nfsbroker.Externals.{Externals}
use nfsbroker.Store.{
  hash_key, is_redacted, redact_binding_details, parameters_conflict, conflicts_with, hash_differs,
}
use nfsbroker.Store.Redact.{conflicts_with-same}

abbrev pub is_text : Value → Bool
is_text (text s) = true
is_text _ = false

hash_differs_forged :
    (E : Externals) (v : Value) (s : String) → is_text v ≡ false → hash_differs E (some v) s ≡ panic
hash_differs_forged E (text t) s h = absurd (ground arith)
hash_differs_forged E _ s h = refl

-- A request whose only parameter is a `paramsHash` that is no text is stored as it is, and the check
-- of the same request against what is stored of it panics, if its parameters can be encoded.
pub conflicts_with_forged :
    (E : Externals) (salt : String) (d : BindDetails) (v : Value) {s : String}
    → d.parameters ≡ some ((hash_key, v) ∷ [])
    → is_text v ≡ false
    → E.marshal ((hash_key, v) ∷ []) ≡ inr s
    → (redact_binding_details E salt d ≡ inr d) × (conflicts_with E d d ≡ panic)
unfolding redact_binding_details is_redacted lookup is_some string_dec
conflicts_with_forged E salt d v {s} given forged marshalled = (
  rw given refl,
  conflicts_with-same E d d refl refl refl refl
      ∙ rw (given, marshalled, parameters_conflict) (hash_differs_forged E v s forged),
)
