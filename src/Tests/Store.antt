-- ===== src/Tests/Store.antt =====
-- The theorems about redaction, the conflict check and the file store at concrete inputs.
use nfsbroker.Base.{[], ◌∷◌, some, true, ◌≡◌, refl, inr}
use nfsbroker.Api.{BindDetails, panic, boolean}
use nfsbroker.Store.{hash_key, is_redacted, redact_binding_details, conflicts_with}
use nfsbroker.Store.Forged.{conflicts_with_forged}
use nfsbroker.Tests.Samples.{externals, details_a, stored_a}

redacted_a : redact_binding_details externals "salt" details_a ≡ inr stored_a
unfolding redact_binding_details is_redacted
redacted_a = refl

abbrev forged_a : BindDetails
forged_a = record details_a { parameters = some ((hash_key, boolean true) ∷ []) }

conflicts_with_forged_example :
    (redact_binding_details externals "salt" forged_a ≡ inr forged_a)
    × (conflicts_with externals forged_a forged_a ≡ panic)
conflicts_with_forged_example =
    conflicts_with_forged externals "salt" forged_a (boolean true) refl refl refl
