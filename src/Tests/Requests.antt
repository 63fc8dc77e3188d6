-- ===== src/Tests/Requests.antt =====
-- Sequences of requests to a broker over a file store.
use nfsbroker.Base.{String, ◌≡◌, refl, false, some, List, [], ◌∷◌, string_dec}
use nfsbroker.Base.Dict.{lookup}
use nfsbroker.Api.{BindDetails}
use nfsbroker.Store.File.{FileStore}
use nfsbroker.Store.File.Writes.{file_view}
use nfsbroker.Broker.Requests.{
  Request, to_provision, to_deprovision, to_bind, to_unbind, handle, Reaches, start, after,
}
use nfsbroker.Store.{is_redacted}
use nfsbroker.Broker.Sound.{IsSound, reaches-IsSound}
use nfsbroker.Broker.Lifetimes.{SameSubject, reaches-instance, reaches-binding}
use nfsbroker.Tests.Samples.{
  externals, store, lawful, start as empty, instance_a, request_a, details_a, stored_a, broker_a,
}

-- A state with an instance and a binding of it.
abbrev bound_a : FileStore String
bound_a = record {
  dynamic_state = record {
    instance_map = ("a", instance_a) ∷ [];
    binding_map = ("binding", stored_a) ∷ [];
  };
  disk = "state";
}

-- The newest request stands first.
abbrev requests_a : List Request
requests_a =
    to_bind "other" "a" "binding" details_a
    ∷ to_unbind "a" "other"
    ∷ to_deprovision "b" false
    ∷ to_provision "a" request_a false
    ∷ []

abbrev end_a : FileStore String
end_a = handle externals store broker_a (to_bind "other" "a" "binding" details_a) (
    handle externals store broker_a (to_unbind "a" "other") (
      handle externals store broker_a (to_deprovision "b" false)
        (handle externals store broker_a (to_provision "a" request_a false) bound_a)))

abbrev reaches_a : Reaches externals store broker_a bound_a requests_a end_a
reaches_a = after _ (after _ (after _ (after _ start)))

empty-IsSound : IsSound externals file_view empty
unfolding lookup
empty-IsSound = record { shares = λ k d e. cc; hidden = λ k d e. cc }

-- A provision, and a bind to what it provisioned.
abbrev bound_e : FileStore String
bound_e =
    handle externals store broker_a (to_bind "salt" "a" "binding" details_a)
      (handle externals store broker_a (to_provision "a" request_a false) empty)

reaches-IsSound_example : IsSound externals file_view bound_e
unfolding is_redacted
reaches-IsSound_example =
    reaches-IsSound externals store file_view lawful broker_a
      (after (to_bind "salt" "a" "binding" details_a)
        (after (to_provision "a" request_a false) start))
      (refl, (tt, tt)) empty-IsSound

reaches-instance_example : lookup "a" end_a.dynamic_state.instance_map ≡ some instance_a
unfolding string_dec lookup
reaches-instance_example =
    reaches-instance externals store file_view lawful broker_a "a" instance_a reaches_a refl refl

reaches-binding_example :
    (d : BindDetails) × (lookup "binding" end_a.dynamic_state.binding_map ≡ some d)
    × SameSubject stored_a d
unfolding string_dec lookup
reaches-binding_example =
    reaches-binding externals store file_view lawful broker_a "binding" stored_a reaches_a refl refl
