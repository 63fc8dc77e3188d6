-- ===== src/Tests/Cycle.antt =====
-- An instance and its binding over a disk that takes every write.
use nfsbroker.Base.{◌≡◌, refl, inl, inr, false, string_dec, none, List, [], ◌∷◌}
use nfsbroker.Base.Dict.{lookup}
use nfsbroker.Api.{ok}
use nfsbroker.Store.{redact_binding_details, is_redacted}
use nfsbroker.Store.Laws.{Unchanged}
use nfsbroker.Store.File.Writes.{file_view}
use nfsbroker.Broker.{provision, deprovision, bind, unbind}
use nfsbroker.Broker.Healthy.{IsHealthy, CanBind}
use nfsbroker.Broker.Requests.{Request, to_provision, to_deprovision, to_bind, to_unbind}
use nfsbroker.Broker.Simulation.Sequences.{serve_all}
use nfsbroker.Broker.Reference.{Maps, map_store}
use nfsbroker.Broker.Reference.File.{Holds, serve_all-map_store}
use nfsbroker.Broker.Cycle.{CanServe, deprovision-unbind-bind-provision, bind-bind}
use nfsbroker.Tests.Samples.{
  externals, externals-own, instance_a, parameters_a, provisioned_a, ioutil, codec, store, start,
  request_a, details_a, stored_a, broker_a,
}
use nfsbroker.Tests.Broker.{answer_a, made, mode_a}

ioutil-IsHealthy : IsHealthy ioutil codec
ioutil-IsHealthy = record { encodes = λ state. ("state", refl); writes = λ name text disk. refl }

redacted_a : redact_binding_details externals "salt" details_a ≡ inr stored_a
unfolding redact_binding_details is_redacted lookup string_dec
redacted_a = refl

start-CanServe :
    CanServe ioutil codec "services.json" ioutil-IsHealthy externals broker_a start request_a
      details_a "a" "binding" "salt" answer_a
unfolding lookup string_dec
start-CanServe = record {
  share = "server/export?uid=7";
  decoded = refl;
  given = refl;
  new_instance = refl;
  new_binding = refl;
  app = refl;
  mode = "r";
  moded = mode_a;
  stored = stored_a;
  redacted = redacted_a;
  made = made;
}

deprovision-unbind-bind-provision_example :
    let s₁ = (provision externals store "a" request_a false start).1 in
    let s₂ = (bind externals store broker_a "salt" "a" "binding" details_a s₁).1 in
    let s₃ = (unbind externals store "a" "binding" s₂).1 in
    ((provision externals store "a" request_a false start).0 ≡ ok (record { is_async = false }))
    × ((bind externals store broker_a "salt" "a" "binding" details_a s₁).0 ≡ ok answer_a)
    × ((unbind externals store "a" "binding" s₂).0 ≡ ok tt)
    × ((deprovision externals store "a" false s₃).0
        ≡ ok (record { is_async = false; operation_data = "deprovision" }))
    × Unchanged file_view start (deprovision externals store "a" false s₃).1
deprovision-unbind-bind-provision_example =
    deprovision-unbind-bind-provision ioutil codec "services.json" ioutil-IsHealthy externals
      broker_a start request_a details_a "a" "binding" "salt" start-CanServe

provisioned_a-CanBind :
    CanBind ioutil codec "services.json" ioutil-IsHealthy externals provisioned_a broker_a "salt"
      "a" "binding" details_a answer_a stored_a
unfolding lookup string_dec
provisioned_a-CanBind = record {
  instance = instance_a;
  held = refl;
  app = refl;
  mode = "r";
  moded = mode_a;
  clear = inl refl;
  redacted = redacted_a;
  made = made;
}

bind-bind_example :
    let s = (bind externals store broker_a "salt" "a" "binding" details_a provisioned_a).1 in
    (bind externals store broker_a "pepper" "a" "binding" details_a s).0 ≡ ok answer_a
unfolding is_redacted lookup string_dec redact_binding_details
bind-bind_example =
    bind-bind ioutil codec "services.json" ioutil-IsHealthy externals broker_a provisioned_a "salt"
      "pepper" "a" "binding" details_a externals-own (inr (parameters_a, refl, refl))
      provisioned_a-CanBind redacted_a

-- An instance is made and bound, its identifier is asked for again with other details, and it goes.
abbrev pub requests_a : List Request
requests_a =
    to_provision "a" request_a false
    ∷ to_bind "salt" "a" "binding" details_a
    ∷ to_provision "a" (record request_a { plan_id = "Other" }) false
    ∷ to_unbind "a" "binding"
    ∷ to_deprovision "a" false
    ∷ []

abbrev no_maps : Maps
no_maps = record { instances = λ id. none; bindings = λ id. none }

serve_all-map_store_example :
    ((serve_all externals store broker_a requests_a start).0
      ≡ (serve_all externals (map_store externals) broker_a requests_a no_maps).0)
    × Holds
        (serve_all externals store broker_a requests_a start).1
        (serve_all externals (map_store externals) broker_a requests_a no_maps).1
unfolding lookup
serve_all-map_store_example =
    serve_all-map_store ioutil codec "services.json" ioutil-IsHealthy externals broker_a requests_a
      start no_maps (record { instances = λ k. refl; bindings = λ k. refl })
