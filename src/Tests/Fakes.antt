-- ===== src/Tests/Fakes.antt =====
-- The doubles of nfsbrokerfakes, as nfsbroker/nfsbroker_test.go uses them.
use nfsbroker.Base.{String, Option, ◌≡◌, refl, none, some, List, [], ◌∷◌, false}
use nfsbroker.Api.{Error, instance_does_not_exist, ok}
use nfsbroker.Store.Sql.{empty_details}
use nfsbroker.Store.File.{FileStore}
use nfsbroker.Broker.Requests.{to_bind, handle}
use nfsbroker.Broker.Server.{answer}
use nfsbroker.Fakes.{Faked}
use nfsbroker.Fakes.History.{Use, calls, returns, use_all, Behaves, use_all-Behaves}
use nfsbroker.Fakes.Store.{FakeStore, fake_store, new_fake_store, no_instance}
use nfsbroker.Fakes.Trace.Handlers.{Records, handle-Records}
use nfsbroker.Fakes.Spy.{Spies, value_stub, error_stub, request_spied}
use nfsbroker.Tests.Samples.{externals, store, broker_a, details_a, provisioned_a}

-- What a test does with `Save`: a call that succeeds, and one that fails.
abbrev uses : List (Use (Unit {0}) (Unit {0}) (Option Error))
uses = calls tt ∷ returns (some instance_does_not_exist) ∷ calls tt ∷ []

abbrev idle : Faked (FakeStore (Unit {0})) (Unit {0})
idle = record { fake = new_fake_store; world = tt }

use_all-Behaves_example :
    Behaves {F = FakeStore (Unit {0})}
      (λ f. f.save)
      (λ m f. record f { save = m })
      (record { get-set = λ m f. refl })
      (tt ∷ tt ∷ [])
      (λ a w. (ok (some instance_does_not_exist), w))
      (use_all
        (λ f. f.save)
        (λ m f. record f { save = m })
        (record { get-set = λ m f. refl })
        uses
        idle).fake
use_all-Behaves_example =
    use_all-Behaves (λ f. f.save) (λ m f. record f { save = m }) (record { get-set = λ m f. refl })
      uses none idle refl

-- A binding of an application over a new fake, which finds an instance and no conflict.
handle-Records_example : Records externals broker_a (to_bind "salt" "a" "binding" details_a) idle
handle-Records_example =
    handle-Records externals broker_a (to_bind "salt" "a" "binding" details_a) idle

-- A fake that spies on the file store.
abbrev spy : Faked (FakeStore (FileStore String)) (FileStore String)
spy = record {
  fake = record new_fake_store {
    retrieve_instance_details = record {
      stub = some (λ id. value_stub no_instance (store.retrieve_instance_details id));
      args_for_call = [];
      returns = (no_instance, none);
    };
    retrieve_binding_details = record {
      stub = some (λ id. value_stub empty_details (store.retrieve_binding_details id));
      args_for_call = [];
      returns = (empty_details, none);
    };
    create_instance_details = record {
      stub = some (λ a. error_stub (store.create_instance_details a.0 a.1));
      args_for_call = [];
      returns = none;
    };
    create_binding_details = record {
      stub = some (λ a. error_stub (store.create_binding_details "salt" a.0 a.1));
      args_for_call = [];
      returns = none;
    };
    delete_instance_details = record {
      stub = some (λ id. error_stub (store.delete_instance_details id));
      args_for_call = [];
      returns = none;
    };
    delete_binding_details = record {
      stub = some (λ id. error_stub (store.delete_binding_details id));
      args_for_call = [];
      returns = none;
    };
    is_instance_conflict = record {
      stub = some (λ a. store.is_instance_conflict a.0 a.1);
      args_for_call = [];
      returns = false;
    };
    is_binding_conflict = record {
      stub = some (λ a. store.is_binding_conflict a.0 a.1);
      args_for_call = [];
      returns = false;
    };
    save = record { stub = some (λ u. error_stub store.save); args_for_call = []; returns = none };
  };
  world = provisioned_a;
}

request_spied_example :
    let q = to_bind "salt" "a" "binding" details_a in
    (answer externals fake_store broker_a q spy ≡ answer externals store broker_a q provisioned_a)
    × Spies "salt" store (handle externals fake_store broker_a q spy).fake
    × ((handle externals fake_store broker_a q spy).world
        ≡ handle externals store broker_a q provisioned_a)
request_spied_example =
    request_spied externals store broker_a (to_bind "salt" "a" "binding" details_a) spy
      (refl, refl, refl, refl, refl, refl, refl, refl, refl)
