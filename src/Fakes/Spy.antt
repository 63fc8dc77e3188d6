-- ===== src/Fakes/Spy.antt =====
-- A double of nfsbrokerfakes/fake_store.go whose stubs are the methods of a store.
use nfsbroker.Base.{String, ◌≡◌, refl, ap, ◌∙◌, Option, none, some}
use nfsbroker.Api.{Error, Outcome, ok, err, panic}
use nfsbroker.Exec.{Exec}
use nfsbroker.Externals.{Externals}
use nfsbroker.Store.{Store}
use nfsbroker.Store.Sql.{empty_details}
use nfsbroker.Broker.Types.{Broker}
use nfsbroker.Broker.Requests.{Request, handle}
use nfsbroker.Broker.Server.{answer}
use nfsbroker.Broker.Simulation.{Simulates}
use nfsbroker.Broker.Simulation.Sequences.{salt_of, request-Follows}
use nfsbroker.Fakes.{Faked, reply}
use nfsbroker.Fakes.Store.{FakeStore, fake_store, no_instance, value_or_error, error_only}
use nfsbroker.Fakes.Trace.{
  StoreCall, retrieve_instance, retrieve_binding, delete_instance, delete_binding, create_instance,
  instance_conflict, create_binding, binding_conflict, save, note,
}

-- A Go pair for an outcome.
abbrev pub pair_of : {A : Type 0} → A → Outcome A → Outcome (A × Option Error)
pair_of zero_value (ok a) = ok (a, none)
pair_of zero_value (err e) = ok (zero_value, some e)
pair_of zero_value panic = panic

abbrev pub error_of : Outcome (Unit {0}) → Outcome (Option Error)
error_of (ok u) = ok none
error_of (err e) = ok (some e)
error_of panic = panic

value_or_error-pair_of :
    {A : Type 0} (zero_value : A) (o : Outcome A) → value_or_error (pair_of zero_value o) ≡ o
value_or_error-pair_of zero_value (ok a) = refl
value_or_error-pair_of zero_value (err e) = refl
value_or_error-pair_of zero_value panic = refl

error_only-error_of : (o : Outcome (Unit {0})) → error_only (error_of o) ≡ o
error_only-error_of (ok u) = refl
error_only-error_of (err e) = refl
error_only-error_of panic = refl

-- A call of a store as a stub.
abbrev pub value_stub : {W A : Type 0} → A → Exec W A → Exec W (A × Option Error)
value_stub zero_value m w = let (o, w') = m w in (pair_of zero_value o, w')

abbrev pub error_stub : {W : Type 0} → Exec W (Unit {0}) → Exec W (Option Error)
error_stub m w = let (o, w') = m w in (error_of o, w')

module _ {W : Type 0} (salt : String) (st : Store W) where
  -- The stubs of a fake are the methods of the store, which draws this salt.
  abbrev pub Spies : FakeStore W → Type 0
  Spies f =
      (f.retrieve_instance_details.stub
        ≡ some (λ id. value_stub no_instance (st.retrieve_instance_details id)))
      × (f.retrieve_binding_details.stub
          ≡ some (λ id. value_stub empty_details (st.retrieve_binding_details id)))
      × (f.create_instance_details.stub
          ≡ some (λ a. error_stub (st.create_instance_details a.0 a.1)))
      × (f.create_binding_details.stub
          ≡ some (λ a. error_stub (st.create_binding_details salt a.0 a.1)))
      × (f.delete_instance_details.stub ≡ some (λ id. error_stub (st.delete_instance_details id)))
      × (f.delete_binding_details.stub ≡ some (λ id. error_stub (st.delete_binding_details id)))
      × (f.is_instance_conflict.stub ≡ some (λ a. st.is_instance_conflict a.0 a.1))
      × (f.is_binding_conflict.stub ≡ some (λ a. st.is_binding_conflict a.0 a.1))
      × (f.save.stub ≡ some (λ u. error_stub st.save))

  note-Spies : (c : StoreCall) (f : FakeStore W) → Spies f → Spies (note c f)
  note-Spies (retrieve_instance id) f p = p
  note-Spies (retrieve_binding id) f p = p
  note-Spies (delete_instance id) f p = p
  note-Spies (delete_binding id) f p = p
  note-Spies (create_instance id d) f p = p
  note-Spies (instance_conflict id d) f p = p
  note-Spies (create_binding id d) f p = p
  note-Spies (binding_conflict id d) f p = p
  note-Spies save f p = p

  -- A fake that spies on the store, over the same world.
  abbrev pub Beside : Faked (FakeStore W) W → W → Type 0
  Beside s w = Spies s.fake × (s.world ≡ w)

  module _ {A R : Type 0} (a : A) (returns : R) {stub : Option (A → Exec W R)} {m : A → Exec W R}
      (spies : stub ≡ some m) {v w : W} (same : v ≡ w) where
    spied-outcome : (reply stub returns a v).0 ≡ (m a w).0
    spied-outcome = rw (spies, same) refl

    spied-world : (reply stub returns a v).1 ≡ (m a w).1
    spied-world = rw (spies, same) refl

  spy-Simulates : Simulates Beside salt fake_store st
  spy-Simulates = record {
    retrieve_instance = λ id s w p. (
      ap value_or_error (spied-outcome id _ p.0.0 p.1)
          ∙ value_or_error-pair_of no_instance (st.retrieve_instance_details id w).0,
      (note-Spies (retrieve_instance id) s.fake p.0, spied-world id _ p.0.0 p.1),
    );
    retrieve_binding = λ id s w p. (
      ap value_or_error (spied-outcome id _ p.0.1 p.1)
          ∙ value_or_error-pair_of empty_details (st.retrieve_binding_details id w).0,
      (note-Spies (retrieve_binding id) s.fake p.0, spied-world id _ p.0.1 p.1),
    );
    create_instance = λ id d s w p. (
      ap error_only (spied-outcome (id, d) _ p.0.2 p.1)
          ∙ error_only-error_of (st.create_instance_details id d w).0,
      (note-Spies (create_instance id d) s.fake p.0, spied-world (id, d) _ p.0.2 p.1),
    );
    create_binding = λ id d s w p. (
      ap error_only (spied-outcome (id, d) _ p.0.3 p.1)
          ∙ error_only-error_of (st.create_binding_details salt id d w).0,
      (note-Spies (create_binding id d) s.fake p.0, spied-world (id, d) _ p.0.3 p.1),
    );
    delete_instance = λ id s w p. (
      ap error_only (spied-outcome id _ p.0.4 p.1)
          ∙ error_only-error_of (st.delete_instance_details id w).0,
      (note-Spies (delete_instance id) s.fake p.0, spied-world id _ p.0.4 p.1),
    );
    delete_binding = λ id s w p. (
      ap error_only (spied-outcome id _ p.0.5 p.1)
          ∙ error_only-error_of (st.delete_binding_details id w).0,
      (note-Spies (delete_binding id) s.fake p.0, spied-world id _ p.0.5 p.1),
    );
    instance_conflict = λ id d s w p. (
      spied-outcome (id, d) _ p.0.6 p.1,
      (note-Spies (instance_conflict id d) s.fake p.0, spied-world (id, d) _ p.0.6 p.1),
    );
    binding_conflict = λ id d s w p. (
      spied-outcome (id, d) _ p.0.7 p.1,
      (note-Spies (binding_conflict id d) s.fake p.0, spied-world (id, d) _ p.0.7 p.1),
    );
    save = λ s w p. (
      ap error_only (spied-outcome tt _ p.0.8 p.1) ∙ error_only-error_of (st.save w).0,
      (note-Spies save s.fake p.0, spied-world tt _ p.0.8 p.1),
    );
  }

module _ (E : Externals) {W : Type 0} (st : Store W) (b : Broker) where
  -- A broker over a fake whose stubs are the methods of a store answers a request as the broker over
  -- that store, leaves the store's state as it does, and its stubs as they were.
  pub request_spied :
      (q : Request) (s : Faked (FakeStore W) W)
      → Spies (salt_of q) st s.fake
      → (answer E fake_store b q s ≡ answer E st b q s.world)
        × Spies (salt_of q) st (handle E fake_store b q s).fake
        × ((handle E fake_store b q s).world ≡ handle E st b q s.world)
  request_spied q s p =
      let (same, (spies, world)) =
        request-Follows E (Beside (salt_of q) st) fake_store st b q (spy-Simulates (salt_of q) st) s
          s.world (p, refl) in
      (same, spies, world)
