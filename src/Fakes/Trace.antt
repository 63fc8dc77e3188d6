-- ===== src/Fakes/Trace.antt =====
-- The calls that the handlers of nfsbroker/nfsbroker.go make of a store, as its double in
-- nfsbrokerfakes/fake_store.go records them.
pub mod Handlers
use nfsbroker.Base.{
  String, ◌≡◌, refl, sym, ap, ◌∙◌, Bool, true, false, List, [], ◌∷◌, ◌++◌, ◌==◌, if◌then◌else◌,
}
use nfsbroker.Api.{Error, Outcome, ok, err, panic, ServiceInstance, BindDetails}
use nfsbroker.Exec.{Exec, continue, with_error, settle, replacing, deferring, lift, raise, ◌>>=◌}
use nfsbroker.Store.{Store}
use nfsbroker.Broker.Restart.{is_ok, is_ok-settle}
use nfsbroker.Fakes.{Faked, Double}
use nfsbroker.Fakes.Store.{
  FakeStore, fake_store, retrieve_instance_details_double, retrieve_binding_details_double,
  create_instance_details_double, create_binding_details_double, delete_instance_details_double,
  delete_binding_details_double, is_instance_conflict_double, is_binding_conflict_double,
  save_double,
}

-- A call of a store.
pub data StoreCall : Type 0 where
  retrieve_instance retrieve_binding delete_instance delete_binding : String → StoreCall
  create_instance instance_conflict : String → ServiceInstance → StoreCall
  create_binding binding_conflict : String → BindDetails → StoreCall
  save : StoreCall

abbrev add : {A : Type 0} → A → List A → List A
add a l = l ++ a ∷ []

module _ {W : Type 0} where
  -- The fake with one more call in the list of its method.
  abbrev pub note : StoreCall → FakeStore W → FakeStore W
  note (retrieve_instance id) f = record f {
    retrieve_instance_details = record f.retrieve_instance_details {
      args_for_call = add id f.retrieve_instance_details.args_for_call;
    };
  }
  note (retrieve_binding id) f = record f {
    retrieve_binding_details = record f.retrieve_binding_details {
      args_for_call = add id f.retrieve_binding_details.args_for_call;
    };
  }
  note (delete_instance id) f = record f {
    delete_instance_details = record f.delete_instance_details {
      args_for_call = add id f.delete_instance_details.args_for_call;
    };
  }
  note (delete_binding id) f = record f {
    delete_binding_details = record f.delete_binding_details {
      args_for_call = add id f.delete_binding_details.args_for_call;
    };
  }
  note (create_instance id d) f = record f {
    create_instance_details = record f.create_instance_details {
      args_for_call = add (id, d) f.create_instance_details.args_for_call;
    };
  }
  note (instance_conflict id d) f = record f {
    is_instance_conflict = record f.is_instance_conflict {
      args_for_call = add (id, d) f.is_instance_conflict.args_for_call;
    };
  }
  note (create_binding id d) f = record f {
    create_binding_details = record f.create_binding_details {
      args_for_call = add (id, d) f.create_binding_details.args_for_call;
    };
  }
  note (binding_conflict id d) f = record f {
    is_binding_conflict = record f.is_binding_conflict {
      args_for_call = add (id, d) f.is_binding_conflict.args_for_call;
    };
  }
  note save f = record f { save = record f.save { args_for_call = add tt f.save.args_for_call } }

  abbrev pub note_all : List StoreCall → FakeStore W → FakeStore W
  note_all [] f = f
  note_all (c ∷ calls) f = note_all calls (note c f)

-- One list of calls is the start of another.
pub data Begins : List StoreCall → List StoreCall → Type 0 where
  nothing : (script : List StoreCall) → Begins [] script
  next :
      (c : StoreCall) {made script : List StoreCall}
      → Begins made script
      → Begins (c ∷ made) (c ∷ script)

module _ {W : Type 0} where
  -- A call, whatever it replies.
  abbrev pub Makes : {A : Type 0} → StoreCall → Exec (Faked (FakeStore W) W) A → Type 0
  Makes c m = (s : Faked (FakeStore W) W) → (m s).1.fake ≡ note c s.fake

  -- The calls of a script are recorded up to some point, and all of them if a value is returned.
  pub record Performs {A : Type 0} (script : List StoreCall) (m : Exec (Faked (FakeStore W) W) A)
      : Type 0 where
    pub performed :
        (s : Faked (FakeStore W) W)
        → (made : List StoreCall) × Begins made script
          × ((m s).1.fake ≡ note_all made s.fake)
          × (is_ok (m s).0 ≡ true → made ≡ script)

  -- The same, with a save at the end in any case.
  pub record Saves {A : Type 0} (script : List StoreCall) (m : Exec (Faked (FakeStore W) W) A)
      : Type 0 where
    pub saved :
        (s : Faked (FakeStore W) W)
        → (made : List StoreCall) × Begins made script
          × ((m s).1.fake ≡ note save (note_all made s.fake))
          × (is_ok (m s).0 ≡ true → made ≡ script)

  module _ {A : Type 0} where
    pub lift-Performs : (o : Outcome A) → Performs [] (lift o)
    lift-Performs o = record { performed = λ s. ([], nothing [], refl, λ e. refl) }

    pub raise-Performs : (script : List StoreCall) (e : Error) → Performs {A = A} script (raise e)
    raise-Performs script e = record {
      performed = λ s. ([], nothing script, refl, λ h. absurd (cc));
    }

    pub call-Performs :
        (c : StoreCall) (m : Exec (Faked (FakeStore W) W) A) → Makes c m → Performs (c ∷ []) m
    call-Performs c m h = record { performed = λ s. (c ∷ [], next c (nothing []), h s, λ e. refl) }

    pub if-Performs :
        (b : Bool) (m n : Exec (Faked (FakeStore W) W) A) (script : List StoreCall)
        → Performs script m
        → Performs script n
        → Performs script (if b then m else n)
    if-Performs true m n script h k = h
    if-Performs false m n script h k = k

  module _ {A B : Type 0} (f : A → Exec (Faked (FakeStore W) W) B) (script : List StoreCall)
      (h : (a : A) → Performs script (f a)) where
    continue-Performs :
        (c : StoreCall) (o : Outcome A) (s t : Faked (FakeStore W) W)
        → t.fake ≡ note c s.fake
        → (made : List StoreCall) × Begins made (c ∷ script)
          × ((continue o f t).1.fake ≡ note_all made s.fake)
          × (is_ok (continue o f t).0 ≡ true → made ≡ c ∷ script)
    continue-Performs c (ok a) s t e =
        let (made, begins, same, whole) = (h a).performed t in
        (c ∷ made, next c begins, same ∙ ap (note_all made) e, λ k. ap (c ∷◌) (whole k))
    continue-Performs c (err x) s t e = (c ∷ [], next c (nothing script), e, λ k. absurd (cc))
    continue-Performs c panic s t e = (c ∷ [], next c (nothing script), e, λ k. absurd (cc))

    pub then-Performs :
        (c : StoreCall) (m : Exec (Faked (FakeStore W) W) A)
        → Makes c m
        → Performs (c ∷ script) (m >>= f)
    then-Performs c m k = record { performed = λ s. continue-Performs c (m s).0 s (m s).1 (k s) }

    pub lift-then-Performs : (o : Outcome A) → Performs script (lift o >>= f)
    lift-then-Performs (ok a) = record { performed = λ s. (h a).performed s }
    lift-then-Performs (err e) = record {
      performed = λ s. ([], nothing script, refl, λ k. absurd (cc));
    }
    lift-then-Performs panic = record {
      performed = λ s. ([], nothing script, refl, λ k. absurd (cc));
    }

pub deferring-Saves :
    {W A : Type 0} (script : List StoreCall) (sv : Exec (Faked (FakeStore W) W) (Unit {0}))
    (m : Exec (Faked (FakeStore W) W) A)
    → Makes save sv
    → Performs script m
    → Saves script (deferring sv m)
deferring-Saves script sv m k h = record {
  saved = λ s.
      let (made, begins, same, whole) = h.performed s in
      (
        made,
        begins,
        k (m s).1 ∙ ap (note save) same,
        λ e. whole (is_ok-settle (m s).0 (sv (m s).1).0 e),
      );
}
