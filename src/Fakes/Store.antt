-- ===== src/Fakes/Store.antt =====
-- nfsbrokerfakes/fake_store.go: a double of the `Store` interface. The logger is left out of the
-- arguments, as everywhere. The salt that a store draws to redact a binding is no argument of a fake.
use nfsbroker.Base.{String, Bool, false, Option, none, some}
use nfsbroker.Api.{Error, Outcome, ok, err, panic, ServiceInstance, BindDetails}
use nfsbroker.Store.{Store}
use nfsbroker.Store.Sql.{empty_details}
use nfsbroker.Fakes.{Method, fresh, Faked, Double, double}

-- `nfsbroker.ServiceInstance{}`
abbrev pub no_instance : ServiceInstance
no_instance = record {
  service_id = "";
  plan_id = "";
  organization_guid = "";
  space_guid = "";
  share = "";
}

-- `FakeStore`
pub record FakeStore (W : Type 0) : Type 0 where
  pub retrieve_instance_details : Method W String (ServiceInstance × Option Error)
  pub retrieve_binding_details : Method W String (BindDetails × Option Error)
  pub create_instance_details : Method W (String × ServiceInstance) (Option Error)
  pub create_binding_details : Method W (String × BindDetails) (Option Error)
  pub delete_instance_details : Method W String (Option Error)
  pub delete_binding_details : Method W String (Option Error)
  pub is_instance_conflict : Method W (String × ServiceInstance) Bool
  pub is_binding_conflict : Method W (String × BindDetails) Bool
  pub restore : Method W (Unit {0}) (Option Error)
  pub save : Method W (Unit {0}) (Option Error)
  pub cleanup : Method W (Unit {0}) (Option Error)

-- `new(FakeStore)`
abbrev pub new_fake_store : {W : Type 0} → FakeStore W
new_fake_store = record {
  retrieve_instance_details = fresh (no_instance, none);
  retrieve_binding_details = fresh (empty_details, none);
  create_instance_details = fresh none;
  create_binding_details = fresh none;
  delete_instance_details = fresh none;
  delete_binding_details = fresh none;
  is_instance_conflict = fresh false;
  is_binding_conflict = fresh false;
  restore = fresh none;
  save = fresh none;
  cleanup = fresh none;
}

-- A Go pair of a value and an error.
abbrev pub value_or_error : {A : Type 0} → Outcome (A × Option Error) → Outcome A
value_or_error (ok (a, none)) = ok a
value_or_error (ok (a, some e)) = err e
value_or_error (err e) = err e
value_or_error panic = panic

abbrev pub error_only : Outcome (Option Error) → Outcome (Unit {0})
error_only (ok none) = ok tt
error_only (ok (some e)) = err e
error_only (err e) = err e
error_only panic = panic

module _ {W : Type 0} where
  -- `RetrieveInstanceDetails` and the functions beside it
  abbrev pub retrieve_instance_details_double :
      Double (FakeStore W) W String (ServiceInstance × Option Error)
  retrieve_instance_details_double =
      double (λ f. f.retrieve_instance_details) (λ m f. record f { retrieve_instance_details = m })

  -- `RetrieveBindingDetails` and the functions beside it
  abbrev pub retrieve_binding_details_double :
      Double (FakeStore W) W String (BindDetails × Option Error)
  retrieve_binding_details_double =
      double (λ f. f.retrieve_binding_details) (λ m f. record f { retrieve_binding_details = m })

  -- `CreateInstanceDetails` and the functions beside it
  abbrev pub create_instance_details_double :
      Double (FakeStore W) W (String × ServiceInstance) (Option Error)
  create_instance_details_double =
      double (λ f. f.create_instance_details) (λ m f. record f { create_instance_details = m })

  -- `CreateBindingDetails` and the functions beside it
  abbrev pub create_binding_details_double :
      Double (FakeStore W) W (String × BindDetails) (Option Error)
  create_binding_details_double =
      double (λ f. f.create_binding_details) (λ m f. record f { create_binding_details = m })

  -- `DeleteInstanceDetails` and the functions beside it
  abbrev pub delete_instance_details_double : Double (FakeStore W) W String (Option Error)
  delete_instance_details_double =
      double (λ f. f.delete_instance_details) (λ m f. record f { delete_instance_details = m })

  -- `DeleteBindingDetails` and the functions beside it
  abbrev pub delete_binding_details_double : Double (FakeStore W) W String (Option Error)
  delete_binding_details_double =
      double (λ f. f.delete_binding_details) (λ m f. record f { delete_binding_details = m })

  -- `IsInstanceConflict` and the functions beside it
  abbrev pub is_instance_conflict_double : Double (FakeStore W) W (String × ServiceInstance) Bool
  is_instance_conflict_double =
      double (λ f. f.is_instance_conflict) (λ m f. record f { is_instance_conflict = m })

  -- `IsBindingConflict` and the functions beside it
  abbrev pub is_binding_conflict_double : Double (FakeStore W) W (String × BindDetails) Bool
  is_binding_conflict_double =
      double (λ f. f.is_binding_conflict) (λ m f. record f { is_binding_conflict = m })

  -- `Restore` and the functions beside it
  abbrev pub restore_double : Double (FakeStore W) W (Unit {0}) (Option Error)
  restore_double = double (λ f. f.restore) (λ m f. record f { restore = m })

  -- `Save` and the functions beside it
  abbrev pub save_double : Double (FakeStore W) W (Unit {0}) (Option Error)
  save_double = double (λ f. f.save) (λ m f. record f { save = m })

  -- `Cleanup` and the functions beside it
  abbrev pub cleanup_double : Double (FakeStore W) W (Unit {0}) (Option Error)
  cleanup_double = double (λ f. f.cleanup) (λ m f. record f { cleanup = m })

  -- The fake as a `Store`
  abbrev pub fake_store : Store (Faked (FakeStore W) W)
  fake_store = record {
    retrieve_instance_details =
        λ id s. let (o, t) = retrieve_instance_details_double.call id s in (value_or_error o, t);
    retrieve_binding_details =
        λ id s. let (o, t) = retrieve_binding_details_double.call id s in (value_or_error o, t);
    create_instance_details =
        λ id d s. let (o, t) = create_instance_details_double.call (id, d) s in (error_only o, t);
    create_binding_details = λ salt id d s.
        let (o, t) = create_binding_details_double.call (id, d) s in (error_only o, t);
    delete_instance_details =
        λ id s. let (o, t) = delete_instance_details_double.call id s in (error_only o, t);
    delete_binding_details =
        λ id s. let (o, t) = delete_binding_details_double.call id s in (error_only o, t);
    is_instance_conflict = λ id d. is_instance_conflict_double.call (id, d);
    is_binding_conflict = λ id d. is_binding_conflict_double.call (id, d);
    restore = λ s. let (o, t) = restore_double.call tt s in (error_only o, t);
    save = λ s. let (o, t) = save_double.call tt s in (error_only o, t);
    cleanup = λ s. let (o, t) = cleanup_double.call tt s in (error_only o, t);
  }
