-- ===== src/Broker/Reference.antt =====
-- A reference for the store of nfsbroker/nfsbroker.go: two maps that are functions, with no disk and
-- no database, whose calls fail only where the program says so.
pub mod File
pub mod Tables
pub mod Sql
use nfsbroker.Base.{
  String, ◌<>◌, ◌≡◌, refl, ap, ◌∙◌, Bool, false, not, Option, none, some, List, inl, inr, ◌⊎◌, ◌==◌,
  if◌then◌else◌, Option-cases, Sum-cases,
}
use nfsbroker.Base.Dict.{lookup, put, erase, lookup-put, lookup-erase}
use nfsbroker.Api.{Error, message, Outcome, ok, err, ServiceInstance, instance_eq, BindDetails}
use nfsbroker.Exec.{Exec}
use nfsbroker.Externals.{Externals}
use nfsbroker.Store.{
  Store, redact_binding_details, conflicts_with, is_binding_conflict, conflict_found,
}
use nfsbroker.Store.File.{
  FileStore, Ioutil, StateCodec, save, file_store, retrieve_instance_details,
  retrieve_binding_details, create_instance_details, create_binding_details,
  delete_instance_details, delete_binding_details, is_instance_conflict, differs_from,
}
use nfsbroker.Broker.Types.{Broker}
use nfsbroker.Broker.Healthy.{IsHealthy, save-ok}
use nfsbroker.Broker.Requests.{Request}
use nfsbroker.Broker.Simulation.{Follows, Simulates}
use nfsbroker.Broker.Simulation.Sequences.{serve_all, serve_all-Follows}

pub record Maps : Type 0 where
  pub instances : String → Option ServiceInstance
  pub bindings : String → Option BindDetails

-- The function with one value changed.
abbrev pub with_value : {A : Type 0} → String → A → (String → A) → String → A
with_value id v f k = if id == k then v else f k

-- What is there, or an error.
abbrev pub found : {A : Type 0} → String → Option A → Outcome A
found id none = err (message (id <> " Not Found."))
found id (some a) = ok a

-- Whether a conflict is found in an instance, or a binding.
abbrev pub instance_differs : Option ServiceInstance → ServiceInstance → Bool
instance_differs none d = false
instance_differs (some existing) d = not (instance_eq d existing)

abbrev pub binding_differs : Externals → Option BindDetails → BindDetails → Outcome Bool
binding_differs E none d = ok false
binding_differs E (some existing) d = conflicts_with E existing d

abbrev pub removed : {A : Type 0} → String → Option A → Maps → Maps → Outcome (Unit {0}) × Maps
removed id none m m' = (err (message (id <> " Not Found.")), m)
removed id (some a) m m' = (ok tt, m')

abbrev pub added : Error ⊎ BindDetails → (BindDetails → Maps) → Maps → Outcome (Unit {0}) × Maps
added (inl e) f m = (err e, m)
added (inr stored) f m = (ok tt, f stored)

-- The store of two functions.
abbrev pub map_store : Externals → Store Maps
map_store E = record {
  retrieve_instance_details = λ id m. (found id (m.instances id), m);
  retrieve_binding_details = λ id m. (found id (m.bindings id), m);
  create_instance_details =
      λ id d m. (ok tt, record m { instances = with_value id (some d) m.instances });
  create_binding_details = λ salt id d m.
      added (redact_binding_details E salt d)
        (λ stored. record m { bindings = with_value id (some stored) m.bindings }) m;
  delete_instance_details = λ id m.
      removed id (m.instances id) m (record m { instances = with_value id none m.instances });
  delete_binding_details =
      λ id m. removed id (m.bindings id) m (record m { bindings = with_value id none m.bindings });
  is_instance_conflict = λ id d m. (ok (instance_differs (m.instances id) d), m);
  is_binding_conflict = λ id d m. (binding_differs E (m.bindings id) d, m);
  restore = λ m. (ok tt, m);
  save = λ m. (ok tt, m);
  cleanup = λ m. (ok tt, m);
}
