-- ===== src/Broker/Reference/File.antt =====
-- The broker over nfsbroker/store_file.go and over the reference store.
use nfsbroker.Base.{
  String, ◌≡◌, refl, ap, ◌∙◌, Option, none, some, List, inl, inr, Option-cases, Sum-cases,
}
use nfsbroker.Base.Dict.{lookup, lookup-put, lookup-erase}
use nfsbroker.Api.{ok, ServiceInstance, BindDetails}
use nfsbroker.Externals.{Externals}
use nfsbroker.Store.{Store, redact_binding_details, is_binding_conflict, conflict_found}
use nfsbroker.Store.File.{
  FileStore, Ioutil, StateCodec, save, file_store, retrieve_instance_details,
  retrieve_binding_details, create_instance_details, create_binding_details,
  delete_instance_details, delete_binding_details, is_instance_conflict, differs_from,
}
use nfsbroker.Broker.Types.{Broker}
use nfsbroker.Broker.Healthy.{IsHealthy, save-ok}
use nfsbroker.Broker.Requests.{Request}
use nfsbroker.Broker.Simulation.{Follows, Simulates}
use nfsbroker.Broker.Simulation.Sequences.{serve_all, serve_all-Follows}
use nfsbroker.Broker.Reference.{Maps, found, instance_differs, binding_differs, map_store}

module _ {Disk : Type 0} where
  -- The file store holds the values of the two functions.
  pub record Holds (s : FileStore Disk) (m : Maps) : Type 0 where
    pub instances : (k : String) → lookup k s.dynamic_state.instance_map ≡ m.instances k
    pub bindings : (k : String) → lookup k s.dynamic_state.binding_map ≡ m.bindings k

module _ {Disk : Type 0} (ioutil : Ioutil Disk) (codec : StateCodec) (file_name : String)
    (H : IsHealthy ioutil codec) (E : Externals) where
  abbrev st : Store (FileStore Disk)
  st = file_store ioutil codec file_name E

  retrieve_instance-Follows :
      (id : String)
      → Follows Holds (st.retrieve_instance_details id) ((map_store E).retrieve_instance_details id)
  unfolding retrieve_instance_details
  retrieve_instance-Follows id s m r = elim (Option-cases (m.instances id)) [
    | inl missing ↦ rw (r.instances id ∙ missing, missing, retrieve_instance_details) (refl, r)
    | inr (d, held) ↦ rw (r.instances id ∙ held, held, retrieve_instance_details) (refl, r)
  ]

  retrieve_binding-Follows :
      (id : String)
      → Follows Holds (st.retrieve_binding_details id) ((map_store E).retrieve_binding_details id)
  unfolding retrieve_binding_details
  retrieve_binding-Follows id s m r = elim (Option-cases (m.bindings id)) [
    | inl missing ↦ rw (r.bindings id ∙ missing, missing, retrieve_binding_details) (refl, r)
    | inr (d, held) ↦ rw (r.bindings id ∙ held, held, retrieve_binding_details) (refl, r)
  ]

  create_instance-Follows :
      (id : String) (d : ServiceInstance)
      → Follows Holds (st.create_instance_details id d) ((map_store E).create_instance_details id d)
  unfolding create_instance_details
  create_instance-Follows id d s m r = (
    refl,
    record {
      instances = λ k. lookup-put id k d s.dynamic_state.instance_map ∙ rw (r.instances k) refl;
      bindings = r.bindings;
    },
  )

  create_binding-Follows :
      (salt id : String) (d : BindDetails)
      → Follows Holds
          (st.create_binding_details salt id d)
          ((map_store E).create_binding_details salt id d)
  unfolding create_binding_details
  create_binding-Follows salt id d s m r = elim (Sum-cases (redact_binding_details E salt d)) [
    | inl (e, fails) ↦ rw (fails, create_binding_details) (refl, r)
    | inr (stored, redacted) ↦
        rw (redacted, create_binding_details)
          (
            refl,
            record {
              instances = r.instances;
              bindings =
                  λ k. lookup-put id k stored s.dynamic_state.binding_map ∙ rw (r.bindings k) refl;
            },
          )
  ]

  delete_instance-Follows :
      (id : String)
      → Follows Holds (st.delete_instance_details id) ((map_store E).delete_instance_details id)
  unfolding delete_instance_details
  delete_instance-Follows id s m r = elim (Option-cases (m.instances id)) [
    | inl missing ↦ rw (r.instances id ∙ missing, missing, delete_instance_details) (refl, r)
    | inr (d, held) ↦
        rw (r.instances id ∙ held, held, delete_instance_details)
          (
            refl,
            record {
              instances =
                  λ k. lookup-erase id k s.dynamic_state.instance_map ∙ rw (r.instances k) refl;
              bindings = r.bindings;
            },
          )
  ]

  delete_binding-Follows :
      (id : String)
      → Follows Holds (st.delete_binding_details id) ((map_store E).delete_binding_details id)
  unfolding delete_binding_details
  delete_binding-Follows id s m r = elim (Option-cases (m.bindings id)) [
    | inl missing ↦ rw (r.bindings id ∙ missing, missing, delete_binding_details) (refl, r)
    | inr (d, held) ↦
        rw (r.bindings id ∙ held, held, delete_binding_details)
          (
            refl,
            record {
              instances = r.instances;
              bindings =
                  λ k. lookup-erase id k s.dynamic_state.binding_map ∙ rw (r.bindings k) refl;
            },
          )
  ]

  differs_from-found :
      (id : String) (o : Option ServiceInstance) (d : ServiceInstance)
      → differs_from (found id o) d ≡ ok (instance_differs o d)
  differs_from-found id none d = refl
  differs_from-found id (some existing) d = refl

  conflict_found-found :
      (id : String) (o : Option BindDetails) (d : BindDetails)
      → conflict_found E (found id o) d ≡ binding_differs E o d
  conflict_found-found id none d = refl
  conflict_found-found id (some existing) d = refl

  save-Follows : Follows Holds st.save (map_store E).save
  unfolding save
  save-Follows s m r =
      let (saved, same) = save-ok ioutil codec file_name H E s in
      (
        saved,
        record {
          instances = λ k. ap (λ x. lookup k x.instance_map) same ∙ r.instances k;
          bindings = λ k. ap (λ x. lookup k x.binding_map) same ∙ r.bindings k;
        },
      )

  file_store-Simulates : (salt : String) → Simulates Holds salt st (map_store E)
  unfolding is_instance_conflict is_binding_conflict
  file_store-Simulates salt = record {
    retrieve_instance = retrieve_instance-Follows;
    retrieve_binding = retrieve_binding-Follows;
    create_instance = create_instance-Follows;
    create_binding = create_binding-Follows salt;
    delete_instance = delete_instance-Follows;
    delete_binding = delete_binding-Follows;
    instance_conflict = λ id d s m r.
        let (same, after) = retrieve_instance-Follows id s m r in
        (ap (λ o. differs_from o d) same ∙ differs_from-found id (m.instances id) d, after);
    binding_conflict = λ id d s m r.
        let (same, after) = retrieve_binding-Follows id s m r in
        (ap (λ o. conflict_found E o d) same ∙ conflict_found-found id (m.bindings id) d, after);
    save = save-Follows;
  }

  -- Over the file store, on a disk that takes every write and with a form for every state, the
  -- broker gives any sequence of requests the answers of the broker over two functions, and the
  -- store then holds their values.
  pub serve_all-map_store :
      (b : Broker) (qs : List Request) (s : FileStore Disk) (m : Maps)
      → Holds s m
      → ((serve_all E st b qs s).0 ≡ (serve_all E (map_store E) b qs m).0)
        × Holds (serve_all E st b qs s).1 (serve_all E (map_store E) b qs m).1
  serve_all-map_store b qs s m r =
      serve_all-Follows E Holds st (map_store E) b file_store-Simulates qs s m r
