-- ===== src/Main/Start.antt =====
-- `createServer` of main.go: what a process serves with.
use mathlib.Core.Path.{subst}
use nfsbroker.Base.{
  String, ◌≡◌, ◌≢◌, ◌∙◌, refl, sym, ap, true, false, Option, ◌⊎◌, inl, inr, ◌==◌, Bool-cases,
}
use nfsbroker.Api.{Error, Outcome, ok, err, panic, ◌>>=◌}
use nfsbroker.Config.{ConfigDetails, new_config, new_config_details}
use nfsbroker.Config.Read.{read_conf}
use nfsbroker.Config.Defaults.{read_conf-ne-err}
use nfsbroker.Externals.{Externals}
use nfsbroker.Store.Sql.Database.{Table, IsDatabase}
use nfsbroker.Store.Sql.Rows.{IsCodec}
use nfsbroker.Store.Choice.{
  Platform, DbParams, NewStore, sql, file, marks, new_store, NewStoreEnds, in_file, in_database,
  uninitialized, unknown_driver, new_store-ends,
}
use nfsbroker.Broker.Types.{Broker}
use nfsbroker.Broker.{new, restored}
use nfsbroker.Main.{
  System, Flags, Environment, Process, db_params, found_params, state_file, with_config, with_store,
  with_params, configured, server, create_server,
}
use nfsbroker.Main.Vcap.{Provides, parse-Provides}

ok_inj : {A : Type 0} {a b : A} → ok a ≡ ok b → a ≡ b
ok_inj e = cc

module _ {J W : Type 0} (sys : System) (P : Platform J W) (E : Externals)
    (rows : W → Table → String → Option J) (f : Flags) (env : Environment)
    (D : IsDatabase rows (marks f.db_driver) P.database) (K : IsCodec P.details_codec) where
  -- The database's parameters are those of the flags and the environment, or what `VCAP_SERVICES`
  -- provides for the service name that is given.
  abbrev pub IsFound : DbParams → Type 0
  IsFound p =
      (((f.cf_service_name == "") ≡ true) × (p ≡ db_params sys P E f env))
      ⊎ (((f.cf_service_name == "") ≡ false)
          × Provides sys f.cf_service_name (db_params sys P E f env) p)

  abbrev file_name : String
  file_name = state_file sys P E f

  -- `Restore` of a store in `w` gives `o`, and leaves the store and the world at the end.
  abbrev pub RestoreGives : NewStore W → W → Outcome (Unit {0}) → NewStore W → W → Type 0
  RestoreGives (sql st v) w o (sql st' v') w' = (st' ≡ st) × (st.restore (v, w) ≡ (o, (v', w')))
  RestoreGives (file st d) w o (file st' d') w' =
      (st' ≡ st)
      × (st.restore (record { dynamic_state = d; disk = w })
          ≡ (o, record { dynamic_state = d'; disk = w' }))
  RestoreGives _ w o _ w' = ⊥

  -- What the process serves with: a store that `NewStore` made for the parameters that are found,
  -- after a restore.
  pub record Runs (w : W) (process : Process W) (w' : W) : Type 0 where
    pub params : DbParams
    pub found : IsFound params
    pub store : NewStore W
    pub made_world : W
    pub created : new_store P E params file_name w ≡ (ok store, made_world)
    pub chosen : NewStoreEnds P E params rows file_name w (ok store, made_world)
    pub restore_ends : Outcome (Unit {0})
    pub restored : RestoreGives store made_world restore_ends process.store w'
    pub mounts : ConfigDetails
    pub read : read_conf new_config_details f.allowed_options f.default_options ≡ ok mounts
    pub config : process.broker.config ≡ new_config mounts
    pub static :
        process.broker.static ≡ record { service_name = f.service_name; service_id = f.service_id }
    pub username : process.username ≡ env.username
    pub password : process.password ≡ env.password
    pub at_address : process.at_address ≡ f.at_address

  -- Why there is no server, with the world that is left.
  pub data CannotStart (w w' : W) : Type 0 where
    no_params : ((p : DbParams) → found_params sys P E f env ≢ ok p) → w' ≡ w → CannotStart w w'
    no_store :
        (p : DbParams)
        → IsFound p
        → new_store P E p file_name w ≡ (panic, w')
        → NewStoreEnds P E p rows file_name w (panic, w')
        → CannotStart w w'
    no_config :
        (p : DbParams) (st : NewStore W)
        → IsFound p
        → new_store P E p file_name w ≡ (ok st, w')
        → read_conf new_config_details f.allowed_options f.default_options ≡ panic
        → CannotStart w w'
    not_restored :
        (p : DbParams) (st st' : NewStore W) (w₁ : W)
        → IsFound p
        → new_store P E p file_name w ≡ (ok st, w₁)
        → RestoreGives st w₁ panic st' w'
        → CannotStart w w'

  abbrev pub Ends : W → Outcome (Process W) × W → Type 0
  Ends w (ok process, w') = Runs w process w'
  Ends w (err e, w') = ⊥
  Ends w (panic, w') = CannotStart w w'

  found-IsFound : (p : DbParams) → found_params sys P E f env ≡ ok p → IsFound p
  found-IsFound p e = elim (Bool-cases (f.cf_service_name == "")) [
    | inl flags ↦ inl (flags, sym (ok_inj (rw flags at e)))
    | inr pushed ↦
        inr (
          pushed,
          parse-Provides sys f.cf_service_name (db_params sys P E f env) p (rw pushed at e),
        )
  ]

  abbrev broker_for : ConfigDetails → Broker
  broker_for m = record {
    static = record { service_name = f.service_name; service_id = f.service_id };
    config = new_config m;
  }

  module _ (w : W) {p : DbParams} {st : NewStore W} {w₁ : W} (found : IsFound p)
      (created : new_store P E p file_name w ≡ (ok st, w₁))
      (chosen : NewStoreEnds P E p rows file_name w (ok st, w₁)) where
    broker_for-Runs :
        {m : ConfigDetails} (o : Outcome (Unit {0})) (st' : NewStore W) (w' : W)
        → read_conf new_config_details f.allowed_options f.default_options ≡ ok m
        → RestoreGives st w₁ o st' w'
        → Runs w
            (record {
              at_address = f.at_address;
              broker = broker_for m;
              store = st';
              username = env.username;
              password = env.password;
            })
            w'
    broker_for-Runs {m} o st' w' read gives = record {
      params = p;
      found = found;
      store = st;
      made_world = w₁;
      created = created;
      chosen = chosen;
      restore_ends = o;
      restored = gives;
      mounts = m;
      read = read;
      config = refl;
      static = refl;
      username = refl;
      password = refl;
      at_address = refl;
    }

    restored-Ends :
        {m : ConfigDetails} (o : Outcome (Unit {0})) (st' : NewStore W) (w' : W)
        → read_conf new_config_details f.allowed_options f.default_options ≡ ok m
        → RestoreGives st w₁ o st' w'
        → Ends w (server sys P E f env (restored (broker_for m) o >>= (λ b. ok (b, st'))), w')
    restored-Ends (ok u) st' w' read gives = broker_for-Runs (ok u) st' w' read gives
    restored-Ends (err e) st' w' read gives = broker_for-Runs (err e) st' w' read gives
    restored-Ends panic st' w' read gives = not_restored p st st' w₁ found created gives

  config-Ends :
      (w : W) {p : DbParams} (m : ConfigDetails) (st : NewStore W) (w₁ : W)
      → IsFound p
      → new_store P E p file_name w ≡ (ok st, w₁)
      → NewStoreEnds P E p rows file_name w (ok st, w₁)
      → read_conf new_config_details f.allowed_options f.default_options ≡ ok m
      → Ends w (with_config sys P E f env (ok m) st w₁)
  unfolding new
  config-Ends w m (sql st v) w₁ found created chosen read =
      restored-Ends w found created chosen (st.restore (v, w₁)).0 (sql st _) _ read (refl, refl)
  config-Ends w m (file st d) w₁ found created chosen read =
      restored-Ends w found created chosen (st.restore (record { dynamic_state = d; disk = w₁ })).0
        (file st _) _ read (refl, refl)

  read-Ends :
      (w : W) {p : DbParams} (o : Outcome ConfigDetails) (st : NewStore W) (w₁ : W)
      → IsFound p
      → new_store P E p file_name w ≡ (ok st, w₁)
      → NewStoreEnds P E p rows file_name w (ok st, w₁)
      → read_conf new_config_details f.allowed_options f.default_options ≡ o
      → Ends w (with_config sys P E f env (configured new_config_details o) st w₁)
  read-Ends w (ok m) st w₁ found created chosen read =
      config-Ends w m st w₁ found created chosen read
  read-Ends w (err e) st w₁ found created chosen read =
      absurd (read_conf-ne-err new_config_details f.allowed_options f.default_options e read)
  read-Ends w {p} panic st w₁ found created chosen read = no_config p st found created read

  store_never_err :
      {p : DbParams} {w w₁ : W} {x : Error} {r : Outcome (NewStore W) × W}
      → NewStoreEnds P E p rows file_name w r
      → r ≢ (err x, w₁)
  store_never_err (in_file d lawful e) same = absurd (let h = ap (λ q. q.0) (sym e ∙ same) in cc)
  store_never_err (in_database v v' w' n i lawful e) same =
      absurd (let h = ap (λ q. q.0) (sym e ∙ same) in cc)
  store_never_err (uninitialized v v' w' o n i ne e) same =
      absurd (let h = ap (λ q. q.0) (sym e ∙ same) in cc)
  store_never_err (unknown_driver a b c e) same =
      absurd (let h = ap (λ q. q.0) (sym e ∙ same) in cc)

  store-Ends :
      (w : W) {p : DbParams} (r : Outcome (NewStore W) × W)
      → IsFound p
      → new_store P E p file_name w ≡ r
      → NewStoreEnds P E p rows file_name w r
      → Ends w (with_store sys P E f env r)
  store-Ends w (ok st, w₁) found created chosen = read-Ends w _ st w₁ found created chosen refl
  store-Ends w (err e, w₁) found created chosen = absurd (store_never_err chosen refl)
  store-Ends w {p} (panic, w₁) found created chosen = no_store p found created chosen

  -- The driver is the flag's, also where the other parameters are found in the environment.
  found-driver : (p : DbParams) → IsFound p → p.db_driver ≡ f.db_driver
  found-driver p (inl (flags, same)) = ap (λ q. q.db_driver) same
  found-driver p (inr (pushed, provided)) = provided.filled.driver

  params-Ends :
      (w : W) (o : Outcome DbParams)
      → found_params sys P E f env ≡ o
      → Ends w (with_params sys P E f env o w)
  params-Ends w (ok p) e =
      let found = found-IsFound p e in
      store-Ends w _ found refl (
        new_store-ends P E p rows
          (subst (λ d. IsDatabase rows (marks d) P.database) (sym (found-driver p found)) D) K
          file_name w)
  params-Ends w (err x) e = no_params (λ p same. cc) refl
  params-Ends w panic e = no_params (λ p same. cc) refl

  -- `createServer` returns a server with the broker's name and identifier of the flags, with the mount
  -- configuration that `ReadConf` reads from them, with the store that `NewStore` makes for the
  -- database's parameters of the flags or of `VCAP_SERVICES`, after a restore, and with the
  -- credentials of the environment; or it panics, and then these parameters, the store, the
  -- configuration or the restore is what failed. The database has the two tables and reads the
  -- driver's placeholders, and the encoding keeps what is stored. It never ends with an error.
  pub create_server-Ends : (w : W) → Ends w (create_server sys P E f env w)
  unfolding create_server
  create_server-Ends w = params-Ends w _ refl
