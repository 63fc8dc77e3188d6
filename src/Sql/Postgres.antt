-- ===== src/Sql/Postgres.antt =====
-- nfsbroker/sql_postgres.go: the connection string and the certificate of a PostgreSQL variant. The
-- driver, the certificate pool and the file system are parameters, over a world `W`.
use nfsbroker.Base.{
  String, ◌<>◌, ◌≡◌, refl, ap, Bool, true, false, Option, none, some, ◌⊎◌, inl, inr, ◌==◌,
  if◌then◌else◌, Bool-cases, Option-cases, Sum-cases, ==-eq,
}
use nfsbroker.Api.{Error, message, Outcome, ok, err}
use nfsbroker.Exec.{Exec, raise, ◌>>=◌, ◌>>◌}

-- `postgresVariant`
pub record PostgresVariant : Type 0 where
  pub db_connection_string : String
  pub ca_cert : String
  pub db_name : String

-- `sqlshim.Sql`, `ioutilshim.Ioutil`, `osshim.Os` and `x509`, as far as the variant calls them. A
-- temporary file goes by its name.
pub record Host (W : Type 0) : Type 0 where
  pub append_certs : String → Bool
  pub temp_file : W → (Error ⊎ String) × W
  pub write_file : String → String → W → Option Error × W
  pub close_file : String → W → Option Error × W
  pub open_sql : String → String → W → Option Error × W
  pub remove : String → W → Option Error × W

-- `NewPostgresVariantWithShims`
unfoldable pub new_postgres_variant :
    String → String → String → String → String → String → PostgresVariant
new_postgres_variant username password host port db_name ca_cert = record {
  db_connection_string =
      "postgres://"
      <> (username
          <> (":" <> (password <> ("@" <> (host <> (":" <> (port <> ("/" <> db_name))))))));
  ca_cert = ca_cert;
  db_name = db_name;
}

abbrev pub ends : Option Error → Outcome (Unit {0})
ends none = ok tt
ends (some e) = err e

module _ {W : Type 0} (host : Host W) where
  -- A call of the host whose error is returned.
  abbrev call : (W → Option Error × W) → Exec (PostgresVariant × W) (Unit {0})
  call f (v, w) = let (e, w') = f w in (ends e, (v, w'))

  abbrev temp_file_of :
      (Error ⊎ String) × W → PostgresVariant → Outcome String × (PostgresVariant × W)
  temp_file_of (inl e, w) v = (err e, (v, w))
  temp_file_of (inr name, w) v = (ok name, (v, w))

  abbrev make_temp : Exec (PostgresVariant × W) String
  make_temp (v, w) = temp_file_of (host.temp_file w) v

  abbrev become : PostgresVariant → Exec (PostgresVariant × W) (Unit {0})
  become v' (v, w) = (ok tt, (v', w))

  -- The variant after its certificate was written to the file `name`.
  abbrev pub secured : PostgresVariant → String → PostgresVariant
  secured v name = record v {
    ca_cert = name;
    db_connection_string = v.db_connection_string <> ("?sslmode=verify-ca&sslrootcert=" <> name);
  }

  abbrev pub unsecured : PostgresVariant → PostgresVariant
  unsecured v = record v { db_connection_string = v.db_connection_string <> "?sslmode=disable" }

  -- `Connect`, up to the call of the driver.
  abbrev prepare : PostgresVariant → Exec (PostgresVariant × W) (Unit {0})
  prepare v =
      if v.ca_cert == ""
      then become (unsecured v)
      else if host.append_certs v.ca_cert
      then (do
        name ← make_temp
        call (host.write_file name v.ca_cert)
        call (host.close_file name)
        become (secured v name))
      else raise (message ("Invalid CA Cert for " <> v.db_name))

  abbrev dial : Exec (PostgresVariant × W) (Unit {0})
  dial (v, w) = call (host.open_sql "postgres" v.db_connection_string) (v, w)

  -- `Connect`
  unfoldable pub connect : Exec (PostgresVariant × W) (Unit {0})
  connect (v, w) = (prepare v >> dial) (v, w)

  -- `Close`
  unfoldable pub close : Exec (PostgresVariant × W) (Unit {0})
  close (v, w) = if v.ca_cert == "" then (ok tt, (v, w)) else call (host.remove v.ca_cert) (v, w)

  -- The driver's call on a variant.
  abbrev opened : PostgresVariant → W → Option Error × W
  opened v w = host.open_sql "postgres" v.db_connection_string w

  connect-unsecured :
      (v : PostgresVariant) (w : W)
      → (v.ca_cert == "") ≡ true
      → connect (v, w)
        ≡ (ends (opened (unsecured v) w).0, (unsecured v, (opened (unsecured v) w).1))
  unfolding connect
  connect-unsecured v w empty = rw empty refl

  -- The world after the certificate was written to `name`.
  abbrev written : PostgresVariant → String → W → W
  written v name w =
      (host.close_file name (host.write_file name v.ca_cert (host.temp_file w).1).1).1

  connect-secured :
      (v : PostgresVariant) (w : W) (name : String)
      → (v.ca_cert == "") ≡ false
      → host.append_certs v.ca_cert ≡ true
      → (host.temp_file w).0 ≡ inr name
      → (host.write_file name v.ca_cert (host.temp_file w).1).0 ≡ none
      → (host.close_file name (host.write_file name v.ca_cert (host.temp_file w).1).1).0 ≡ none
      → connect (v, w) ≡ (
        ends (opened (secured v name) (written v name w)).0,
        (secured v name, (opened (secured v name) (written v name w)).1),
      )
  unfolding connect
  connect-secured v w name given valid made wrote closed =
      rw (given, valid) (rw made (rw wrote (rw closed refl)))

  -- What a success shows, call by call.
  connect-steps :
      (v : PostgresVariant) (w : W)
      → (v.ca_cert == "") ≡ false
      → (connect (v, w)).0 ≡ ok tt
      → (name : String) × (host.append_certs v.ca_cert ≡ true)
        × ((host.temp_file w).0 ≡ inr name)
        × ((host.write_file name v.ca_cert (host.temp_file w).1).0 ≡ none)
        × ((host.close_file name (host.write_file name v.ca_cert (host.temp_file w).1).1).0 ≡ none)
  unfolding connect
  connect-steps v w given h = elim (Bool-cases (host.append_certs v.ca_cert)) [
    | inr invalid ↦ absurd (let h' = rw (given, invalid) at h in cc)
    | inl valid ↦ elim (Sum-cases (host.temp_file w).0) [
      | inl (e, fails) ↦ absurd (let h' = rw (given, valid) at h in let h'' = rw fails at h' in cc)
      | inr (name, made) ↦
          let w₁ = host.write_file name v.ca_cert (host.temp_file w).1 in
          let h₁ = rw (given, valid) at h in
          let h₂ = rw made at h₁ in
          elim (Option-cases w₁.0) [
            | inr (e, fails) ↦ absurd (let h₃ = rw fails at h₂ in cc)
            | inl wrote ↦ elim (Option-cases (host.close_file name w₁.1).0) [
              | inr (e, fails) ↦ absurd (let h₃ = rw wrote at h₂ in let h₄ = rw fails at h₃ in cc)
              | inl closed ↦ (name, valid, made, wrote, closed)
            ]
          ]
    ]
  ]

  -- What a `Connect` that succeeds has done, and what `Close` then does.
  abbrev pub Connected : PostgresVariant → W → Type 0
  Connected v w =
      let r = connect (v, w) in
      ((v.ca_cert ≡ "")
        × (r.1.0 ≡ unsecured v)
        × ((opened (unsecured v) w).0 ≡ none)
        × (close r.1 ≡ (ok tt, r.1)))
      ⊎ ((name : String) × (w' : W) × (w'' : W) × (host.append_certs v.ca_cert ≡ true)
          × (host.temp_file w ≡ (inr name, w'))
          × ((host.write_file name v.ca_cert w').0 ≡ none)
          × (r.1.0 ≡ secured v name)
          × ((opened (secured v name) w'').0 ≡ none)
          × ((name == "") ≡ false → (close r.1).1.1 ≡ (host.remove name r.1.1).1))

  -- If `Connect` succeeds without a certificate, the driver opened the connection string with TLS off,
  -- and `Close` calls nothing. With one, the certificate was valid and was written to a temporary file,
  -- the driver opened the connection string that names this file, and `Close` removes it, if its name
  -- is not empty.
  pub connect-close : (v : PostgresVariant) (w : W) → (connect (v, w)).0 ≡ ok tt → Connected v w
  unfolding close
  connect-close v w h = elim (Bool-cases (v.ca_cert == "")) [
    | inl empty ↦
        let run = connect-unsecured v w empty in
        elim (Option-cases (opened (unsecured v) w).0) [
          | inl done ↦
              inl (==-eq v.ca_cert "" empty, rw run refl, done, rw run (rw (unsecured, empty) refl))
          | inr (e, fails) ↦ absurd (let h' = rw run at h in let h'' = rw fails at h' in cc)
        ]
    | inr given ↦
        let (name, valid, made, wrote, closed) = connect-steps v w given h in
        let run = connect-secured v w name given valid made wrote closed in
        let w'' = written v name w in
        elim (Option-cases (opened (secured v name) w'').0) [
          | inl done ↦ inr (
            name,
            (host.temp_file w).1,
            w'',
            valid,
            ap (λ o. (o, (host.temp_file w).1)) made,
            wrote,
            rw run refl,
            done,
            λ named. rw run (rw (secured, named) refl),
          )
          | inr (e, fails) ↦ absurd (let h' = rw run at h in let h'' = rw fails at h' in cc)
        ]
  ]
