-- ===== src/Sql/Mysql.antt =====
-- nfsbroker/sql_mysql.go: the connection string and the certificate of a MySQL variant. The driver
-- and the certificate pool are parameters, over a world `W`.
use nfsbroker.Base.{
  ℕ, ◌*◌, String, ◌<>◌, ◌≡◌, refl, ap, Bool, true, false, Option, none, ◌⊎◌, inl, inr, ◌==◌,
  if◌then◌else◌, Bool-cases, Option-cases, Sum-cases, ==-eq,
}
use nfsbroker.Api.{Error, message, Outcome, ok, panic}
use nfsbroker.Exec.{Exec, raise, lift, ◌>>=◌, ◌>>◌}
use nfsbroker.Sql.Postgres.{ends}

-- `mysqlVariant`
pub record MysqlVariant : Type 0 where
  pub db_connection_string : String
  pub ca_cert : String
  pub db_name : String

-- `mysql.Config`: the fields that the variant sets, durations in nanoseconds, and the others as one.
pub record DriverConfig : Type 0 where
  pub tls_config : String
  pub timeout : ℕ
  pub read_timeout : ℕ
  pub write_timeout : ℕ
  pub others : String

-- `sqlshim.Sql`, the driver's package and `x509`, as far as the variant calls them. A pool of
-- certificates goes by the text that it was read from.
pub record Driver (W : Type 0) : Type 0 where
  pub parse_dsn : String → Error ⊎ DriverConfig
  pub format_dsn : DriverConfig → String
  pub append_certs : String → Bool
  pub register_tls_config : String → String → W → Option Error × W
  pub open_sql : String → String → W → Option Error × W

-- `NewMySqlVariantWithSqlObject`
unfoldable pub new_mysql_variant :
    String → String → String → String → String → String → MysqlVariant
new_mysql_variant username password host port db_name ca_cert = record {
  db_connection_string =
      username
      <> (":" <> (password <> ("@tcp(" <> (host <> (":" <> (port <> (")/" <> db_name)))))));
  ca_cert = ca_cert;
  db_name = db_name;
}

-- `10 * time.Minute`
abbrev pub ten_minutes : ℕ
ten_minutes = 10 * 60 * 1000000000

-- The name under which the TLS settings are registered.
abbrev pub our_key : String
our_key = "nfs-tls"

abbrev pub with_tls : DriverConfig → DriverConfig
with_tls cfg = record cfg {
  tls_config = our_key;
  timeout = ten_minutes;
  read_timeout = ten_minutes;
  write_timeout = ten_minutes;
}

-- A result whose error is logged with `Fatal`, which panics.
abbrev or_fatal : Error ⊎ DriverConfig → Outcome DriverConfig
or_fatal (inl e) = panic
or_fatal (inr cfg) = ok cfg

module _ {W : Type 0} (driver : Driver W) where
  -- `RegisterTLSConfig`, whose error is dropped.
  abbrev register : String → Exec (MysqlVariant × W) (Unit {0})
  register cert (v, w) = (ok tt, (v, (driver.register_tls_config our_key cert w).1))

  -- The variant with the connection string of `cfg`.
  abbrev pub secured : MysqlVariant → DriverConfig → MysqlVariant
  secured v cfg = record v { db_connection_string = driver.format_dsn (with_tls cfg) }

  abbrev become : MysqlVariant → Exec (MysqlVariant × W) (Unit {0})
  become v' (v, w) = (ok tt, (v', w))

  -- The certificate of a variant whose connection string was read as `cfg`.
  abbrev secure : MysqlVariant → DriverConfig → Exec (MysqlVariant × W) (Unit {0})
  secure v cfg =
      if driver.append_certs v.ca_cert
      then (register v.ca_cert >> become (secured v cfg))
      else raise (message ("Invalid CA Cert for " <> v.db_name))

  -- `Connect`, up to the call of the driver.
  abbrev prepare : MysqlVariant → Exec (MysqlVariant × W) (Unit {0})
  prepare v =
      if v.ca_cert == ""
      then become v
      else (lift (or_fatal (driver.parse_dsn v.db_connection_string)) >>= secure v)

  abbrev dial : Exec (MysqlVariant × W) (Unit {0})
  dial (v, w) = let (e, w') = driver.open_sql "mysql" v.db_connection_string w in (ends e, (v, w'))

  -- `Connect`
  unfoldable pub connect : Exec (MysqlVariant × W) (Unit {0})
  connect (v, w) = (prepare v >> dial) (v, w)

  -- `Close`
  unfoldable pub close : Exec (MysqlVariant × W) (Unit {0})
  close s = (ok tt, s)

  -- The driver's call on a variant.
  abbrev opened : MysqlVariant → W → Option Error × W
  opened v w = driver.open_sql "mysql" v.db_connection_string w

  abbrev registered : MysqlVariant → W → W
  registered v w = (driver.register_tls_config our_key v.ca_cert w).1

  connect-plain :
      (v : MysqlVariant) (w : W)
      → (v.ca_cert == "") ≡ true
      → connect (v, w) ≡ (ends (opened v w).0, (v, (opened v w).1))
  unfolding connect
  connect-plain v w empty = rw empty refl

  connect-secured :
      (v : MysqlVariant) (w : W) (cfg : DriverConfig)
      → (v.ca_cert == "") ≡ false
      → driver.parse_dsn v.db_connection_string ≡ inr cfg
      → driver.append_certs v.ca_cert ≡ true
      → let v' = secured v cfg in
        connect (v, w) ≡ (ends (opened v' (registered v w)).0, (v', (opened v' (registered v w)).1))
  unfolding connect
  connect-secured v w cfg given parsed valid = rw given (rw parsed (rw valid refl))

  -- What a success shows.
  connect-steps :
      (v : MysqlVariant) (w : W)
      → (v.ca_cert == "") ≡ false
      → (connect (v, w)).0 ≡ ok tt
      → (cfg : DriverConfig) × (driver.parse_dsn v.db_connection_string ≡ inr cfg)
        × (driver.append_certs v.ca_cert ≡ true)
  unfolding connect
  connect-steps v w given h = elim (Sum-cases (driver.parse_dsn v.db_connection_string)) [
    | inl (e, fails) ↦ absurd (let h' = rw given at h in let h'' = rw fails at h' in cc)
    | inr (cfg, parsed) ↦ elim (Bool-cases (driver.append_certs v.ca_cert)) [
      | inl valid ↦ (cfg, parsed, valid)
      | inr invalid ↦
          absurd
            (let h₁ = rw given at h in let h₂ = rw parsed at h₁ in let h₃ = rw invalid at h₂ in cc)
    ]
  ]

  -- What a `Connect` that succeeds has done.
  abbrev pub Connected : MysqlVariant → W → Type 0
  Connected v w =
      let r = connect (v, w) in
      ((v.ca_cert ≡ "") × (r.1.0 ≡ v) × ((opened v w).0 ≡ none))
      ⊎ ((cfg : DriverConfig) × ((v.ca_cert == "") ≡ false)
          × (driver.parse_dsn v.db_connection_string ≡ inr cfg)
          × (driver.append_certs v.ca_cert ≡ true)
          × (r.1.0 ≡ secured v cfg)
          × ((opened (secured v cfg) (registered v w)).0 ≡ none))

  opened_plain :
      (v : MysqlVariant) (w : W)
      → (v.ca_cert == "") ≡ true
      → (connect (v, w)).0 ≡ ok tt
      → Connected v w
  opened_plain v w empty h =
      let run = connect-plain v w empty in
      elim (Option-cases (opened v w).0) [
        | inl done ↦ inl (==-eq v.ca_cert "" empty, ap (λ r. r.1.0) run, done)
        | inr (e, fails) ↦ absurd (let h' = rw run at h in let h'' = rw fails at h' in cc)
      ]

  opened_secured :
      (v : MysqlVariant) (w : W)
      → (v.ca_cert == "") ≡ false
      → (connect (v, w)).0 ≡ ok tt
      → Connected v w
  opened_secured v w given h =
      let (cfg, parsed, valid) = connect-steps v w given h in
      let run = connect-secured v w cfg given parsed valid in
      elim (Option-cases (opened (secured v cfg) (registered v w)).0) [
        | inl done ↦ inr (cfg, given, parsed, valid, ap (λ r. r.1.0) run, done)
        | inr (e, fails) ↦ absurd (let h' = rw run at h in let h'' = rw fails at h' in cc)
      ]

  -- If `Connect` succeeds without a certificate, the driver opened the connection string as it was
  -- built, and the variant is as it was. With one, the string was read, the certificate is valid, and
  -- after the TLS settings were registered the driver opened the string of the settings that were
  -- read, with these TLS settings and the timeouts, which the variant keeps.
  pub connect-Connected : (v : MysqlVariant) (w : W) → (connect (v, w)).0 ≡ ok tt → Connected v w
  connect-Connected v w h = elim (Bool-cases (v.ca_cert == "")) [
    | inl empty ↦ opened_plain v w empty h
    | inr given ↦ opened_secured v w given h
  ]
