-- ===== src/Main/Credentials.antt =====
-- The credentials that `parseVcapServices` of main.go reads: one type assertion for each part.
use native.Mathlib.Decide.{ℕ_discrete}
use mathlib.Core.Path.{subst}
use mathlib.Core.Logic.{if_pos, if_neg}
use nfsbroker.Base.{
  ℕ, String, ◌≡◌, ◌≢◌, refl, sym, ap, ◌∙◌, Option, none, some, ◌⊎◌, inl, inr, arith,
}
use nfsbroker.Api.{
  Value, text, float, object, Items, item, Fields, Error, ok, err, panic, >>=-eq-ok, >>=-ne-err,
}
use nfsbroker.Store.Choice.{DbParams}
use nfsbroker.Main.{
  System, get_field, needed, or_fatal, first_object, as_object, as_text, port_of, with_credentials,
}

pub needed-eq-ok : {A : Type 0} (o : Option A) {a : A} → needed o ≡ ok a → o ≡ some a
needed-eq-ok none h = cc
needed-eq-ok (some a) h = cc

pub or_fatal-eq-ok : {A : Type 0} (o : Error ⊎ A) {a : A} → or_fatal o ≡ ok a → o ≡ inr a
or_fatal-eq-ok (inl e) h = cc
or_fatal-eq-ok (inr a) h = cc

pub first_object-eq-ok :
    (xs : Items) {c : Fields} → first_object xs ≡ ok c → (ys : Items) × (xs ≡ item (object c) ys)
first_object-eq-ok (item (object c) ys) h = (ys, cc)
first_object-eq-ok _ h = cc

pub as_object-eq-ok : (v : Value) {c : Fields} → as_object v ≡ ok c → v ≡ object c
as_object-eq-ok (object c) h = cc
as_object-eq-ok _ h = cc

as_text-eq-ok : (v : Value) {s : String} → as_text v ≡ ok s → v ≡ text s
as_text-eq-ok (text s) h = cc
as_text-eq-ok _ h = cc

pub needed-ne-err : {A : Type 0} (o : Option A) (e : Error) → needed o ≢ err e
needed-ne-err none e h = cc
needed-ne-err (some a) e h = cc

pub or_fatal-ne-err : {A : Type 0} (o : Error ⊎ A) (e : Error) → or_fatal o ≢ err e
or_fatal-ne-err (inl x) e h = cc
or_fatal-ne-err (inr a) e h = cc

pub first_object-ne-err : (xs : Items) (e : Error) → first_object xs ≢ err e
first_object-ne-err (item (object c) ys) e h = cc
first_object-ne-err _ e h = cc

pub as_object-ne-err : (v : Value) (e : Error) → as_object v ≢ err e
as_object-ne-err (object c) e h = cc
as_object-ne-err _ e h = cc

as_text-ne-err : (v : Value) (e : Error) → as_text v ≢ err e
as_text-ne-err (text s) e h = cc
as_text-ne-err _ e h = cc

module _ (sys : System) where
  -- The port of the credentials, as the text that stands for it.
  abbrev pub IsPort : Value → String → Type 0
  IsPort v port =
      (v ≡ text port) ⊎ ((bits : ℕ) × (v ≡ float 64 bits) × (port ≡ sys.whole_text bits))

  port_of-eq-ok : (v : Value) {port : String} → port_of sys v ≡ ok port → IsPort v port
  port_of-eq-ok (text s) h = inl (cc)
  port_of-eq-ok (float size bits) h = elim (ℕ_discrete size 64) [
    | yes wide ↦
        let e = sym (if_pos (ℕ_discrete size 64) wide (ok (sys.whole_text bits)) panic) ∙ h in
        inr (bits, ap (λ n. float n bits) wide, cc)
    | no other ↦
        absurd (
          let e = sym (if_neg (ℕ_discrete size 64) other (ok (sys.whole_text bits)) panic) ∙ h in
          cc)
  ]
  port_of-eq-ok _ h = cc

  port_of-ne-err : (v : Value) (e : Error) → port_of sys v ≢ err e
  port_of-ne-err (text s) e h = cc
  port_of-ne-err (float size bits) e h = elim (ℕ_discrete size 64) [
    | yes wide ↦
        let q = sym (if_pos (ℕ_discrete size 64) wide (ok (sys.whole_text bits)) panic) ∙ h in cc
    | no other ↦
        let q = sym (if_neg (ℕ_discrete size 64) other (ok (sys.whole_text bits)) panic) ∙ h in cc
  ]
  port_of-ne-err _ e h = cc

  is_port : (v : Value) (port : String) → IsPort v port → port_of sys v ≡ ok port
  unfolding ℕ_discrete
  is_port v port (inl e) = rw e refl
  is_port v port (inr (bits, e, printed)) = rw e (rw printed refl)

  -- The credentials have a part for each parameter, and the two others are kept.
  pub record Filled (credentials : Fields) (p p' : DbParams) : Type 0 where
    pub username : get_field "username" credentials ≡ text p'.db_username
    pub password : get_field "password" credentials ≡ text p'.db_password
    pub hostname : get_field "hostname" credentials ≡ text p'.db_hostname
    pub port : IsPort (get_field "port" credentials) p'.db_port
    pub name : get_field "name" credentials ≡ text p'.db_name
    pub driver : p'.db_driver ≡ p.db_driver
    pub ca_cert : p'.db_ca_cert ≡ p.db_ca_cert

  pub with_credentials-Filled :
      (credentials : Fields) (p p' : DbParams)
      → with_credentials sys p credentials ≡ ok p'
      → Filled credentials p p'
  with_credentials-Filled credentials p p' h =
      let (username, e₆, h₆) = >>=-eq-ok _ (as_text (get_field "username" credentials)) h in
      let (password, e₇, h₇) = >>=-eq-ok _ (as_text (get_field "password" credentials)) h₆ in
      let (hostname, e₈, h₈) = >>=-eq-ok _ (as_text (get_field "hostname" credentials)) h₇ in
      let (port, e₉, h₉) = >>=-eq-ok _ (port_of sys (get_field "port" credentials)) h₈ in
      let (name, e₀, ends) = >>=-eq-ok _ (as_text (get_field "name" credentials)) h₉ in
      let same : record p {
        db_username = username;
        db_password = password;
        db_hostname = hostname;
        db_port = port;
        db_name = name;
      }
          ≡ p' =
        cc in
      subst (Filled credentials p) same record {
        username = as_text-eq-ok _ e₆;
        password = as_text-eq-ok _ e₇;
        hostname = as_text-eq-ok _ e₈;
        port = port_of-eq-ok _ e₉;
        name = as_text-eq-ok _ e₀;
        driver = refl;
        ca_cert = refl;
      }

  pub Filled-with_credentials :
      (credentials : Fields) (p p' : DbParams)
      → Filled credentials p p'
      → with_credentials sys p credentials ≡ ok p'
  Filled-with_credentials credentials p p' F =
      rw F.username (
        rw F.password (rw F.hostname (rw (is_port _ p'.db_port F.port) (rw F.name (ground arith)))))

  pub with_credentials-ne-err :
      (p : DbParams) (credentials : Fields) (e : Error) → with_credentials sys p credentials ≢ err e
  with_credentials-ne-err p credentials =
      >>=-ne-err (as_text (get_field "username" credentials)) _ (as_text-ne-err _) (λ username.
        >>=-ne-err (as_text (get_field "password" credentials)) _ (as_text-ne-err _) (λ password.
          >>=-ne-err (as_text (get_field "hostname" credentials)) _ (as_text-ne-err _) (λ hostname.
            >>=-ne-err (port_of sys (get_field "port" credentials)) _ (port_of-ne-err _) (λ port.
              >>=-ne-err (as_text (get_field "name" credentials)) _ (as_text-ne-err _)
                (λ name e h. cc)))))
