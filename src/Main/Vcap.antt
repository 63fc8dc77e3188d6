-- ===== src/Main/Vcap.antt =====
-- `parseVcapServices` of main.go: when it finds the parameters of the database, and which.
use nfsbroker.Base.{String, ◌≡◌, ◌≢◌, refl, ap, ◌∙◌, false, some, ◌⊎◌, inl, inr, ◌==◌, Bool-cases}
use nfsbroker.Base.Dict.{Dict, lookup}
use nfsbroker.Api.{
  object, Items, item, Fields, Error, Outcome, ok, err, panic, >>=-eq-ok, >>=-ne-err,
}
use nfsbroker.Store.Choice.{DbParams}
use nfsbroker.Main.Credentials.{
  needed-eq-ok, or_fatal-eq-ok, first_object-eq-ok, as_object-eq-ok, needed-ne-err, or_fatal-ne-err,
  first_object-ne-err, as_object-ne-err, Filled, with_credentials-Filled, Filled-with_credentials,
  with_credentials-ne-err,
}
use nfsbroker.Main.{
  System, get_field, needed, or_fatal, first_object, as_object, parse_vcap_services,
}

module _ (sys : System) where
  -- What the environment holds under a service name.
  pub record Provides (cf_service_name : String) (p p' : DbParams) : Type 0 where
    pub services : String
    pub stuff : Dict Items
    pub binding : Fields
    pub others : Items
    pub credentials : Fields
    pub set : sys.lookup_env "VCAP_SERVICES" ≡ some services
    pub decoded : sys.decode_services services ≡ inr stuff
    pub listed : lookup cf_service_name stuff ≡ some (item (object binding) others)
    pub holds : get_field "credentials" binding ≡ object credentials
    pub filled : Filled sys credentials p p'
    pub given : (p.db_driver == "") ≡ false

  pub parse-Provides :
      (cf_service_name : String) (p p' : DbParams)
      → parse_vcap_services sys cf_service_name p ≡ ok p'
      → Provides cf_service_name p p'
  unfolding parse_vcap_services
  parse-Provides cf_service_name p p' h = elim (Bool-cases (p.db_driver == "")) [
    | inl missing ↦ absurd (let h' = rw missing at h in cc)
    | inr given ↦
        let h₀ = rw given at h in
        let (services, e₁, h₁) = >>=-eq-ok _ (needed (sys.lookup_env "VCAP_SERVICES")) h₀ in
        let (stuff, e₂, h₂) = >>=-eq-ok _ (or_fatal (sys.decode_services services)) h₁ in
        let (bindings, e₃, h₃) = >>=-eq-ok _ (needed (lookup cf_service_name stuff)) h₂ in
        let (binding, e₄, h₄) = >>=-eq-ok _ (first_object bindings) h₃ in
        let (credentials, e₅, h₅) = >>=-eq-ok _ (as_object (get_field "credentials" binding)) h₄ in
        let (others, is_item) = first_object-eq-ok bindings e₄ in
        record {
          services = services;
          stuff = stuff;
          binding = binding;
          others = others;
          credentials = credentials;
          set = needed-eq-ok _ e₁;
          decoded = or_fatal-eq-ok _ e₂;
          listed = needed-eq-ok _ e₃ ∙ ap some is_item;
          holds = as_object-eq-ok _ e₅;
          filled = with_credentials-Filled sys credentials p p' h₅;
          given = given;
        }
  ]

  Provides-parse :
      (cf_service_name : String) (p p' : DbParams)
      → Provides cf_service_name p p'
      → parse_vcap_services sys cf_service_name p ≡ ok p'
  unfolding parse_vcap_services
  Provides-parse cf_service_name p p' Q = rw Q.given (
      rw Q.set
        (rw Q.decoded (rw Q.listed (rw Q.holds (Filled-with_credentials sys _ p p' Q.filled)))))

  parse-ne-err :
      (cf_service_name : String) (p : DbParams) (e : Error)
      → parse_vcap_services sys cf_service_name p ≢ err e
  unfolding parse_vcap_services
  parse-ne-err cf_service_name p e = elim (Bool-cases (p.db_driver == "")) [
    | inl missing ↦ rw missing (λ h. cc)
    | inr given ↦ rw given (
        >>=-ne-err (needed (sys.lookup_env "VCAP_SERVICES")) _ (needed-ne-err _)
          (λ services.
            >>=-ne-err (or_fatal (sys.decode_services services)) _ (or_fatal-ne-err _) (λ stuff.
              >>=-ne-err (needed (lookup cf_service_name stuff)) _ (needed-ne-err _) (λ bindings.
                >>=-ne-err (first_object bindings) _ (first_object-ne-err bindings) (λ binding.
                  >>=-ne-err (as_object (get_field "credentials" binding)) _ (as_object-ne-err _)
                    (with_credentials-ne-err sys p)))))
          e)
  ]

  parse_cases :
      (cf_service_name : String) (p : DbParams) (o : Outcome DbParams)
      → parse_vcap_services sys cf_service_name p ≡ o
      → ((p' : DbParams) × (o ≡ ok p') × Provides cf_service_name p p')
        ⊎ ((o ≡ panic) × ((p' : DbParams) → ¬ Provides cf_service_name p p'))
  parse_cases cf_service_name p (ok p') e = inl (p', refl, parse-Provides cf_service_name p p' e)
  parse_cases cf_service_name p (err x) e = absurd (parse-ne-err cf_service_name p x e)
  parse_cases cf_service_name p panic e =
      inr (refl, λ p' Q. let e' = Provides-parse cf_service_name p p' Q in cc)

  -- `parseVcapServices` either sets the parameters of the database, and then a driver is given, and
  -- the environment lists under the service name, first, an object whose credentials have a text for
  -- each, or for the port a float that is printed, and the driver and the certificate are kept; or it
  -- panics, and then no parameters are so provided. It never ends with an error.
  pub parse_vcap_services-ends :
      (cf_service_name : String) (p : DbParams)
      → ((p' : DbParams) × (parse_vcap_services sys cf_service_name p ≡ ok p')
          × Provides cf_service_name p p')
        ⊎ ((parse_vcap_services sys cf_service_name p ≡ panic)
            × ((p' : DbParams) → ¬ Provides cf_service_name p p'))
  parse_vcap_services-ends cf_service_name p = parse_cases cf_service_name p _ refl
