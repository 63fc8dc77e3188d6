-- ===== src/Api.antt =====
-- What crosses the broker's interfaces: Go's dynamic values as JSON decoding makes them, the errors,
-- and the structs of nfsbroker/nfsbroker.go and of `brokerapi`, by the fields that the code uses.
use nfsbroker.Base.{ℕ, String, ◌≡◌, ◌≢◌, refl, Bool, true, false, ◌&&◌, Option, none, some, [], ◌∷◌}
use nfsbroker.Base.{◌==◌, arith}
use nfsbroker.Base.Dict.{Dict}
use nfsbroker.Base.Decimal.{ℤ}

-- An `interface{}`. A float is its size in bits and its bit pattern.
mutual
  pub data Value : Type 0 where
    null : Value
    boolean : Bool → Value
    integer : ℤ → Value
    float : ℕ → ℕ → Value
    text : String → Value
    array : Items → Value
    object : Fields → Value

  pub data Items : Type 0 where
    end : Items
    item : Value → Items → Items

  pub data Fields : Type 0 where
    close : Fields
    field : String → Value → Fields → Fields

-- `map[string]interface{}`
abbrev pub Params : Type 0
Params = Dict Value

-- A value that decoding JSON can make: numbers decode to floats.
unfoldable mutual
  pub from_json : Value → Bool
  from_json null = true
  from_json (boolean b) = true
  from_json (integer n) = false
  from_json (float size bits) = true
  from_json (text s) = true
  from_json (array items) = items_from_json items
  from_json (object fields) = fields_from_json fields

  pub items_from_json : Items → Bool
  items_from_json end = true
  items_from_json (item v items) = from_json v && items_from_json items

  pub fields_from_json : Fields → Bool
  fields_from_json close = true
  fields_from_json (field k v fields) = from_json v && fields_from_json fields

abbrev pub params_from_json : Option Params → Bool
params_from_json none = true
params_from_json (some []) = true
params_from_json (some ((k, v) ∷ m)) = from_json v && params_from_json (some m)

-- The errors that `brokerapi` names, and any other by its text.
pub data Error : Type 0 where
  raw_params_invalid instance_already_exists instance_does_not_exist : Error
  app_guid_not_provided binding_already_exists binding_does_not_exist : Error
  message : String → Error

-- How a call ends: with a value, with an error, or in a run-time panic.
pub data Outcome {ℓ} (A : Type ℓ) : Type ℓ where
  ok : A → Outcome A
  err : Error → Outcome A
  panic : Outcome A

infixl 5 ◌>>=◌
abbrev pub ◌>>=◌ {ℓ κ} : {A : Type ℓ} {B : Type κ} → Outcome A → (A → Outcome B) → Outcome B
ok a >>= f = f a
err e >>= f = err e
panic >>= f = panic

-- Where a chain returned, its first call did, and so did what follows.
module _ {ℓ κ} {A : Type ℓ} {B : Type κ} (rest : A → Outcome B) {r : B} where
  pub >>=-eq-ok :
      (first : Outcome A) → (first >>= rest) ≡ ok r → (v : A) × (first ≡ ok v) × (rest v ≡ ok r)
  >>=-eq-ok panic e = absurd (cc)
  >>=-eq-ok (err x) e = absurd (cc)
  >>=-eq-ok (ok v) e = (v, refl, e)

-- A chain of calls that never end with an error.
pub >>=-ne-err {ℓ κ} :
    {A : Type ℓ} {B : Type κ} (m : Outcome A) (f : A → Outcome B)
    → ((e : Error) → m ≢ err e)
    → ((a : A) (e : Error) → f a ≢ err e)
    → (e : Error) → (m >>= f) ≢ err e
>>=-ne-err (ok a) f h k e = k a e
>>=-ne-err (err x) f h k e = absurd (h x refl)
>>=-ne-err panic f h k e = λ same. cc

-- `ServiceInstance`
pub record ServiceInstance : Type 0 where
  pub service_id : String
  pub plan_id : String
  pub organization_guid : String
  pub space_guid : String
  pub share : String

-- `reflect.DeepEqual` on two of them.
unfoldable pub instance_eq : ServiceInstance → ServiceInstance → Bool
instance_eq a b =
    a.service_id == b.service_id
    && (a.plan_id == b.plan_id
        && (a.organization_guid == b.organization_guid
            && (a.space_guid == b.space_guid && a.share == b.share)))

pub instance_eq-eq : (a b : ServiceInstance) → instance_eq a b ≡ true → a ≡ b
unfolding instance_eq
instance_eq-eq a b h = ground arith

pub instance_eq_refl : (a : ServiceInstance) → instance_eq a a ≡ true
unfolding instance_eq
instance_eq_refl a = ground arith

-- `brokerapi.BindResource`
pub record BindResource : Type 0 where
  pub app_guid : String
  pub route : String

-- `brokerapi.BindDetails`. `none` is a nil pointer or a nil map.
pub record BindDetails : Type 0 where
  pub app_guid : String
  pub plan_id : String
  pub service_id : String
  pub bind_resource : Option BindResource
  pub parameters : Option Params

-- `reflect.DeepEqual` on two `*brokerapi.BindResource`.
unfoldable pub resource_eq : Option BindResource → Option BindResource → Bool
resource_eq none none = true
resource_eq (some a) (some b) = a.app_guid == b.app_guid && a.route == b.route
resource_eq _ _ = false

pub resource_eq_refl : (r : Option BindResource) → resource_eq r r ≡ true
unfolding resource_eq
resource_eq_refl none = ground arith
resource_eq_refl (some r) = ground arith

pub resource_eq-eq : (r s : Option BindResource) → resource_eq r s ≡ true → r ≡ s
unfolding resource_eq
resource_eq-eq none none h = ground arith
resource_eq-eq (some r) (some s) h = ground arith
resource_eq-eq _ _ h = ground arith
