-- ===== src/Config/Accept.antt =====
-- Which value a bind request gives to an option: the rules of `parseMap` and `parseUrlParams`, said
-- for one name at a time.
use mathlib.Core.Bool.{◌&&◌, ◌||◌, not}
use nfsbroker.Base.{ℕ, String, Option, none, some, List, [], ◌∷◌, ◌==◌, if◌then◌else◌}
use nfsbroker.Base.Text.{split_two}
use nfsbroker.Base.Dict.{lookup, in_array}
use nfsbroker.Api.{Value, Params}
use nfsbroker.Config.Entries.{uniform_key_data}

abbrev pub or_else {ℓ} : {A : Type ℓ} → Option A → Option A → Option A
or_else (some a) b = some a
or_else none b = b

-- The value that one parameter of a query gives to the name `k`.
abbrev pub param_value : List String → List String → List String → String → Option String
param_value allowed ignore (key ∷ value ∷ _) k =
    if key == k && (not (value == "") && (not (in_array ignore key) && in_array allowed key))
    then some value
    else none
param_value allowed ignore _ k = none

-- The value that a whole query gives to `k`: the last parameter that gives one decides.
abbrev pub query_value : List String → List String → List String → String → Option String
query_value allowed ignore [] k = none
query_value allowed ignore (p ∷ parts) k =
    or_else (query_value allowed ignore parts k) (param_value allowed ignore (split_two b'=' p) k)

module _ (float_text : ℕ → ℕ → String) where
  -- The value that a request's parameter `v` gives to its name `k`, if it is taken over.
  abbrev pub accept : List String → List String → String → Value → Option String
  accept allowed ignore k v =
      let value = uniform_key_data float_text k v in
      if value == "" || (k == "" || in_array ignore k)
      then none
      else if in_array allowed k
      then some value
      else none

  abbrev pub accept_found : List String → List String → String → Option Value → Option String
  accept_found allowed ignore k none = none
  accept_found allowed ignore k (some v) = accept allowed ignore k v

  -- The value that the parameters of a request give to the name `k`.
  abbrev pub requested : List String → List String → Params → String → Option String
  requested allowed ignore opts k = accept_found allowed ignore k (lookup k opts)
