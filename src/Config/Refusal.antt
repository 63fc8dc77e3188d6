-- ===== src/Config/Refusal.antt =====
-- When `SetEntries` refuses a request.
use mathlib.Core.Bool.{◌&&◌, ◌||◌}
use mathlib.Core.Path.{ap₂}
use nfsbroker.Base.{
  sym, ℕ, String, ◌≡◌, ◌↔◌, refl, ◌∙◌, ap, Bool, true, false, Option, none, some, List, [], ◌∷◌,
  ◌++◌, arith, ◌==◌, if◌then◌else◌,
}
use nfsbroker.Base.Text.{split, split_two}
use nfsbroker.Base.Dict.{NodupKeys, lookup, in_array}
use nfsbroker.Api.{Params}
use nfsbroker.Config.{ConfigDetails, Config}
use nfsbroker.Config.Accept.{or_else}
use nfsbroker.Config.Map.{parse_map_keeps}
use nfsbroker.Config.Query.{parse_url_params_keeps}
use nfsbroker.Config.Mount.{chosen, after_map, after_url, after_url-eq-chosen}
use nfsbroker.Config.Entries.{
  parse_bool, is_sloppy_mount, parse_url_params, parse_query, parse_url, query, refused, verdict,
  set_entries,
}

abbrev pub is_nil {ℓ} : {A : Type ℓ} → List A → Bool
is_nil [] = true
is_nil (x ∷ xs) = false

-- Every parameter of the request has a listed name.
abbrev pub all_listed : List String → Params → Bool
all_listed allowed [] = true
all_listed allowed ((k, v) ∷ opts) = in_array allowed k && all_listed allowed opts

-- A parameter of a query is refused if it has a name and a value, and the name is in neither list.
abbrev pub param_clean : List String → List String → List String → Bool
param_clean allowed ignore (key ∷ value ∷ _) =
    key == "" || (value == "" || (in_array ignore key || in_array allowed key))
param_clean allowed ignore _ = true

abbrev pub query_clean : List String → List String → List String → Bool
query_clean allowed ignore [] = true
query_clean allowed ignore (p ∷ parts) =
    param_clean allowed ignore (split_two b'=' p) && query_clean allowed ignore parts

-- The reading of an option as a switch.
abbrev pub switched_on : Option String → Bool
switched_on none = false
switched_on (some s) = if s == "" then false else elim (parse_bool s) [ none ↦ false | some b ↦ b ]

is_nil-append_one : (xs : List String) (x : String) → is_nil (xs ++ x ∷ []) ≡ false
is_nil-append_one [] x = refl
is_nil-append_one (y ∷ ys) x = refl

is_nil-refused :
    (allowed : List String) (opts : Params) (errors : List String)
    → is_nil (refused allowed opts errors) ≡ (is_nil errors && all_listed allowed opts)
unfolding refused
is_nil-refused allowed [] errors = ground arith
is_nil-refused allowed ((k, v) ∷ opts) errors = ground (
  arith,
  is_nil-refused allowed opts (if in_array allowed k then errors else errors ++ k ∷ []),
  is_nil-append_one errors k,
)

is_sloppy_mount_lem :
    (m : ConfigDetails)
    → (is_sloppy_mount m).1
      ≡ switched_on (or_else (lookup "sloppy_mount" m.forced) (lookup "sloppy_mount" m.options))
unfolding is_sloppy_mount
is_sloppy_mount_lem m = ground arith

verdict_iff :
    (sloppy : Bool) (errors : List String)
    → (verdict sloppy errors ≡ none) ↔ ((sloppy || is_nil errors) ≡ true)
unfolding verdict
verdict_iff sloppy [] = (λ h. ground arith, λ h. refl)
verdict_iff sloppy (x ∷ xs) = (λ h. ground arith, λ h. ground arith)

module _ (float_text : ℕ → ℕ → String) where
  parse_url_params_clean :
      (m : ConfigDetails) (parts ignore : List String)
      → ((parse_url_params float_text m parts ignore).1 == "") ≡ param_clean m.allowed ignore parts
  unfolding parse_url_params
  parse_url_params_clean m (key ∷ value ∷ _) ignore = ground arith
  parse_url_params_clean m (key ∷ []) ignore = ground arith
  parse_url_params_clean m [] ignore = ground arith

  is_nil-parse_query :
      (m : ConfigDetails) (parts ignore errors : List String)
      → is_nil (parse_query float_text m parts ignore errors).1
        ≡ (is_nil errors && query_clean m.allowed ignore parts)
  unfolding parse_query
  is_nil-parse_query m [] ignore errors = ground arith
  is_nil-parse_query m (p ∷ parts) ignore errors =
      let parts' = split_two b'=' p in
      let (m', key) = parse_url_params float_text m parts' ignore in
      ground (
        arith,
        is_nil-parse_query m' parts ignore (if key == "" then errors else errors ++ key ∷ []),
        is_nil-append_one errors key,
        (parse_url_params_keeps float_text m parts' ignore).0,
        parse_url_params_clean m parts' ignore,
      )

  -- The switch that `SetEntries` goes by is the value chosen for `sloppy_mount`.
  sloppy_mount_lem :
      (c : Config) (share : String) (opts : Params) (ignore : List String)
      → NodupKeys opts
      → (set_entries float_text c share opts ignore).0.sloppy_mount
        ≡ switched_on (chosen float_text c share opts ignore "sloppy_mount")
  unfolding set_entries after_map after_url
  sloppy_mount_lem c share opts ignore distinct =
      is_sloppy_mount_lem (after_url float_text c share opts ignore)
      ∙ ap switched_on (after_url-eq-chosen float_text c share opts ignore "sloppy_mount" distinct)

  -- `SetEntries` on a request with distinct names accepts it exactly when the value chosen for
  -- `sloppy_mount` reads as true, or every parameter of the share's query that has a name and a
  -- value, and every parameter of the request, is allowed or on the ignore list.
  pub set_entries-eq-none_iff :
      (c : Config) (share : String) (opts : Params) (ignore : List String)
      → NodupKeys opts
      → ((set_entries float_text c share opts ignore).1 ≡ none) ↔ (
          (switched_on (chosen float_text c share opts ignore "sloppy_mount")
            || (query_clean c.mount.allowed ignore (split b'&' (query (split_two b'?' share)))
                && all_listed (ignore ++ c.mount.allowed) opts))
          ≡ true)
  unfolding set_entries after_map after_url parse_url
  set_entries-eq-none_iff c share opts ignore distinct =
      let m = after_map float_text c share opts ignore in
      let parts = split b'&' (query (split_two b'?' share)) in
      let url_errors = (parse_query float_text m parts ignore []).1 in
      let errors = refused (ignore ++ m.allowed) opts url_errors in
      let sloppy = (set_entries float_text c share opts ignore).0.sloppy_mount in
      let same = (parse_map_keeps float_text c.mount opts ignore []).0 in
      let clean : is_nil errors ≡ (
          query_clean c.mount.allowed ignore parts && all_listed (ignore ++ c.mount.allowed) opts) =
        is_nil-refused (ignore ++ m.allowed) opts url_errors
        ∙ ap₂ ◌&&◌ (is_nil-parse_query m parts ignore []) refl
        ∙ ap (λ (l : List String). query_clean l ignore parts && all_listed (ignore ++ l) opts)
            same in
      let e = ap₂ ◌||◌ (sloppy_mount_lem c share opts ignore distinct) clean in
      ((λ h. sym e ∙ (verdict_iff sloppy errors).0 h), (λ h. (verdict_iff sloppy errors).1 (e ∙ h)))
