-- ===== src/Config/Defaults.antt =====
-- What the operator's flags come to: the parsing of the defaults, and their division into options
-- that a request may override and options that are forced.
use mathlib.Core.Bool.{◌&&◌, ◌||◌}
use nfsbroker.Base.{
  String, ◌≡◌, ◌≢◌, ◌⊎◌, inl, inr, refl, Bool, true, false, none, List, [], ◌∷◌, arith, ◌==◌,
  Bool-cases, if◌then◌else◌,
}
use nfsbroker.Base.Text.{split, split_two, has_char}
use nfsbroker.Base.Text.Laws.{split_two_free, split_two_found}
use nfsbroker.Base.Dict.{Dict, NodupKeys, lookup, put, in_array, is_some, lookup-nil, put-NodupKeys}
use nfsbroker.Api.{Error, ok, err, panic}
use nfsbroker.Config.{ConfigDetails}
use nfsbroker.Config.Force.{force-forced, force-options, force-allowed, force-NodupKeys}
use nfsbroker.Config.Read.{parse_entry, parse_config, force, read_conf_default, read_conf}

-- An entry that `parseConfig` can take: it has a colon, or it is empty.
abbrev pub has_form : String → Bool
has_form opt = has_char b':' opt || opt == ""

abbrev pub all_have_form : List String → Bool
all_have_form [] = true
all_have_form (opt ∷ list_entry) = has_form opt && all_have_form list_entry

parse_entry_form :
    (opt : String) (result : Dict String)
    → ((r : Dict String) × (has_form opt ≡ true) × (parse_entry (split_two b':' opt) result ≡ ok r))
      ⊎ ((has_form opt ≡ false) × (parse_entry (split_two b':' opt) result ≡ panic))
unfolding parse_entry
parse_entry_form opt result = elim (Bool-cases (has_char b':' opt)) [
  | inl found ↦
      let (before, after, e) = split_two_found b':' opt found in
      inl
        ((if before == "" then result else put before after result), rw found, rw e (ground arith))
  | inr free ↦ elim (Bool-cases (opt == "")) [
    | inl empty ↦ inl (result, rw (free, empty), rw (split_two_free b':' opt free) (ground arith))
    | inr named ↦ inr (rw (free, named), rw (split_two_free b':' opt free) (ground arith))
  ]
]

parse_entry-NodupKeys :
    (parts : List String) (result : Dict String) {r : Dict String}
    → parse_entry parts result ≡ ok r
    → NodupKeys result
    → NodupKeys r
unfolding parse_entry
parse_entry-NodupKeys [] result e u = ground arith
parse_entry-NodupKeys (key ∷ []) result e u = ground arith
parse_entry-NodupKeys (key ∷ value ∷ _) result e u =
    ground (arith, put-NodupKeys key value result u)

parse_config-NodupKeys :
    (list_entry : List String) (result : Dict String) {r : Dict String}
    → parse_config list_entry result ≡ ok r
    → NodupKeys result
    → NodupKeys r
unfolding parse_config
parse_config-NodupKeys [] result e u = ground arith
parse_config-NodupKeys (opt ∷ list_entry) result {r} e u = elim (parse_entry_form opt result) [
  | inl (result', form, step) ↦
      parse_config-NodupKeys list_entry result' (rw step at e)
        (parse_entry-NodupKeys (split_two b':' opt) result step u)
  | inr (form, step) ↦ cc
]

parse_config_form :
    (list_entry : List String) (result : Dict String)
    → ((r : Dict String) × (all_have_form list_entry ≡ true)
        × (parse_config list_entry result ≡ ok r))
      ⊎ ((all_have_form list_entry ≡ false) × (parse_config list_entry result ≡ panic))
unfolding parse_config
parse_config_form [] result = inl (result, refl, refl)
parse_config_form (opt ∷ list_entry) result = elim (parse_entry_form opt result) [
  | inl (result', form, step) ↦ elim (parse_config_form list_entry result') [
    | inl (r, forms, rest) ↦ inl (r, rw (form, forms), rw (step, rest))
    | inr (forms, rest) ↦ inr (rw (form, forms), rw (step, rest))
  ]
  | inr (form, step) ↦ inr (rw form, rw step)
]

abbrev pub with_allowed : ConfigDetails → String → ConfigDetails
with_allowed m allowed_flag =
    if allowed_flag == "" then m else record m { allowed = split b',' allowed_flag }

-- `ReadConf` returns or panics, and never ends with an error: it returns if the defaults are empty
-- or each of their comma-separated entries is empty or has a colon, and otherwise panics.
pub read_conf-outcome :
    (m : ConfigDetails) (allowed_flag default_flag : String)
    → ((m' : ConfigDetails) × (read_conf m allowed_flag default_flag ≡ ok m')
        × ((default_flag == "" || all_have_form (split b',' default_flag)) ≡ true))
      ⊎ ((read_conf m allowed_flag default_flag ≡ panic)
          × ((default_flag == "" || all_have_form (split b',' default_flag)) ≡ false))
unfolding read_conf read_conf_default
read_conf-outcome m allowed_flag default_flag =
    let m' = with_allowed m allowed_flag in
    elim (Bool-cases (default_flag == "")) [
      | inl empty ↦ inl (m', rw empty, rw empty)
      | inr given ↦ elim (parse_config_form (split b',' default_flag) []) [
        | inl (r, forms, rest) ↦ inl (force m'.allowed r [] r, rw (given, rest), rw (given, forms))
        | inr (forms, rest) ↦ inr (rw (given, rest), rw (given, forms))
      ]
    ]

pub read_conf-ne-err :
    (m : ConfigDetails) (allowed_flag default_flag : String) (e : Error)
    → read_conf m allowed_flag default_flag ≢ err e
read_conf-ne-err m allowed_flag default_flag e h =
    elim (read_conf-outcome m allowed_flag default_flag) [
      | inl (m', ends, forms) ↦ cc
      | inr (ends, forms) ↦ cc
    ]

-- If `ReadConf` returns on defaults that are not empty, they were parsed into a map, whose allowed
-- names make up the options and whose other names make up the forced ones, each with its value.
-- The allowed names are those of the flag, or the old ones if it is empty; no map has a name twice.
pub read_conf-divides :
    (m : ConfigDetails) (allowed_flag default_flag : String) {m' : ConfigDetails}
    → read_conf m allowed_flag default_flag ≡ ok m'
    → (default_flag == "") ≡ false
    → (defaults : Dict String) × (parse_config (split b',' default_flag) [] ≡ ok defaults)
      × (m'.allowed ≡ (with_allowed m allowed_flag).allowed)
      × NodupKeys m'.forced
      × NodupKeys m'.options
      × ((k : String)
          → (lookup k m'.options ≡ (if in_array m'.allowed k then lookup k defaults else none))
            × (lookup k m'.forced ≡ (if in_array m'.allowed k then none else lookup k defaults)))
unfolding read_conf read_conf_default is_some
read_conf-divides m allowed_flag default_flag {m'} e given =
    let m₀ = with_allowed m allowed_flag in
    elim (parse_config_form (split b',' default_flag) []) [
      | inl (r, forms, rest) ↦
          let u = parse_config-NodupKeys (split b',' default_flag) [] rest tt in
          let same : force m₀.allowed r [] r ≡ m' = ground (arith, rest) in
          let (w, w') = force-NodupKeys m₀.allowed r [] r tt u in
          (
            r,
            rest,
            rw (← same) (force-allowed m₀.allowed r [] r),
            rw (← same) w,
            rw (← same) w',
            λ k. rw (← same) (
                rw (force-allowed m₀.allowed r [] r) (
                  ground (
                    arith,
                    force-options m₀.allowed r [] r k u,
                    force-forced m₀.allowed r [] r k u,
                    lookup-nil {V = String} k,
                  ))),
          )
      | inr (forms, rest) ↦ absurd (ground (arith, rest))
    ]
