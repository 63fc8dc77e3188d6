-- ===== src/Tests/Config.antt =====
-- nfsbroker/nfsbroker_config_test.go, and the theorems about the configuration at concrete inputs.
use native.Mathlib.Decide.{ℕ_discrete}
use nfsbroker.Base.{
  ==-eq, Bool-cases, inl, inr, false, arith, ℕ, String, ◌≡◌, refl, true, false, ◌↔◌, ◌⊎◌, ◌&&◌,
  ◌||◌, ◌++◌, ◌==◌, if◌then◌else◌, Option, none, some, List, [], ◌∷◌, string_dec,
}
use nfsbroker.Base.Dict.{Dict, NodupKeys, lookup, put, erase, in_array}
use nfsbroker.Base.Text.Laws.{AllFree}
use nfsbroker.Base.Text.{split, split_two, join, has_char}
use nfsbroker.Base.Decimal.{pos}
use nfsbroker.Api.{Params, ok, panic, Error, boolean, integer, text, message}
use nfsbroker.Config.{ConfigDetails, Config, new_config, new_config_details}
use nfsbroker.Config.Read.{read_conf, read_conf_default, parse_config, force}
use nfsbroker.Config.Mount.{chosen, lookup-mount_config}
use nfsbroker.Config.Order.{SameEntries, set_entries_order}
use nfsbroker.Config.Refusal.{switched_on, query_clean, all_listed, set_entries-eq-none_iff}
use nfsbroker.Config.Defaults.{all_have_form, with_allowed, read_conf-outcome, read_conf-divides}
use nfsbroker.Config.Print.{Printable, print_defaults, read_conf-print}
use nfsbroker.Broker.Volume.{ignore_list}
use nfsbroker.Tests.Samples.{config_a, config_a-IsConfig, parameters_a, parameters_a-NodupKeys}
use nfsbroker.Config.Entries.{
  query, set_entries, parse_map, parse_url, is_sloppy_mount, parse_bool, refused, verdict,
  mount_config, share_of,
}

abbrev no_floats : ℕ → ℕ → String
no_floats size bits = "10"

abbrev mount_options : Dict String
mount_options = ("nfs_uid", "1003") ∷ ("nfs_gid", "1001") ∷ ("uid", "1004") ∷ ("gid", "1002") ∷ []

abbrev allowed_flag : String
allowed_flag = "sloppy_mount,nfs_uid,nfs_gid,allow_other,uid,gid,auto-traverse-mounts,dircache"

abbrev allowed_names : List String
allowed_names =
    "sloppy_mount" ∷ "nfs_uid" ∷ "nfs_gid" ∷ "allow_other" ∷ "uid" ∷ "gid" ∷ "auto-traverse-mounts"
    ∷ "dircache" ∷ []

abbrev details : ConfigDetails
details = record { allowed = allowed_names; forced = []; options = mount_options }

flags_read :
    read_conf new_config_details allowed_flag "nfs_uid:1003,nfs_gid:1001,uid:1004,gid:1002"
    ≡ ok details
unfolding read_conf read_conf_default parse_config split split_two force put erase in_array
    new_config_details string_dec ℕ_discrete
flags_read = refl

missing_colon_panics : read_conf new_config_details "uid" "auto_cache" ≡ panic
unfolding read_conf read_conf_default parse_config split split_two force put erase in_array
    new_config_details string_dec ℕ_discrete
missing_colon_panics = refl

abbrev sloppy : Params
sloppy =
    ("sloppy_mount", boolean true)
    ∷ ("allow_other", boolean true)
    ∷ ("auto-traverse-mounts", boolean true)
    ∷ ("dircache", boolean false)
    ∷ ("missing", boolean true)
    ∷ ("wrong", integer (pos 1234))
    ∷ ("search", text "notfound")
    ∷ []

abbrev bad : Params
bad = ("missing", boolean true) ∷ ("wrong", integer (pos 1234)) ∷ []

result : Params → String → Config × Option Error
unfolding set_entries parse_map parse_url is_sloppy_mount parse_bool erase lookup refused verdict
    new_config string_dec ℕ_discrete
result opts share = set_entries no_floats (new_config details) share opts []

sloppy_accepted : (result sloppy "nfs://1.2.3.4").1 ≡ none
unfolding result
sloppy_accepted = refl

sloppy_mount_config :
    mount_config (result sloppy "nfs://1.2.3.4").0
    ≡ ("nfs_uid", text "1003")
      ∷ ("nfs_gid", text "1001")
      ∷ ("uid", text "1004")
      ∷ ("gid", text "1002")
      ∷ ("allow_other", text "true")
      ∷ ("auto-traverse-mounts", text "1")
      ∷ ("dircache", text "0")
      ∷ []
unfolding result mount_config
sloppy_mount_config = refl

bad_refused :
    (result bad "nfs://1.2.3.4?err=true&uid=7&test=err").1
    ≡ some (message "Not allowed options: err, test, missing, wrong")
unfolding result
bad_refused = refl

numbers_as_text :
    lookup "uid" (mount_config (result (("uid", integer (pos 2999)) ∷ []) "nfs://1.2.3.4?gid=5").0)
    ≡ some (text "2999")
unfolding result mount_config lookup
numbers_as_text = refl

query_cut : share_of "nfs://1.2.3.4?err=true&test=err" ≡ "nfs://1.2.3.4"
unfolding share_of ℕ_discrete
query_cut = refl

set_entries-eq-none_iff_example :
    ((set_entries no_floats config_a "nfs://server?uid=7" parameters_a ignore_list).1 ≡ none) ↔ (
      (switched_on
          (chosen no_floats config_a "nfs://server?uid=7" parameters_a ignore_list "sloppy_mount")
        || (query_clean config_a.mount.allowed ignore_list
              (split b'&' (query (split_two b'?' "nfs://server?uid=7")))
            && all_listed (ignore_list ++ config_a.mount.allowed) parameters_a))
      ≡ true)
set_entries-eq-none_iff_example =
    set_entries-eq-none_iff no_floats config_a "nfs://server?uid=7" parameters_a ignore_list
      parameters_a-NodupKeys

lookup-mount_config_example :
    lookup "uid" (
      mount_config (set_entries no_floats config_a "nfs://server?uid=7" parameters_a ignore_list).0)
    ≡ some (text "7")
unfolding parse_url set_entries lookup in_array split split_two string_dec ℕ_discrete
lookup-mount_config_example =
    lookup-mount_config no_floats config_a "nfs://server?uid=7" parameters_a ignore_list "uid"
      config_a-IsConfig.options config_a-IsConfig.forced parameters_a-NodupKeys

read_conf-outcome_example :
    ((m' : ConfigDetails) × (read_conf new_config_details "uid" "auto_cache" ≡ ok m')
      × (("auto_cache" == "" || all_have_form (split b',' "auto_cache")) ≡ true))
    ⊎ ((read_conf new_config_details "uid" "auto_cache" ≡ panic)
        × (("auto_cache" == "" || all_have_form (split b',' "auto_cache")) ≡ false))
read_conf-outcome_example = read_conf-outcome new_config_details "uid" "auto_cache"

abbrev two_flags : ConfigDetails
two_flags = record { allowed = "uid" ∷ []; forced = ("gid", "5") ∷ []; options = ("uid", "1") ∷ [] }

two_flags_read : read_conf new_config_details "uid" "uid:1,gid:5" ≡ ok two_flags
unfolding read_conf read_conf_default parse_config split split_two force put erase in_array
    new_config_details string_dec ℕ_discrete
two_flags_read = refl

given : ("uid:1,gid:5" == "") ≡ false
unfolding string_dec
given = refl

read_conf-divides_example :
    (defaults : Dict String) × (parse_config (split b',' "uid:1,gid:5") [] ≡ ok defaults)
    × (two_flags.allowed ≡ (with_allowed new_config_details "uid").allowed)
    × NodupKeys two_flags.forced
    × NodupKeys two_flags.options
    × ((k : String)
        → (lookup k two_flags.options
            ≡ (if in_array two_flags.allowed k then lookup k defaults else none))
          × (lookup k two_flags.forced
              ≡ (if in_array two_flags.allowed k then none else lookup k defaults)))
read_conf-divides_example =
    read_conf-divides new_config_details "uid" "uid:1,gid:5" two_flags_read given

printable : Printable (("uid", "1") ∷ ("gid", "5") ∷ [])
unfolding has_char string_dec ℕ_discrete
printable = ((refl, refl, refl, refl, (refl, refl, refl, refl, tt)))

names_free : AllFree b',' ("uid" ∷ [])
unfolding has_char ℕ_discrete
names_free = (refl, tt)

names_written : (join "," ("uid" ∷ []) == "") ≡ false
unfolding join string_dec
names_written = refl

options_NodupKeys : NodupKeys {V = String} (("uid", "1") ∷ ("gid", "5") ∷ [])
unfolding lookup string_dec
options_NodupKeys = (refl, (refl, tt))

read_conf-print_example :
    let m : Dict String = ("uid", "1") ∷ ("gid", "5") ∷ [] in
    (m' : ConfigDetails) × (read_conf new_config_details (join "," ("uid" ∷ [])) (print_defaults m)
      ≡ ok m')
    × (m'.allowed ≡ "uid" ∷ [])
    × ((k : String)
        → (lookup k m'.options ≡ (if in_array ("uid" ∷ []) k then lookup k m else none))
          × (lookup k m'.forced ≡ (if in_array ("uid" ∷ []) k then none else lookup k m)))
read_conf-print_example =
    read_conf-print [] "uid" "uid" "1" (("gid", "5") ∷ []) names_free names_written printable
      options_NodupKeys

-- The request of `parameters_a` in the other order.
abbrev reordered_a : Params
reordered_a = ("readonly", boolean true) ∷ ("uid", text "1000") ∷ []

reordered_a-NodupKeys : NodupKeys reordered_a
unfolding lookup string_dec
reordered_a-NodupKeys = (refl, (refl, tt))

readonly_uid : ("readonly" == "uid") ≡ false
unfolding string_dec
readonly_uid = refl

same_entries : SameEntries parameters_a reordered_a
unfolding lookup
same_entries k = elim (Bool-cases ("uid" == k)) [
  | inl same ↦ ground (arith, ==-eq "uid" k same, readonly_uid)
  | inr other ↦ ground arith
]

set_entries_order_example :
    ((k : String)
      → lookup k
          (mount_config (set_entries no_floats config_a "nfs://server" parameters_a ignore_list).0)
        ≡ lookup k (
            mount_config (set_entries no_floats config_a "nfs://server" reordered_a ignore_list).0))
    × (((set_entries no_floats config_a "nfs://server" parameters_a ignore_list).1 ≡ none)
        ↔ ((set_entries no_floats config_a "nfs://server" reordered_a ignore_list).1 ≡ none))
set_entries_order_example =
    set_entries_order no_floats config_a "nfs://server" parameters_a reordered_a ignore_list
      same_entries config_a-IsConfig.options config_a-IsConfig.forced parameters_a-NodupKeys
      reordered_a-NodupKeys
