-- ===== src/Config/Entries.antt =====
-- The options of one bind request: `parseMap`, `parseUrl`, `IsSloppyMount`, `SetEntries`, `Share`
-- and `makeConfig`. How `fmt` writes a float under `%#v` is a parameter.
use mathlib.Core.Bool.{◌||◌}
use nfsbroker.Base.{
  ℕ, String, ◌<>◌, Bool, true, false, Option, none, some, List, [], ◌∷◌, ◌++◌, ◌==◌, if◌then◌else◌,
}
use nfsbroker.Base.Text.{split, split_two, join}
use nfsbroker.Base.Dict.{Dict, lookup, put, erase, copy_into, in_array}
use nfsbroker.Base.Decimal.{show_ℤ}
use nfsbroker.Api.{Value, boolean, integer, float, text, Params, Error, message}
use nfsbroker.Config.{ConfigDetails, Config}

-- `strconv.FormatBool`
abbrev pub format_bool : Bool → String
format_bool b = if b then "true" else "false"

-- `strconv.ParseBool`
unfoldable pub parse_bool : String → Option Bool
unfolding in_array
parse_bool s =
    if in_array ("1" ∷ "t" ∷ "T" ∷ "TRUE" ∷ "true" ∷ "True" ∷ []) s
    then some true
    else if in_array ("0" ∷ "f" ∷ "F" ∷ "FALSE" ∷ "false" ∷ "False" ∷ []) s
    then some false
    else none

-- What the two removals of `IsSloppyMount` leave, and the text that it goes by.
abbrev pub take_sloppy : Option String → Dict String → String → Dict String × String
take_sloppy none m spm = (m, spm)
take_sloppy (some v) m spm = (erase "sloppy_mount" m, v)

-- `IsSloppyMount`
unfoldable pub is_sloppy_mount : ConfigDetails → ConfigDetails × Bool
is_sloppy_mount m =
    let (options, spm) = take_sloppy (lookup "sloppy_mount" m.options) m.options "" in
    let (forced, spm') = take_sloppy (lookup "sloppy_mount" m.forced) m.forced spm in
    (
      record m { forced = forced; options = options },
      if spm' == "" then false else elim (parse_bool spm') [ none ↦ false | some val ↦ val ],
    )

-- `makeConfig`, on the two maps. Every value is a text.
unfoldable pub as_params : Dict String → Params
as_params [] = []
as_params ((k, v) ∷ m) = (k, text v) ∷ as_params m

unfoldable pub make_config : ConfigDetails → Params
unfolding copy_into as_params
make_config m = as_params (copy_into m.forced (copy_into m.options []))

-- `(Config).MountConfig`
unfoldable pub mount_config : Config → Params
unfolding make_config
mount_config m = make_config m.mount

abbrev pub head : List String → String
head [] = ""
head (x ∷ xs) = x

-- `(Config).Share`: what stands before the first question mark.
unfoldable pub share_of : String → String
unfolding split_two
share_of share = head (split_two b'?' share)

-- The first `?`-part of `parseUrl`: the query, or nothing.
abbrev pub query : List String → String
query (address ∷ rest ∷ _) = rest
query _ = ""

-- The last loop of `SetEntries`.
unfoldable pub refused : List String → Params → List String → List String
unfolding in_array
refused allowed [] error_list = error_list
refused allowed ((k, _) ∷ opts) error_list =
    refused allowed opts (if in_array allowed k then error_list else error_list ++ k ∷ [])

-- The error with which `SetEntries` ends: none if no name was refused, or with sloppy mounts.
unfoldable pub verdict : Bool → List String → Option Error
unfolding join
verdict sloppy [] = none
verdict sloppy (key ∷ keys) =
    if sloppy then none else some (message ("Not allowed options: " <> join ", " (key ∷ keys)))

-- `uniformData`
module _ (float_text : ℕ → ℕ → String) where
  unfoldable pub uniform_data : Value → Bool → String
  unfolding show_ℤ
  uniform_data (integer i) bool_as_int = show_ℤ i
  uniform_data (float size bits) bool_as_int = float_text size bits
  uniform_data (text s) bool_as_int = s
  uniform_data (boolean b) bool_as_int =
      if bool_as_int then (if b then "1" else "0") else format_bool b
  uniform_data _ bool_as_int = ""

  -- `uniformKeyData`
  unfoldable pub uniform_key_data : String → Value → String
  unfolding uniform_data
  uniform_key_data key v =
      if key == "auto-traverse-mounts"
      then uniform_data v true
      else if key == "dircache"
      then uniform_data v true
      else uniform_data v false

  -- The body of the loop in `parseMap`: the configuration and the names refused so far.
  unfoldable pub parse_map_entry :
      ConfigDetails → String → Value → List String → List String → ConfigDetails × List String
  unfolding uniform_key_data put in_array
  parse_map_entry m k v ignore_list error_list =
      let value = uniform_key_data k v in
      if value == "" || (k == "" || in_array ignore_list k)
      then (m, error_list)
      else if in_array m.allowed k
      then (record m { options = put k value m.options }, error_list)
      else (m, error_list ++ k ∷ [])

  -- `parseMap`
  unfoldable pub parse_map :
      ConfigDetails → Params → List String → List String → ConfigDetails × List String
  unfolding parse_map_entry
  parse_map m [] ignore_list error_list = (m, error_list)
  parse_map m ((k, v) ∷ entry_list) ignore_list error_list =
      let (m', error_list') = parse_map_entry m k v ignore_list error_list in
      parse_map m' entry_list ignore_list error_list'

  -- `parseUrlParams`, on the parts of `SplitN(urlParams, "=", 2)`: the name that it refuses, or "".
  unfoldable pub parse_url_params :
      ConfigDetails → List String → List String → ConfigDetails × String
  unfolding uniform_key_data put in_array
  parse_url_params m (key ∷ value ∷ _) ignore_list =
      if value == "" || in_array ignore_list key
      then (m, "")
      else if in_array m.allowed key
      then (record m { options = put key (uniform_key_data key (text value)) m.options }, "")
      else (m, key)
  parse_url_params m _ ignore_list = (m, "")

  -- The loop of `parseUrl` over the parts of the query.
  unfoldable pub parse_query :
      ConfigDetails → List String → List String → List String → ConfigDetails × List String
  unfolding parse_url_params split_two
  parse_query m [] ignore_list error_list = (m, error_list)
  parse_query m (p ∷ parts) ignore_list error_list =
      let (m', key) = parse_url_params m (split_two b'=' p) ignore_list in
      parse_query m' parts ignore_list (if key == "" then error_list else error_list ++ key ∷ [])

  -- `parseUrl`
  unfoldable pub parse_url : ConfigDetails → String → List String → ConfigDetails × List String
  unfolding parse_query split split_two
  parse_url m url ignore_list =
      parse_query m (split b'&' (query (split_two b'?' url))) ignore_list []

  -- `SetEntries`: the configuration as it leaves it, and its error.
  unfoldable pub set_entries : Config → String → Params → List String → Config × Option Error
  set_entries m share opts ignore_list =
      let mount = (parse_map m.mount opts ignore_list []).0 in
      let allowed = ignore_list ++ mount.allowed in
      let (mount', url_errors) = parse_url mount share ignore_list in
      let (mount'', sloppy) = is_sloppy_mount mount' in
      let error_list = refused allowed opts url_errors in
      (record { mount = mount''; sloppy_mount = sloppy }, verdict sloppy error_list)
