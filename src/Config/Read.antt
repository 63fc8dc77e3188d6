-- ===== src/Config/Read.antt =====
-- The operator's two flags: `parseConfig`, `readConfDefault` and `ReadConf`.
use nfsbroker.Base.{String, List, [], ◌∷◌, ◌==◌, if◌then◌else◌}
use nfsbroker.Base.Text.{split, split_two}
use nfsbroker.Base.Dict.{Dict, put, erase, in_array}
use nfsbroker.Api.{Outcome, ok, panic, ◌>>=◌}
use nfsbroker.Config.{ConfigDetails}

-- The body of the loop in `parseConfig`, on the parts of `SplitN(opt, ":", 2)`. An entry with a
-- name and no colon indexes past the end of the parts.
unfoldable pub parse_entry : List String → Dict String → Outcome (Dict String)
parse_entry [] result = panic
parse_entry (key ∷ []) result = if key == "" then ok result else panic
parse_entry (key ∷ value ∷ _) result = if key == "" then ok result else ok (put key value result)

-- `parseConfig`
unfoldable pub parse_config : List String → Dict String → Outcome (Dict String)
unfolding parse_entry
parse_config [] result = ok result
parse_config (opt ∷ list_entry) result = do
  result' ← parse_entry (split_two b':' opt) result
  parse_config list_entry result'

-- The loop of `readConfDefault` over the options that were parsed, `entries`.
unfoldable pub force : List String → Dict String → Dict String → Dict String → ConfigDetails
force allowed [] forced options = record { allowed = allowed; forced = forced; options = options }
force allowed ((k, v) ∷ entries) forced options =
    let listed = in_array allowed k in
    force allowed entries (if listed then forced else put k v forced)
      (if listed then options else erase k options)

-- `readConfDefault`
unfoldable pub read_conf_default : ConfigDetails → String → Outcome ConfigDetails
read_conf_default m flag_string = if flag_string == "" then ok m else do
  options ← parse_config (split b',' flag_string) []
  ok (force m.allowed options [] options)

-- `ReadConf`
unfoldable pub read_conf : ConfigDetails → String → String → Outcome ConfigDetails
read_conf m allowed_flag default_flag =
    read_conf_default
      (if allowed_flag == "" then m else record m { allowed = split b',' allowed_flag })
      default_flag
