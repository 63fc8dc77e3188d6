-- ===== src/Config/Mount.antt =====
-- What `SetEntries` leaves in the mount configuration, name by name.
use nfsbroker.Base.{
  ℕ, String, ◌≡◌, refl, ◌∙◌, ap, Option, none, some, List, [], ◌∷◌, arith, ◌==◌, if◌then◌else◌,
}
use mathlib.Core.Option
use nfsbroker.Base.Text.{split, split_two}
use nfsbroker.Base.Dict.{
  Dict, NodupKeys, lookup, copy_into, is_some, lookup-erase, lookup-nil, lookup-copy_into,
  erase-NodupKeys,
}
use nfsbroker.Api.{text, Params}
use nfsbroker.Config.{ConfigDetails, Config}
use nfsbroker.Config.Accept.{or_else, query_value, requested}
use nfsbroker.Config.Map.{parse_map_keeps, parse_map-NodupKeys, lookup-parse_map}
use nfsbroker.Config.Query.{parse_query_keeps, parse_query-NodupKeys, lookup-parse_query}
use nfsbroker.Config.Entries.{
  parse_map, parse_url, query, take_sloppy, is_sloppy_mount, as_params, mount_config, set_entries,
}

lookup-as_params :
    (m : Dict String) (k : String) → lookup k (as_params m) ≡ Option.map text (lookup k m)
unfolding as_params lookup
lookup-as_params [] k = refl
lookup-as_params ((j, v) ∷ m) k = ground (arith, lookup-as_params m k)

-- Both maps lose the name, if they have it.
is_sloppy_mount-options :
    (m : ConfigDetails) (k : String)
    → lookup k (is_sloppy_mount m).0.options
      ≡ (if "sloppy_mount" == k then none else lookup k m.options)
unfolding is_sloppy_mount
is_sloppy_mount-options m k = ground (arith, lookup-erase "sloppy_mount" k m.options)

is_sloppy_mount-forced :
    (m : ConfigDetails) (k : String)
    → lookup k (is_sloppy_mount m).0.forced
      ≡ (if "sloppy_mount" == k then none else lookup k m.forced)
unfolding is_sloppy_mount
is_sloppy_mount-forced m k = ground (arith, lookup-erase "sloppy_mount" k m.forced)

take_sloppy-NodupKeys :
    (o : Option String) (m : Dict String) (spm : String)
    → NodupKeys m
    → NodupKeys (take_sloppy o m spm).0
take_sloppy-NodupKeys none m spm u = u
take_sloppy-NodupKeys (some v) m spm u = erase-NodupKeys "sloppy_mount" m u

is_sloppy_mount-NodupKeys :
    (m : ConfigDetails)
    → NodupKeys m.options
    → NodupKeys m.forced
    → NodupKeys (is_sloppy_mount m).0.options × NodupKeys (is_sloppy_mount m).0.forced
unfolding is_sloppy_mount
is_sloppy_mount-NodupKeys m u w =
    (take_sloppy-NodupKeys _ m.options _ u, take_sloppy-NodupKeys _ m.forced _ w)

lookup-mount_config_self :
    (c : Config) (k : String)
    → NodupKeys c.mount.options
    → NodupKeys c.mount.forced
    → lookup k (mount_config c)
      ≡ Option.map text (or_else (lookup k c.mount.forced) (lookup k c.mount.options))
unfolding mount_config is_some
lookup-mount_config_self c k u w = rw lookup-as_params (
    ground (
      arith,
      lookup-copy_into c.mount.forced (copy_into c.mount.options []) k w,
      lookup-copy_into c.mount.options [] k u,
      lookup-nil {V = String} k,
    ))

module _ (float_text : ℕ → ℕ → String) where
  -- The value that the sources of a name settle on: the forced one, else the last of the share's
  -- query, else the request's, else the operator's default.
  abbrev pub chosen : Config → String → Params → List String → String → Option String
  chosen c share opts ignore k = or_else (lookup k c.mount.forced) (
      or_else (query_value c.mount.allowed ignore (split b'&' (query (split_two b'?' share))) k)
        (or_else (requested float_text c.mount.allowed ignore opts k) (lookup k c.mount.options)))

  -- The value that `SetEntries` leaves at the name `k`.
  abbrev pub decided : Config → String → Params → List String → String → Option String
  decided c share opts ignore k = if "sloppy_mount" == k then none else chosen c share opts ignore k

  module _ (c : Config) (share : String) (opts : Params) (ignore : List String) where
    unfoldable pub after_map : ConfigDetails
    after_map = (parse_map float_text c.mount opts ignore []).0

    unfoldable pub after_url : ConfigDetails
    after_url = (parse_url float_text after_map share ignore).0

    pub after_url-eq-chosen :
        (k : String)
        → NodupKeys opts
        → or_else (lookup k after_url.forced) (lookup k after_url.options)
          ≡ chosen c share opts ignore k
    unfolding after_map after_url parse_url
    after_url-eq-chosen k distinct =
        let parts = split b'&' (query (split_two b'?' share)) in
        ground (
          arith,
          lookup-parse_query float_text after_map parts ignore [] k,
          parse_query_keeps float_text after_map parts ignore [],
          lookup-parse_map float_text c.mount opts ignore [] k distinct,
          parse_map_keeps float_text c.mount opts ignore [],
        )

    after_url-NodupKeys :
        NodupKeys c.mount.options
        → NodupKeys c.mount.forced
        → NodupKeys after_url.options × NodupKeys after_url.forced
    unfolding after_map after_url parse_url
    after_url-NodupKeys u w =
        let parts = split b'&' (query (split_two b'?' share)) in
        (
          parse_query-NodupKeys float_text after_map parts ignore []
              (parse_map-NodupKeys float_text c.mount opts ignore [] u),
          rw
              (
                (parse_query_keeps float_text after_map parts ignore []).1,
                (parse_map_keeps float_text c.mount opts ignore []).1,
              )
              w,
        )

  -- After `SetEntries` on maps with distinct keys, the mount configuration holds under every name
  -- the forced value, else the last one that the share's query gives, else the one of the request,
  -- else the operator's default, as a text, and never holds `sloppy_mount`. A query or a request
  -- gives a value only if it is not empty, its name is allowed and not on the ignore list.
  pub lookup-mount_config :
      (c : Config) (share : String) (opts : Params) (ignore : List String) (k : String)
      → NodupKeys c.mount.options
      → NodupKeys c.mount.forced
      → NodupKeys opts
      → lookup k (mount_config (set_entries float_text c share opts ignore).0)
        ≡ Option.map text (decided c share opts ignore k)
  unfolding set_entries after_map after_url
  lookup-mount_config c share opts ignore k u w distinct =
      let m = after_url c share opts ignore in
      let (u', w') = after_url-NodupKeys c share opts ignore u w in
      let (u'', w'') = is_sloppy_mount-NodupKeys m u' w' in
      lookup-mount_config_self _ k u'' w''
      ∙ ap (Option.map text) (
          ground (
            arith,
            after_url-eq-chosen c share opts ignore k distinct,
            is_sloppy_mount-options m k,
            is_sloppy_mount-forced m k,
          ))
