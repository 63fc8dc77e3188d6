-- ===== src/Config/Map.antt =====
-- `parseMap`: the options that it leaves, name by name.
use nfsbroker.Base.{ℕ, String, ◌≡◌, refl, ◌∙◌, List, [], ◌∷◌, arith, ◌==◌, if◌then◌else◌}
use nfsbroker.Base.Dict.{NodupKeys, lookup, lookup-put, put-NodupKeys}
use nfsbroker.Api.{Value, Params}
use nfsbroker.Config.{ConfigDetails}
use nfsbroker.Config.Accept.{or_else, accept, requested}
use nfsbroker.Config.Entries.{uniform_key_data, parse_map, parse_map_entry}

module _ (float_text : ℕ → ℕ → String) where
  parse_map_entry_keeps :
      (m : ConfigDetails) (k : String) (v : Value) (ignore errors : List String)
      → let m' = (parse_map_entry float_text m k v ignore errors).0 in
        (m'.allowed ≡ m.allowed) × (m'.forced ≡ m.forced)
  unfolding parse_map_entry
  parse_map_entry_keeps m k v ignore errors = ground arith

  parse_map_entry-NodupKeys :
      (m : ConfigDetails) (k : String) (v : Value) (ignore errors : List String)
      → NodupKeys m.options
      → NodupKeys (parse_map_entry float_text m k v ignore errors).0.options
  unfolding parse_map_entry
  parse_map_entry-NodupKeys m k v ignore errors u =
      ground (arith, put-NodupKeys k (uniform_key_data float_text k v) m.options u)

  lookup-parse_map_entry :
      (m : ConfigDetails) (k : String) (v : Value) (ignore errors : List String) (j : String)
      → lookup j (parse_map_entry float_text m k v ignore errors).0.options ≡ (
          if k == j
          then or_else (accept float_text m.allowed ignore k v) (lookup j m.options)
          else lookup j m.options)
  unfolding parse_map_entry
  lookup-parse_map_entry m k v ignore errors j =
      ground (arith, lookup-put k j (uniform_key_data float_text k v) m.options)

  pub parse_map_keeps :
      (m : ConfigDetails) (opts : Params) (ignore errors : List String)
      → let m' = (parse_map float_text m opts ignore errors).0 in
        (m'.allowed ≡ m.allowed) × (m'.forced ≡ m.forced)
  unfolding parse_map
  parse_map_keeps m [] ignore errors = (refl, refl)
  parse_map_keeps m ((k, v) ∷ opts) ignore errors =
      let (m', errors') = parse_map_entry float_text m k v ignore errors in
      let (same, kept) = parse_map_keeps m' opts ignore errors' in
      let (same', kept') = parse_map_entry_keeps m k v ignore errors in (same ∙ same', kept ∙ kept')

  pub parse_map-NodupKeys :
      (m : ConfigDetails) (opts : Params) (ignore errors : List String)
      → NodupKeys m.options
      → NodupKeys (parse_map float_text m opts ignore errors).0.options
  unfolding parse_map
  parse_map-NodupKeys m [] ignore errors u = u
  parse_map-NodupKeys m ((k, v) ∷ opts) ignore errors u =
      let (m', errors') = parse_map_entry float_text m k v ignore errors in
      parse_map-NodupKeys m' opts ignore errors' (parse_map_entry-NodupKeys m k v ignore errors u)

  pub lookup-parse_map :
      (m : ConfigDetails) (opts : Params) (ignore errors : List String) (j : String)
      → NodupKeys opts
      → lookup j (parse_map float_text m opts ignore errors).0.options
        ≡ or_else (requested float_text m.allowed ignore opts j) (lookup j m.options)
  unfolding parse_map lookup
  lookup-parse_map m [] ignore errors j u = refl
  lookup-parse_map m ((k, v) ∷ opts) ignore errors j (fresh, u) =
      let (m', errors') = parse_map_entry float_text m k v ignore errors in
      ground (
        arith,
        lookup-parse_map m' opts ignore errors' j u,
        (parse_map_entry_keeps m k v ignore errors).0,
        lookup-parse_map_entry m k v ignore errors j,
      )
