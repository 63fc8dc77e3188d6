-- ===== src/Config/Query.antt =====
-- `parseUrl`: the options that it leaves, name by name.
use nfsbroker.Base.{ℕ, String, ◌≡◌, refl, ◌∙◌, List, [], ◌∷◌, ◌++◌, arith, ◌==◌, if◌then◌else◌}
use nfsbroker.Base.Text.{split_two}
use nfsbroker.Base.Dict.{NodupKeys, lookup, lookup-put, put-NodupKeys}
use nfsbroker.Api.{text}
use nfsbroker.Config.{ConfigDetails}
use nfsbroker.Config.Accept.{or_else, param_value, query_value}
use nfsbroker.Config.Entries.{uniform_key_data, parse_url_params, parse_query}

module _ (float_text : ℕ → ℕ → String) where
  uniform_key_data-text : (k s : String) → uniform_key_data float_text k (text s) ≡ s
  unfolding uniform_key_data
  uniform_key_data-text k s = ground arith

  pub parse_url_params_keeps :
      (m : ConfigDetails) (parts ignore : List String)
      → let m' = (parse_url_params float_text m parts ignore).0 in
        (m'.allowed ≡ m.allowed) × (m'.forced ≡ m.forced)
  unfolding parse_url_params
  parse_url_params_keeps m (key ∷ value ∷ _) ignore = ground arith
  parse_url_params_keeps m _ ignore = (refl, refl)

  parse_url_params-NodupKeys :
      (m : ConfigDetails) (parts ignore : List String)
      → NodupKeys m.options
      → NodupKeys (parse_url_params float_text m parts ignore).0.options
  unfolding parse_url_params
  parse_url_params-NodupKeys m (key ∷ value ∷ _) ignore u =
      ground (arith, put-NodupKeys key (uniform_key_data float_text key (text value)) m.options u)
  parse_url_params-NodupKeys m _ ignore u = u

  lookup-parse_url_params :
      (m : ConfigDetails) (parts ignore : List String) (j : String)
      → lookup j (parse_url_params float_text m parts ignore).0.options
        ≡ or_else (param_value m.allowed ignore parts j) (lookup j m.options)
  unfolding parse_url_params
  lookup-parse_url_params m (key ∷ value ∷ _) ignore j =
      rw uniform_key_data-text (ground (arith, lookup-put key j value m.options))
  lookup-parse_url_params m (key ∷ []) ignore j = refl
  lookup-parse_url_params m [] ignore j = refl

  pub parse_query_keeps :
      (m : ConfigDetails) (parts ignore errors : List String)
      → let m' = (parse_query float_text m parts ignore errors).0 in
        (m'.allowed ≡ m.allowed) × (m'.forced ≡ m.forced)
  unfolding parse_query
  parse_query_keeps m [] ignore errors = (refl, refl)
  parse_query_keeps m (p ∷ parts) ignore errors =
      let (m', key) = parse_url_params float_text m (split_two b'=' p) ignore in
      let (same, kept) = parse_query_keeps m' parts ignore _ in
      let (same', kept') = parse_url_params_keeps m (split_two b'=' p) ignore in
      (same ∙ same', kept ∙ kept')

  pub parse_query-NodupKeys :
      (m : ConfigDetails) (parts ignore errors : List String)
      → NodupKeys m.options
      → NodupKeys (parse_query float_text m parts ignore errors).0.options
  unfolding parse_query
  parse_query-NodupKeys m [] ignore errors u = u
  parse_query-NodupKeys m (p ∷ parts) ignore errors u =
      let (m', key) = parse_url_params float_text m (split_two b'=' p) ignore in
      parse_query-NodupKeys m' parts ignore _
        (parse_url_params-NodupKeys m (split_two b'=' p) ignore u)

  pub lookup-parse_query :
      (m : ConfigDetails) (parts ignore errors : List String) (j : String)
      → lookup j (parse_query float_text m parts ignore errors).0.options
        ≡ or_else (query_value m.allowed ignore parts j) (lookup j m.options)
  unfolding parse_query
  lookup-parse_query m [] ignore errors j = refl
  lookup-parse_query m (p ∷ parts) ignore errors j =
      let parts' = split_two b'=' p in
      let (m', key) = parse_url_params float_text m parts' ignore in
      ground (
        arith,
        lookup-parse_query m' parts ignore (if key == "" then errors else errors ++ key ∷ []) j,
        (parse_url_params_keeps m parts' ignore).0,
        lookup-parse_url_params m parts' ignore j,
      )
