-- ===== src/Config/Order.antt =====
-- Go ranges over a map in any order: `SetEntries` does not depend on the order of the request.
use mathlib.Core.Bool.{◌&&◌, ◌||◌}
use mathlib.Core.Path.{ap₂}
use mathlib.Core.Option
use nfsbroker.Base.{
  ℕ, String, ◌≡◌, ◌↔◌, sym, refl, ◌∙◌, ap, true, none, some, List, [], ◌∷◌, ◌++◌, arith, ◌==◌,
  ==-eq, ==-refl, Bool-cases, inl, inr, if◌then◌else◌,
}
use nfsbroker.Base.Text.{split, split_two}
use nfsbroker.Base.Dict.{NodupKeys, lookup, in_array}
use nfsbroker.Api.{text, Value, Params}
use nfsbroker.Config.{Config}
use nfsbroker.Config.Entries.{mount_config, query, set_entries}
use nfsbroker.Config.Mount.{chosen, lookup-mount_config}
use nfsbroker.Config.Accept.{or_else, query_value, accept_found}
use nfsbroker.Config.Refusal.{all_listed, query_clean, switched_on, set_entries-eq-none_iff}

-- Two requests with the same value, or none, under every name: two orders of one map.
abbrev pub SameEntries : Params → Params → Type 0
SameEntries opts opts' = (k : String) → lookup k opts ≡ lookup k opts'

all_listed-lookup :
    (allowed : List String) (opts : Params) (k : String) (v : Value)
    → all_listed allowed opts ≡ true
    → lookup k opts ≡ some v
    → in_array allowed k ≡ true
unfolding lookup
all_listed-lookup allowed [] k v h e = absurd (ground (arith, e))
all_listed-lookup allowed ((j, w) ∷ opts) k v h e = elim (Bool-cases (j == k)) [
  | inl same ↦ ground (arith, ==-eq j k same)
  | inr other ↦ all_listed-lookup allowed opts k v (ground arith) (ground arith)
]

lookup-all_listed :
    (allowed : List String) (opts : Params)
    → ((k : String) (v : Value) → lookup k opts ≡ some v → in_array allowed k ≡ true)
    → all_listed allowed opts ≡ true
unfolding lookup
lookup-all_listed allowed [] h = refl
lookup-all_listed allowed ((j, w) ∷ opts) h =
    let first : in_array allowed j ≡ true = h j w (ground (arith, ==-refl j)) in
    let rest : all_listed allowed opts ≡ true = lookup-all_listed allowed opts λ k v e.
      elim (Bool-cases (j == k)) [
        | inl same ↦ ground (arith, ==-eq j k same)
        | inr other ↦ h k v (ground arith)
      ] in
    rw (first, rest) refl

all_listed-same :
    (allowed : List String) (opts opts' : Params)
    → SameEntries opts opts'
    → all_listed allowed opts ≡ all_listed allowed opts'
all_listed-same allowed opts opts' same = elim (Bool-cases (all_listed allowed opts)) [
  | inl listed ↦
      listed
      ∙ sym (
          lookup-all_listed allowed opts'
            λ k v e. all_listed-lookup allowed opts k v listed (same k ∙ e))
  | inr not_listed ↦ elim (Bool-cases (all_listed allowed opts')) [
    | inl listed ↦
        lookup-all_listed allowed opts
          (λ k v e. all_listed-lookup allowed opts' k v listed (sym (same k) ∙ e))
        ∙ sym listed
    | inr neither ↦ not_listed ∙ sym neither
  ]
]

module _ (float_text : ℕ → ℕ → String) (c : Config) (share : String) (opts opts' : Params)
    (ignore : List String) (same : SameEntries opts opts') where
  chosen-same :
      (k : String)
      → chosen float_text c share opts ignore k ≡ chosen float_text c share opts' ignore k
  chosen-same k =
      ap
        (λ o. or_else (lookup k c.mount.forced) (
          or_else (query_value c.mount.allowed ignore (split b'&' (query (split_two b'?' share))) k)
            (or_else (accept_found float_text c.mount.allowed ignore k o)
              (lookup k c.mount.options))))
        (same k)

  -- For two requests with distinct names that have the same value, or none, under every name, the
  -- mount configuration after `SetEntries` has the same entries, and both are accepted or both
  -- refused: the order in which Go ranges over the request does not matter.
  pub set_entries_order :
      NodupKeys c.mount.options
      → NodupKeys c.mount.forced
      → NodupKeys opts
      → NodupKeys opts'
      → ((k : String)
          → lookup k (mount_config (set_entries float_text c share opts ignore).0)
            ≡ lookup k (mount_config (set_entries float_text c share opts' ignore).0))
        × (((set_entries float_text c share opts ignore).1 ≡ none)
            ↔ ((set_entries float_text c share opts' ignore).1 ≡ none))
  set_entries_order u w distinct distinct' =
      let parts = split b'&' (query (split_two b'?' share)) in
      let clean = query_clean c.mount.allowed ignore parts in
      let e =
        ap₂ ◌||◌ (ap switched_on (chosen-same "sloppy_mount"))
          (ap (λ x. clean && x) (all_listed-same (ignore ++ c.mount.allowed) opts opts' same)) in
      let (to, from) = set_entries-eq-none_iff float_text c share opts ignore distinct in
      let (to', from') = set_entries-eq-none_iff float_text c share opts' ignore distinct' in
      (
        λ k.
            lookup-mount_config float_text c share opts ignore k u w distinct
            ∙ ap (λ o. Option.map text (if "sloppy_mount" == k then none else o)) (chosen-same k)
            ∙ sym (lookup-mount_config float_text c share opts' ignore k u w distinct'),
        ((λ h. from' (sym e ∙ to h)), (λ h. from (e ∙ to' h))),
      )
