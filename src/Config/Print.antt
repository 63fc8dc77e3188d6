-- ===== src/Config/Print.antt =====
-- Flags written from a list of names and a map read back as those: the form in which the
-- repository's tests, and an operator, write them.
use Prim.Native.String.{String, ◌++◌ as ◌<>◌}
use text.Mathlib.TextLemmas.{cons-append, cons-ne-nil}
use native.Mathlib.Decide.{ℕ_discrete}
use nfsbroker.Base.{◌≡◌, refl, ◌∙◌, ap, false, none, List, [], ◌∷◌, map, arith, ◌==◌, if◌then◌else◌}
use nfsbroker.Base.Text.{split, join, has_char}
use nfsbroker.Base.Text.Laws.{has_char-append, AllFree, split-join, split_two-append}
use nfsbroker.Base.Dict.{
  Dict, NodupKeys, lookup, put, in_array, is_some, copy_into, lookup-nil, lookup-copy_into,
}
use nfsbroker.Api.{ok}
use nfsbroker.Config.{ConfigDetails, new_config_details}
use nfsbroker.Config.Defaults.{read_conf-divides}
use nfsbroker.Config.Force.{force-allowed}
use nfsbroker.Config.Read.{parse_entry, parse_config, force, read_conf_default, read_conf}

-- `k:v`
abbrev pub print_entry : String × String → String
print_entry (k, v) = k <> (":" <> v)

-- `k1:v1,k2:v2`
abbrev pub print_defaults : Dict String → String
print_defaults m = join "," (map print_entry m)

-- Names that can be written so: not empty, with no comma and no colon; values with no comma.
abbrev pub Printable : Dict String → Type 0
Printable [] = Unit
Printable ((k, v) ∷ m) =
    ((k == "") ≡ false)
    × (has_char b':' k ≡ false)
    × (has_char b',' k ≡ false)
    × (has_char b',' v ≡ false)
    × Printable m

entries_free : (m : Dict String) → Printable m → AllFree b',' (map print_entry m)
unfolding has_char ℕ_discrete
entries_free [] p = tt
entries_free ((k, v) ∷ m) (named, colon, comma, comma', p) =
    (rw (has_char-append, has_char-append, comma, comma'), entries_free m p)

parse_config_printed :
    (m result : Dict String)
    → Printable m
    → parse_config (map print_entry m) result ≡ ok (copy_into m result)
unfolding parse_config copy_into
parse_config_printed [] result p = refl
parse_config_printed ((k, v) ∷ m) result (named, colon, comma, comma', p) =
    rw (split_two-append ":" k v colon, parse_entry, named)
      (parse_config_printed m (put k v result) p)

-- Defaults written from a map with printable entries and distinct names are parsed into a map that
-- holds the same value under every name.
parse_config-print_defaults :
    (k₀ v₀ : String) (m : Dict String)
    → let m₀ : Dict String = (k₀, v₀) ∷ m in
      Printable m₀
      → NodupKeys m₀
      → (r : Dict String) × (parse_config (split b',' (print_defaults m₀)) [] ≡ ok r)
        × ((k : String) → lookup k r ≡ lookup k m₀)
unfolding is_some
parse_config-print_defaults k₀ v₀ m p u =
    let m₀ : Dict String = (k₀, v₀) ∷ m in
    (
      copy_into m₀ [],
      ap (λ l. parse_config l []) (split-join "," _ _ (entries_free m₀ p))
          ∙ parse_config_printed m₀ [] p,
      λ k. lookup-copy_into m₀ [] k u ∙ ground (arith, lookup-nil {V = String} k),
    )

append-ne-empty : (s t : String) → (s == "") ≡ false → ((s <> t) == "") ≡ false
append-ne-empty String.[] t h = ground arith
append-ne-empty (String.◌∷◌ c s) t h = rw cons-append (ground (arith, cons-ne-nil c (s <> t)))

print_defaults-ne-empty :
    (k v : String) (m : Dict String)
    → (k == "") ≡ false
    → (print_defaults ((k, v) ∷ m) == "") ≡ false
unfolding join
print_defaults-ne-empty k v [] h = append-ne-empty k (":" <> v) h
print_defaults-ne-empty k v ((j, w) ∷ m) h =
    append-ne-empty (k <> (":" <> v)) _ (append-ne-empty k (":" <> v) h)

-- Flags written from a list of names with no comma and from a map with printable entries and
-- distinct names are read back: the allowed names are the list, and each entry of the map is found
-- among the options if its name is in the list, and among the forced values if not.
pub read_conf-print :
    (names : List String) (name k₀ v₀ : String) (m : Dict String)
    → let m₀ : Dict String = (k₀, v₀) ∷ m in
      AllFree b',' (name ∷ names)
      → (join "," (name ∷ names) == "") ≡ false
      → Printable m₀
      → NodupKeys m₀
      → (m' : ConfigDetails) × (read_conf new_config_details
            (join "," (name ∷ names))
            (print_defaults m₀)
          ≡ ok m')
        × (m'.allowed ≡ name ∷ names)
        × ((k : String)
            → (lookup k m'.options ≡ (if in_array (name ∷ names) k then lookup k m₀ else none))
              × (lookup k m'.forced ≡ (if in_array (name ∷ names) k then none else lookup k m₀)))
unfolding read_conf read_conf_default
read_conf-print names name k₀ v₀ m free written p u =
    let m₀ : Dict String = (k₀, v₀) ∷ m in
    let flag = join "," (name ∷ names) in
    let listed : split b',' flag ≡ name ∷ names = split-join "," name names free in
    let given = print_defaults-ne-empty k₀ v₀ m p.0 in
    let (r, parsed, found) = parse_config-print_defaults k₀ v₀ m p u in
    let m' = force (split b',' flag) r [] r in
    let e : read_conf new_config_details flag (print_defaults m₀) ≡ ok m' =
      rw (written, given, parsed) in
    let (r', parsed', allowed, _, _, divided) =
      read_conf-divides new_config_details flag (print_defaults m₀) e given in
    let same : m'.allowed ≡ name ∷ names = force-allowed (split b',' flag) r [] r ∙ listed in
    (m', e, same, λ k. ground (arith, divided k, found k, same, parsed, parsed'))
