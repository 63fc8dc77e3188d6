-- ===== src/Base/FilePath.antt =====
-- `path.Join` and `path.Clean` of Go, for a path that begins at the root.
use Prim.Native.String.{String, ◌++◌ as ◌<>◌}
use mathlib.Core.List.{List, [], ◌∷◌, reverse}
use nfsbroker.Base.Equality.{◌==◌, if◌then◌else◌}
use nfsbroker.Base.Text.{split, join}

abbrev parent : List String → List String
parent [] = []
parent (name ∷ names) = names

-- One element of a rooted path, onto the elements before it, the last first.
unfoldable pub enter : String → List String → List String
enter name names =
    if name == ""
    then names
    else if name == "."
    then names
    else if name == ".."
    then parent names
    else name ∷ names

unfoldable pub clean_elements : List String → List String → List String
unfolding enter
clean_elements [] names = names
clean_elements (name ∷ path) names = clean_elements path (enter name names)

-- `path.Clean`
unfoldable pub clean : String → String
unfolding clean_elements
clean path = "/" <> join "/" (reverse (clean_elements (split b'/' path) []))

-- `path.Join(base, name)`
unfoldable pub join_path : String → String → String
unfolding clean
join_path base name = if name == "" then clean base else clean (base <> ("/" <> name))

-- `filepath.Clean` of any path: one without a slash at its front keeps the `..` that lead out of it.
abbrev leave : List String → List String
leave [] = ".." ∷ []
leave (name ∷ names) = if name == ".." then ".." ∷ name ∷ names else names

unfoldable pub enter_relative : String → List String → List String
enter_relative name names =
    if name == ""
    then names
    else if name == "."
    then names
    else if name == ".."
    then leave names
    else name ∷ names

unfoldable pub relative_elements : List String → List String → List String
unfolding enter_relative
relative_elements [] names = names
relative_elements (name ∷ path) names = relative_elements path (enter_relative name names)

abbrev or_dot : String → String
or_dot path = if path == "" then "." else path

abbrev from_elements : List String → String → String
from_elements [] path = "."
from_elements (first ∷ []) path = or_dot (join "/" (reverse (relative_elements (first ∷ []) [])))
from_elements (first ∷ rest) path =
    if first == ""
    then clean path
    else or_dot (join "/" (reverse (relative_elements (first ∷ rest) [])))

unfoldable pub clean_path : String → String
unfolding clean relative_elements
clean_path path = from_elements (split b'/' path) path

-- `filepath.Join` of two elements: an empty one is left out.
unfoldable pub file_path_join : String → String → String
unfolding clean_path
file_path_join dir name =
    if dir == ""
    then (if name == "" then "" else clean_path name)
    else (if name == "" then clean_path dir else clean_path (dir <> ("/" <> name)))
