-- ===== src/Base/Text.antt =====
-- The functions of Go's `strings` that the broker calls, at a separator of one ASCII character.
pub mod Laws
use Prim.Native.Char.{Char, code}
use Prim.Native.Nat.{ℕ}
use Prim.Native.String.{String, ◌++◌ as ◌<>◌}
use mathlib.Core.Bool.{Bool, false, ◌||◌}
use mathlib.Core.List.{List, [], ◌∷◌}
use nfsbroker.Base.Equality.{◌=ℕ◌, if◌then◌else◌}

-- The character `c` in front of the first part.
abbrev pub extend : Char → List String → List String
extend c [] = String.◌∷◌ c String.[] ∷ []
extend c (part ∷ parts) = String.◌∷◌ c part ∷ parts

-- `strings.Split(s, sep)`
unfoldable pub split : ℕ → String → List String
split sep String.[] = String.[] ∷ []
split sep (String.◌∷◌ c s) =
    let parts = split sep s in if code c =ℕ sep then String.[] ∷ parts else extend c parts

-- `strings.SplitN(s, sep, 2)`: two parts, or one if the separator does not occur.
unfoldable pub split_two : ℕ → String → List String
split_two sep String.[] = String.[] ∷ []
split_two sep (String.◌∷◌ c s) =
    let parts = split_two sep s in if code c =ℕ sep then String.[] ∷ s ∷ [] else extend c parts

-- `strings.Join(parts, sep)`
unfoldable pub join : String → List String → String
join sep [] = String.[]
join sep (part ∷ []) = part
join sep (part ∷ next ∷ parts) = part <> (sep <> join sep (next ∷ parts))

-- `strings.Contains` of one character.
unfoldable pub has_char : ℕ → String → Bool
has_char sep String.[] = false
has_char sep (String.◌∷◌ c s) = code c =ℕ sep || has_char sep s
