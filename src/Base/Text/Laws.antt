-- ===== src/Base/Text/Laws.antt =====
-- Laws of splitting and joining.
use Prim.Native.Char.{Char, code}
use Prim.Native.Nat.{ℕ}
use Prim.Native.String.{String, ◌++◌ as ◌<>◌}
use text.Mathlib.TextLemmas.{nil-append, cons-append}
use mathlib.Core.Path.{◌≡◌, refl, ap, ◌∙◌}
use mathlib.Core.Logic.{inl, inr}
use mathlib.Core.Bool.{true, false, ◌||◌}
use mathlib.Core.List.{List, [], ◌∷◌}
use native.Mathlib.Omega.{arith}
use nfsbroker.Base.Equality.{Bool-cases, ◌=ℕ◌}
use nfsbroker.Base.Text.{split, split_two, join, has_char}

-- A separator, as a text.
abbrev pub single : Char → String
single c = String.◌∷◌ c String.[]

-- No part of a list has the separator.
abbrev pub AllFree : ℕ → List String → Type 0
AllFree sep [] = Unit
AllFree sep (part ∷ parts) = (has_char sep part ≡ false) × AllFree sep parts

pub has_char-append :
    (sep : ℕ) (s t : String) → has_char sep (s <> t) ≡ (has_char sep s || has_char sep t)
unfolding has_char
has_char-append sep String.[] t = rw nil-append
has_char-append sep (String.◌∷◌ c s) t = rw cons-append (ground (arith, has_char-append sep s t))

split_free : (sep : ℕ) (s : String) → has_char sep s ≡ false → split sep s ≡ s ∷ []
unfolding split has_char
split_free sep String.[] h = refl
split_free sep (String.◌∷◌ c s) h = ground (arith, split_free sep s)

split-append :
    (sep : Char) (s t : String)
    → has_char (code sep) s ≡ false
    → split (code sep) (s <> (single sep <> t)) ≡ s ∷ split (code sep) t
unfolding split has_char
split-append sep String.[] t h = rw (nil-append, cons-append, nil-append) (ground arith)
split-append sep (String.◌∷◌ c s) t h = rw (cons-append c s) (ground (arith, split-append sep s t))

-- Splitting undoes joining, for parts that are free of the separator.
pub split-join :
    (sep : Char) (part : String) (parts : List String)
    → AllFree (code sep) (part ∷ parts)
    → split (code sep) (join (single sep) (part ∷ parts)) ≡ part ∷ parts
unfolding join
split-join sep part [] h = split_free (code sep) part h.0
split-join sep part (next ∷ parts) h =
    split-append sep part _ h.0 ∙ ap (λ l. part ∷ l) (split-join sep next parts h.1)

pub split_two_free : (sep : ℕ) (s : String) → has_char sep s ≡ false → split_two sep s ≡ s ∷ []
unfolding split_two has_char
split_two_free sep String.[] h = refl
split_two_free sep (String.◌∷◌ c s) h = ground (arith, split_two_free sep s)

pub split_two-append :
    (sep : Char) (s t : String)
    → has_char (code sep) s ≡ false
    → split_two (code sep) (s <> (single sep <> t)) ≡ s ∷ t ∷ []
unfolding split_two has_char
split_two-append sep String.[] t h = rw (nil-append, cons-append, nil-append) (ground arith)
split_two-append sep (String.◌∷◌ c s) t h =
    rw (cons-append c s) (ground (arith, split_two-append sep s t))

-- The two parts around the first separator.
pub split_two_found :
    (sep : ℕ) (s : String)
    → has_char sep s ≡ true
    → (before : String) × (after : String) × (split_two sep s ≡ before ∷ after ∷ [])
unfolding split_two has_char
split_two_found sep String.[] h = ground arith
split_two_found sep (String.◌∷◌ c s) h = elim (Bool-cases (code c =ℕ sep)) [
  | inl here ↦ (String.[], s, rw here)
  | inr later ↦
      let (before, after, e) = split_two_found sep s (ground arith) in
      (String.◌∷◌ c before, after, rw (later, e))
]
