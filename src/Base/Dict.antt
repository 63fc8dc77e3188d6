-- ===== src/Base/Dict.antt =====
-- Go's maps with string keys, as association lists in the order in which a `range` visits them.
use mathlib.Core.Path.{◌≡◌, refl, sym, ap, ◌∙◌}
use mathlib.Core.Logic.{inl, inr}
use mathlib.Core.Bool.{Bool, true, false, ◌||◌}
use mathlib.Core.Option.{Option, none, some}
use mathlib.Core.List.{List, [], ◌∷◌}
use Prim.Native.String.{String}
use Prim.Native.Nat.{ℕ, suc}
use native.Mathlib.Omega.{arith}
use nfsbroker.Base.Equality.{==-refl, ==-eq, Bool-cases, ◌==◌, if◌then◌else◌}

abbrev pub Dict {ℓ} : Type ℓ → Type ℓ
Dict V = List (String × V)

-- `len(m)` of a map with distinct keys.
abbrev pub length {ℓ} : {A : Type ℓ} → List A → ℕ
length [] = 0
length (x ∷ xs) = suc (length xs)

-- `inArray` of nfsbroker_config.go.
unfoldable pub in_array : List String → String → Bool
in_array [] key = false
in_array (k ∷ list) key = k == key || in_array list key

unfoldable pub is_some {ℓ} : {A : Type ℓ} → Option A → Bool
is_some none = false
is_some (some a) = true

module _ {ℓ} {V : Type ℓ} where
  -- `v, ok := m[k]`
  unfoldable pub lookup : String → Dict V → Option V
  lookup k [] = none
  lookup k ((j, v) ∷ m) = if j == k then some v else lookup k m

  -- `m[k] = v`
  unfoldable pub put : String → V → Dict V → Dict V
  put k v [] = (k, v) ∷ []
  put k v ((j, w) ∷ m) = if j == k then (k, v) ∷ m else (j, w) ∷ put k v m

  -- `delete(m, k)`
  unfoldable pub erase : String → Dict V → Dict V
  erase k [] = []
  erase k ((j, w) ∷ m) = let rest = erase k m in if j == k then rest else (j, w) ∷ rest

  -- A map has no key twice.
  abbrev pub NodupKeys : Dict V → Type ℓ
  NodupKeys [] = Unit
  NodupKeys ((k, _) ∷ m) = (lookup k m ≡ none) × NodupKeys m

  pub lookup-nil : (k : String) → lookup k [] ≡ none
  unfolding lookup
  lookup-nil k = refl

  pub lookup-cons :
      (k j : String) (v : V) (m : Dict V)
      → lookup j ((k, v) ∷ m) ≡ (if k == j then some v else lookup j m)
  unfolding lookup
  lookup-cons k j v m = refl

  pub lookup-put :
      (k j : String) (v : V) (m : Dict V)
      → lookup j (put k v m) ≡ (if k == j then some v else lookup j m)
  unfolding lookup put
  lookup-put k j v [] = refl
  lookup-put k j v ((i, w) ∷ m) = ground (arith, lookup-put k j v m)

  pub lookup-erase :
      (k j : String) (m : Dict V) → lookup j (erase k m) ≡ (if k == j then none else lookup j m)
  unfolding lookup erase
  lookup-erase k j [] = ground arith
  lookup-erase k j ((i, w) ∷ m) = ground (arith, lookup-erase k j m)

  pub put-NodupKeys : (k : String) (v : V) (m : Dict V) → NodupKeys m → NodupKeys (put k v m)
  unfolding put
  put-NodupKeys k v [] _ = (lookup-nil k, tt)
  put-NodupKeys k v ((j, w) ∷ m) (fresh, u) =
      ground (arith, put-NodupKeys k v m u, lookup-put k j v m)

  pub erase-NodupKeys : (k : String) (m : Dict V) → NodupKeys m → NodupKeys (erase k m)
  unfolding erase
  erase-NodupKeys k [] _ = tt
  erase-NodupKeys k ((j, w) ∷ m) (fresh, u) =
      ground (arith, erase-NodupKeys k m u, lookup-erase k j m)

  -- `for k, v := range m { target[k] = v }`
  unfoldable pub copy_into : Dict V → Dict V → Dict V
  copy_into [] target = target
  copy_into ((k, v) ∷ m) target = copy_into m (put k v target)

  pub lookup-copy_into :
      (m target : Dict V) (j : String)
      → NodupKeys m
      → lookup j (copy_into m target)
        ≡ (if is_some (lookup j m) then lookup j m else lookup j target)
  unfolding lookup copy_into is_some
  lookup-copy_into [] target j u = refl
  lookup-copy_into ((k, v) ∷ m) target j (fresh, u) =
      ground (arith, lookup-copy_into m (put k v target) j u, lookup-put k j v target)

  pub copy_into-NodupKeys : (m target : Dict V) → NodupKeys target → NodupKeys (copy_into m target)
  unfolding copy_into
  copy_into-NodupKeys [] target u = u
  copy_into-NodupKeys ((k, v) ∷ m) target u =
      copy_into-NodupKeys m (put k v target) (put-NodupKeys k v target u)

pub ruleset dict_laws = (lookup-nil, lookup-put, lookup-erase)

pub lookup-put_self {ℓ} :
    {V : Type ℓ} (k : String) (v : V) (m : Dict V) → lookup k (put k v m) ≡ some v
lookup-put_self k v m = rw (lookup-put k k v m) (rw (==-refl k) refl)

pub lookup-erase-put {ℓ} :
    {V : Type ℓ} (id k : String) (v : V) (m : Dict V)
    → lookup id m ≡ none
    → lookup k (erase id (put id v m)) ≡ lookup k m
lookup-erase-put id k v m fresh = rw (lookup-erase id k (put id v m)) (elim (Bool-cases (id == k)) [
  | inl same ↦ rw same (sym fresh ∙ ap (λ j. lookup j m) (==-eq id k same))
  | inr other ↦ rw other (lookup-put id k v m ∙ rw other refl)
])
