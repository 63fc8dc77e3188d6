-- ===== src/Config/Force.antt =====
-- The loop of `readConfDefault`: the defaults that are not allowed are forced, the others stay
-- options.
use mathlib.Core.Bool.{◌&&◌, not}
use nfsbroker.Base.{String, ◌≡◌, refl, none, List, [], ◌∷◌, arith, if◌then◌else◌}
use nfsbroker.Base.Dict.{
  Dict, NodupKeys, lookup, put, erase, in_array, is_some, lookup-put, lookup-erase, put-NodupKeys,
  erase-NodupKeys,
}
use nfsbroker.Config.Read.{force}

pub force-forced :
    (allowed : List String) (entries forced options : Dict String) (k : String)
    → NodupKeys entries
    → lookup k (force allowed entries forced options).forced ≡ (
        if is_some (lookup k entries) && not (in_array allowed k)
        then lookup k entries
        else lookup k forced)
unfolding force lookup is_some
force-forced allowed [] forced options k u = refl
force-forced allowed ((j, v) ∷ entries) forced options k (fresh, u) = ground (
  arith,
  force-forced allowed entries (if in_array allowed j then forced else put j v forced)
      (if in_array allowed j then options else erase j options) k u,
  lookup-put j k v forced,
)

pub force-options :
    (allowed : List String) (entries forced options : Dict String) (k : String)
    → NodupKeys entries
    → lookup k (force allowed entries forced options).options
      ≡ (if is_some (lookup k entries) && not (in_array allowed k) then none else lookup k options)
unfolding force lookup is_some
force-options allowed [] forced options k u = refl
force-options allowed ((j, v) ∷ entries) forced options k (fresh, u) = ground (
  arith,
  force-options allowed entries (if in_array allowed j then forced else put j v forced)
      (if in_array allowed j then options else erase j options) k u,
  lookup-erase j k options,
)

pub force-allowed :
    (allowed : List String) (entries forced options : Dict String)
    → (force allowed entries forced options).allowed ≡ allowed
unfolding force
force-allowed allowed [] forced options = refl
force-allowed allowed ((j, v) ∷ entries) forced options = force-allowed allowed entries _ _

pub force-NodupKeys :
    (allowed : List String) (entries forced options : Dict String)
    → NodupKeys forced
    → NodupKeys options
    → let m = force allowed entries forced options in NodupKeys m.forced × NodupKeys m.options
unfolding force
force-NodupKeys allowed [] forced options u w = (u, w)
force-NodupKeys allowed ((j, v) ∷ entries) forced options u w =
    force-NodupKeys allowed entries _ _ (ground (arith, put-NodupKeys j v forced u))
      (ground (arith, erase-NodupKeys j options w))
