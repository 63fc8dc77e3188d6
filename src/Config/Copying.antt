-- ===== src/Config/Copying.antt =====
-- `Copy`: the copy has the entries of the original.
use nfsbroker.Base.{ℕ, String, ◌≡◌, ◌∙◌, refl, List, [], arith}
use nfsbroker.Base.Dict.{
  Dict, NodupKeys, lookup, copy_into, is_some, lookup-nil, lookup-copy_into, copy_into-NodupKeys,
}
use nfsbroker.Api.{Params}
use nfsbroker.Config.{Config, copy}
use nfsbroker.Config.Mount.{chosen}

-- The maps of a configuration have no name twice.
pub record IsConfig (c : Config) : Type 0 where
  pub options : NodupKeys c.mount.options
  pub forced : NodupKeys c.mount.forced

lookup-copy_fresh :
    (m : Dict String) (k : String) → NodupKeys m → lookup k (copy_into m []) ≡ lookup k m
unfolding is_some
lookup-copy_fresh m k u = lookup-copy_into m [] k u ∙ ground (arith, lookup-nil {V = String} k)

pub copy-IsConfig : (c : Config) → IsConfig (copy c)
unfolding copy
copy-IsConfig c = record {
  options = copy_into-NodupKeys c.mount.options [] tt;
  forced = copy_into-NodupKeys c.mount.forced [] tt;
}

-- The copy of a configuration has the same allowed names, the same switch and the same value under
-- every name of its two maps.
copy_lem :
    (c : Config)
    → IsConfig c
    → ((copy c).mount.allowed ≡ c.mount.allowed)
      × ((copy c).sloppy_mount ≡ c.sloppy_mount)
      × ((k : String)
          → (lookup k (copy c).mount.options ≡ lookup k c.mount.options)
            × (lookup k (copy c).mount.forced ≡ lookup k c.mount.forced))
unfolding copy
copy_lem c w = (
  refl,
  refl,
  λ k. (lookup-copy_fresh c.mount.options k w.options, lookup-copy_fresh c.mount.forced k w.forced),
)

pub chosen-copy :
    (float_text : ℕ → ℕ → String) (c : Config) (share : String) (opts : Params)
    (ignore : List String) (k : String)
    → IsConfig c
    → chosen float_text (copy c) share opts ignore k ≡ chosen float_text c share opts ignore k
chosen-copy float_text c share opts ignore k w =
    let (allowed, _, same) = copy_lem c w in rw (allowed, (same k).0, (same k).1)
