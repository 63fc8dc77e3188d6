-- ===== src/Base/Decimal.antt =====
-- The decimal text of a number, as `fmt` writes an integer under `%d` and `%#v`.
pub mod Laws
use Prim.Native.Nat.{ℕ, zero, suc, ◌+◌, ◌/◌, ◌%◌}
use Prim.Native.String.{String, ◌++◌ as ◌<>◌}
use mathlib.Core.List.{List, [], ◌∷◌}
use nfsbroker.Base.Equality.{◌=ℕ◌, if◌then◌else◌}

abbrev nth : List String → ℕ → String
nth [] i = ""
nth (x ∷ xs) zero = x
nth (x ∷ xs) (suc i) = nth xs i

-- The text of one digit.
unfoldable pub digit : ℕ → String
digit = nth ("0" ∷ "1" ∷ "2" ∷ "3" ∷ "4" ∷ "5" ∷ "6" ∷ "7" ∷ "8" ∷ "9" ∷ [])

-- Each round takes a digit off, so `n + 1` rounds are enough for `n`.
unfoldable pub decimal_loop : ℕ → ℕ → String
unfolding digit
decimal_loop zero n = ""
decimal_loop (suc fuel) n =
    let front = decimal_loop fuel (n / 10) in
    let last = digit (n % 10) in if n / 10 =ℕ 0 then last else front <> last

unfoldable pub decimal : ℕ → String
unfolding decimal_loop
decimal n = decimal_loop (suc n) n

-- `negsuc n` is -(n + 1).
pub data ℤ : Type 0 where
  pos : ℕ → ℤ
  negsuc : ℕ → ℤ

unfoldable pub show_ℤ : ℤ → String
unfolding decimal
show_ℤ (pos n) = decimal n
show_ℤ (negsuc n) = "-" <> decimal (n + 1)
