-- ===== src/Base/Decimal/Laws.antt =====
-- The decimal text of a number reads as that number, so its fuel is enough, and consists of digits.
use Prim.Native.Char.{code}
use Prim.Native.Nat.{ℕ, zero, suc, ◌+◌, ◌-◌, ◌*◌, ◌/◌, ◌%◌, ◌≤◌, ◌<◌}
use Prim.Native.String.{String, ◌++◌ as ◌<>◌}
use text.Mathlib.TextLemmas.{nil-append, cons-append}
use native.Mathlib.Omega.{arith}
use native.Mathlib.Decide.{ℕ_discrete}
use mathlib.Core.Path.{◌≡◌, refl, ap, ◌∙◌}
use mathlib.Core.Logic.{inl, inr}
use mathlib.Core.Bool.{false}
use nfsbroker.Base.Equality.{◌=ℕ◌, Bool-cases}
use nfsbroker.Base.Text.{has_char}
use nfsbroker.Base.Text.Laws.{has_char-append}
use nfsbroker.Base.Decimal.{digit, decimal_loop, decimal}

-- The number that a text of digits stands for, behind the digits that were read.
unfoldable pub read_digits : ℕ → String → ℕ
read_digits acc String.[] = acc
read_digits acc (String.◌∷◌ c s) = read_digits (acc * 10 + (code c - b'0')) s

read_digits-append :
    (acc : ℕ) (s t : String) → read_digits acc (s <> t) ≡ read_digits (read_digits acc s) t
unfolding read_digits
read_digits-append acc String.[] t = ap (read_digits acc) (nil-append t)
read_digits-append acc (String.◌∷◌ c s) t =
    ap (read_digits acc) (cons-append c s t) ∙ read_digits-append (acc * 10 + (code c - b'0')) s t

read_digits-digit : (acc d : ℕ) → d < 10 → read_digits acc (digit d) ≡ acc * 10 + d
unfolding read_digits digit
read_digits-digit acc zero h = omega arith
read_digits-digit acc (suc zero) h = omega arith
read_digits-digit acc (suc (suc zero)) h = omega arith
read_digits-digit acc (suc (suc (suc zero))) h = omega arith
read_digits-digit acc (suc (suc (suc (suc zero)))) h = omega arith
read_digits-digit acc (suc (suc (suc (suc (suc zero))))) h = omega arith
read_digits-digit acc (suc (suc (suc (suc (suc (suc zero)))))) h = omega arith
read_digits-digit acc (suc (suc (suc (suc (suc (suc (suc zero))))))) h = omega arith
read_digits-digit acc (suc (suc (suc (suc (suc (suc (suc (suc zero)))))))) h = omega arith
read_digits-digit acc (suc (suc (suc (suc (suc (suc (suc (suc (suc zero))))))))) h = omega arith
read_digits-digit acc (suc (suc (suc (suc (suc (suc (suc (suc (suc (suc d)))))))))) h =
    absurd (omega arith)

digit_free : (d : ℕ) → has_char b'?' (digit d) ≡ false
unfolding has_char digit ℕ_discrete
digit_free zero = refl
digit_free (suc zero) = refl
digit_free (suc (suc zero)) = refl
digit_free (suc (suc (suc zero))) = refl
digit_free (suc (suc (suc (suc zero)))) = refl
digit_free (suc (suc (suc (suc (suc zero))))) = refl
digit_free (suc (suc (suc (suc (suc (suc zero)))))) = refl
digit_free (suc (suc (suc (suc (suc (suc (suc zero))))))) = refl
digit_free (suc (suc (suc (suc (suc (suc (suc (suc zero)))))))) = refl
digit_free (suc (suc (suc (suc (suc (suc (suc (suc (suc zero))))))))) = refl
digit_free (suc (suc (suc (suc (suc (suc (suc (suc (suc (suc d)))))))))) = refl

-- One round, where the digits in front read as the number in front.
round_digits :
    (fuel n : ℕ)
    → (0 < n / 10 → read_digits 0 (decimal_loop fuel (n / 10)) ≡ n / 10)
    → read_digits 0 (decimal_loop (suc fuel) n) ≡ n
unfolding decimal_loop
round_digits fuel n front = elim (Bool-cases (n / 10 =ℕ 0)) [
  | inl single ↦ rw single (read_digits-digit 0 (n % 10) (omega arith) ∙ ground arith)
  | inr more ↦ rw more (
      read_digits-append 0 (decimal_loop fuel (n / 10)) (digit (n % 10))
      ∙ read_digits-digit _ (n % 10) (omega arith)
      ∙ ap (λ k. k * 10 + n % 10) (front (ground arith))
      ∙ omega arith)
]

decimal_loop-digits : (fuel n : ℕ) → n ≤ fuel → read_digits 0 (decimal_loop (suc fuel) n) ≡ n
decimal_loop-digits zero n h = round_digits zero n (λ pos. absurd (omega arith))
decimal_loop-digits (suc fuel) n h =
    round_digits (suc fuel) n (λ pos. decimal_loop-digits fuel (n / 10) (omega arith))

-- The text of a number reads as the number, so that the fuel is enough for each.
pub read_digits-decimal : (n : ℕ) → read_digits 0 (decimal n) ≡ n
unfolding decimal
read_digits-decimal n = decimal_loop-digits n n (omega arith)

decimal_loop_free : (fuel n : ℕ) → has_char b'?' (decimal_loop fuel n) ≡ false
unfolding decimal_loop has_char
decimal_loop_free zero n = refl
decimal_loop_free (suc fuel) n = ground (
  arith,
  digit_free (n % 10),
  decimal_loop_free fuel (n / 10),
  has_char-append b'?' (decimal_loop fuel (n / 10)) (digit (n % 10)),
)

-- It has no question mark.
pub decimal_free : (n : ℕ) → has_char b'?' (decimal n) ≡ false
unfolding decimal
decimal_free n = decimal_loop_free (suc n) n
