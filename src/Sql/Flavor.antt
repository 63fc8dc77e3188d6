-- ===== src/Sql/Flavor.antt =====
-- What `(*postgresVariant).Flavorify` of nfsbroker/sql_postgres.go makes of a query.
use Prim.Native.Char.{Char, code}
use Prim.Native.String.{String, ◌++◌ as ◌<>◌}
use text.Mathlib.TextLemmas.{nil-append, cons-append, append-nil, append_assoc}
use nfsbroker.Base.{
  ℕ, suc, inl, inr, sym, ◌≡◌, refl, ◌∙◌, ap, false, List, [], ◌∷◌, ◌=ℕ◌, if◌then◌else◌, arith,
  Bool-cases,
}
use native.Mathlib.Decide.{ℕ_discrete}
use nfsbroker.Base.Text.{split, join, extend, has_char}
use nfsbroker.Base.Text.Laws.{has_char-append}
use nfsbroker.Base.Decimal.{decimal}
use nfsbroker.Base.Decimal.Laws.{decimal_free}
use nfsbroker.Sql.{number_parts, flavorify_postgres}

-- The query read once from the left: the i-th question mark becomes `$i`, and all else stays.
unfoldable pub placeholders : ℕ → String → String
placeholders i String.[] = ""
placeholders i (String.◌∷◌ c s) =
    let next = placeholders (suc i) s in
    let same = placeholders i s in
    if code c =ℕ b'?' then "$" <> (decimal i <> next) else String.◌∷◌ c same

split-cons :
    (sep : ℕ) (s : String) → (part : String) × (parts : List String) × (split sep s ≡ part ∷ parts)
unfolding split
split-cons sep String.[] = (_, _, refl)
split-cons sep (String.◌∷◌ c s) = elim (Bool-cases (code c =ℕ sep)) [
  | inl here ↦ (String.[], split sep s, rw here)
  | inr other ↦ let (part, parts, e) = split-cons sep s in (String.◌∷◌ c part, parts, rw (other, e))
]

join-cons : (part : String) (parts : List String) → join "" (part ∷ parts) ≡ part <> join "" parts
unfolding join
join-cons part [] = sym (append-nil part)
join-cons part (next ∷ parts) = ap (λ s. part <> s) (nil-append (join "" (next ∷ parts)))

number_parts-extend :
    (c : Char) (i : ℕ) (part : String) (parts : List String)
    → join "" (number_parts i (extend c (part ∷ parts)))
      ≡ String.◌∷◌ c (join "" (number_parts i (part ∷ parts)))
unfolding number_parts
number_parts-extend c i part [] =
    join-cons (String.◌∷◌ c part) []
    ∙ cons-append c part (join "" [])
    ∙ ap (String.◌∷◌ c) (sym (join-cons part []))
number_parts-extend c i part (next ∷ parts) =
    let mark = "$" <> decimal i in
    let rest = number_parts (suc i) (next ∷ parts) in
    rw (cons-append c part mark) (
      join-cons _ rest
      ∙ cons-append c (part <> mark) (join "" rest)
      ∙ ap (String.◌∷◌ c) (sym (join-cons _ rest)))

number_parts_lem : (i : ℕ) (s : String) → join "" (number_parts i (split b'?' s)) ≡ placeholders i s
unfolding number_parts split placeholders join
number_parts_lem i String.[] = refl
number_parts_lem i (String.◌∷◌ c s) =
    let (part, parts, e) = split-cons b'?' s in
    elim (Bool-cases (code c =ℕ b'?')) [
      | inl here ↦ rw here (
          rw e (
            join-cons _ (number_parts (suc i) (part ∷ parts))
            ∙ rw nil-append (append_assoc "$" (decimal i) _)
            ∙ ap (λ t. "$" <> (decimal i <> t))
                (ap (λ l. join "" (number_parts (suc i) l)) (sym e) ∙ number_parts_lem (suc i) s)))
      | inr other ↦
          rw other
            (rw e (number_parts-extend c i part parts) ∙ ap (String.◌∷◌ c) (number_parts_lem i s))
    ]

-- `Flavorify` numbers the question marks of a query from 1 on, in their order, and changes nothing
-- else.
pub flavorify_postgres-eq-placeholders :
    (query : String) → flavorify_postgres query ≡ placeholders 1 query
unfolding flavorify_postgres
flavorify_postgres-eq-placeholders query = number_parts_lem 1 query

pub placeholders-append :
    (i : ℕ) (s t : String)
    → has_char b'?' s ≡ false
    → placeholders i (s <> t) ≡ s <> placeholders i t
unfolding placeholders has_char
placeholders-append i String.[] t free =
    ap (placeholders i) (nil-append t) ∙ sym (nil-append (placeholders i t))
placeholders-append i (String.◌∷◌ c s) t free =
    rw (cons-append c s t)
      (ground (arith, placeholders-append i s t, cons-append c s (placeholders i t)))

pub placeholders-mark :
    (i : ℕ) (t : String) → placeholders i ("?" <> t) ≡ ("$" <> decimal i) <> placeholders (suc i) t
unfolding placeholders ℕ_discrete
placeholders-mark i t =
    ap (placeholders i) (cons-append "?" "" t ∙ ap (String.◌∷◌ "?") (nil-append t))
    ∙ sym (append_assoc "$" (decimal i) (placeholders (suc i) t))

pub placeholders_free : (i : ℕ) (s : String) → has_char b'?' s ≡ false → placeholders i s ≡ s
unfolding placeholders has_char
placeholders_free i String.[] free = refl
placeholders_free i (String.◌∷◌ c s) free = ground (arith, placeholders_free i s)

pub placeholders_last : (i : ℕ) → placeholders i "?" ≡ "$" <> decimal i
unfolding placeholders ℕ_discrete
placeholders_last i = ap (λ s. "$" <> s) (append-nil (decimal i))

mark_free :
    (number rest : String)
    → has_char b'?' number ≡ false
    → has_char b'?' rest ≡ false
    → has_char b'?' ("$" <> (number <> rest)) ≡ false
unfolding has_char ℕ_discrete
mark_free number rest free free' =
    has_char-append b'?' "$" (number <> rest)
    ∙ has_char-append b'?' number rest
    ∙ rw (free, free') refl

placeholders-has_char : (i : ℕ) (s : String) → has_char b'?' (placeholders i s) ≡ false
unfolding placeholders has_char
placeholders-has_char i String.[] = refl
placeholders-has_char i (String.◌∷◌ c s) = elim (Bool-cases (code c =ℕ b'?')) [
  | inl here ↦ rw here (
      mark_free (decimal i) (placeholders (suc i) s) (decimal_free i)
        (placeholders-has_char (suc i) s))
  | inr other ↦ rw (other, has_char) (rw other (placeholders-has_char i s))
]

-- What PostgreSQL's `Flavorify` writes has no question mark, however many the query has: every
-- placeholder is rewritten.
pub flavorify_postgres-has_char :
    (query : String) → has_char b'?' (flavorify_postgres query) ≡ false
flavorify_postgres-has_char query =
    ap (has_char b'?') (flavorify_postgres-eq-placeholders query) ∙ placeholders-has_char 1 query
