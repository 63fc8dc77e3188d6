-- ===== src/Exec.antt =====
-- A Go method on an object: it changes the state, and ends with a value, an error or a panic. What
-- was written before an error or a panic stays written.
use nfsbroker.Base.{◌⊎◌, inl, inr}
use nfsbroker.Api.{Error, Outcome, ok, err, panic}

abbrev pub Exec {ℓ} : Type ℓ → Type ℓ → Type ℓ
Exec S A = S → Outcome A × S

module _ {ℓ} {S A : Type ℓ} where
  abbrev pub pure : A → Exec S A
  pure a s = (ok a, s)

  abbrev pub raise : Error → Exec S A
  raise e s = (err e, s)

  abbrev pub lift : Outcome A → Exec S A
  lift o s = (o, s)

  -- A Go pair of a value and an error, from outside the program.
  abbrev pub from_result : Error ⊎ A → Exec S A
  from_result (inl e) s = (err e, s)
  from_result (inr a) s = (ok a, s)

module _ {ℓ} {S A B : Type ℓ} where
  abbrev pub continue : Outcome A → (A → Exec S B) → Exec S B
  continue (ok a) f s = f a s
  continue (err e) f s = (err e, s)
  continue panic f s = (panic, s)

  infixl 5 ◌>>=◌ ◌>>◌
  -- `if err != nil { return err }` after a call.
  abbrev pub ◌>>=◌ : Exec S A → (A → Exec S B) → Exec S B
  ◌>>=◌ m f s = let (o, s') = m s in continue o f s'

  abbrev pub ◌>>◌ : Exec S A → Exec S B → Exec S B
  m >> n = m >>= λ _. n

module _ {ℓ} {A : Type ℓ} where
  abbrev pub with_error : Error → Outcome A → Outcome A
  with_error e (ok a) = ok a
  with_error e (err _) = err e
  with_error e panic = panic

  -- The end of a deferred `func() { out := save(); if e == nil { e = out } }`.
  abbrev pub settle {κ} : {U : Type κ} → Outcome A → Outcome U → Outcome A
  settle (ok a) (ok u) = ok a
  settle (ok a) (err e) = err e
  settle (ok a) panic = panic
  settle (err e) panic = panic
  settle (err e) _ = err e
  settle panic _ = panic

module _ {ℓ} {S A : Type ℓ} where
  -- `if err != nil { return e }` after a call.
  abbrev pub replacing : Error → Exec S A → Exec S A
  replacing e m s = let (o, s') = m s in (with_error e o, s')

  -- The body, and the deferred save, which runs however the body ended.
  abbrev pub deferring : {U : Type ℓ} → Exec S U → Exec S A → Exec S A
  deferring save body s = let (o, s') = body s in let (o', s'') = save s' in (settle o o', s'')
