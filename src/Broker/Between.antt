-- ===== src/Broker/Between.antt =====
-- What the calls that a handler of nfsbroker/nfsbroker.go has left keep of the store's state.
use nfsbroker.Base.{Bool, true, false, if◌then◌else◌}
use nfsbroker.Api.{Outcome, ok, err, panic}
use nfsbroker.Exec.{Exec}
use nfsbroker.Broker.Programs.{Program, done, step, chain, atomic, by_outcome, ◌>>=◌}

-- Each call that is left keeps a property of the state.
pub data Keeps {S A : Type 0} (P : S → Type 0) : Program S A → Type 0 where
  ends : (a : A) → Keeps P (done a)
  calls :
      (next : S → S) (rest : S → Program S A)
      → ((s : S) → P s → P (next s))
      → ((s : S) → Keeps P (rest s))
      → Keeps P (step next rest)

-- A call keeps it, whatever it answers.
abbrev pub IsKept : {S A : Type 0} → (S → Type 0) → Exec S A → Type 0
IsKept {S} P m = (s : S) → P s → P (m s).1

module _ {S A : Type 0} {P : S → Type 0} where
  pub if-Keeps :
      (b : Bool) {p q : Program S A} → Keeps P p → Keeps P q → Keeps P (if b then p else q)
  if-Keeps true w w' = w
  if-Keeps false w w' = w'

module _ {S A B : Type 0} {P : S → Type 0} where
  pub chain-Keeps :
      {p : Program S A} {f : A → Program S B}
      → Keeps P p
      → ((a : A) → Keeps P (f a))
      → Keeps P (chain p f)
  unfolding chain
  chain-Keeps (ends a) h = h a
  chain-Keeps (calls next rest k w) h = calls next _ k (λ s. chain-Keeps (w s) h)

  pub by_outcome-Keeps :
      {f : A → Program S (Outcome B)}
      → ((a : A) → Keeps P (f a))
      → (o : Outcome A) → Keeps P (by_outcome f o)
  by_outcome-Keeps h (ok a) = h a
  by_outcome-Keeps h (err e) = ends (err e)
  by_outcome-Keeps h panic = ends panic

  pub then-Keeps :
      (m : Exec S A) {f : A → Program S (Outcome B)}
      → IsKept P m
      → ((a : A) → Keeps P (f a))
      → Keeps P (atomic m >>= f)
  unfolding chain
  then-Keeps m k h = calls _ _ k (λ s. by_outcome-Keeps h (m s).0)

module _ {S : Type 0} {P : S → Type 0} where
  pub atomic-Keeps : {A : Type 0} {m : Exec S A} → IsKept P m → Keeps P (atomic m)
  atomic-Keeps {m} k = calls _ _ k (λ s. ends (m s).0)
