-- ===== src/Fakes.antt =====
-- The test doubles of nfsbrokerfakes: what counterfeiter writes for each method of an interface.
pub mod History
pub mod Store
pub mod Sql
pub mod Trace
pub mod Spy
use nfsbroker.Base.{ℕ, zero, suc, Option, none, some, List, [], ◌∷◌, ◌++◌}
use nfsbroker.Base.Dict.{length}
use nfsbroker.Api.{Outcome, ok, panic}
use nfsbroker.Exec.{Exec}

-- The fields of a fake for one method, whose arguments are of type `A` and whose results, errors
-- included, are of type `R`. A stub acts on a world `W`, and may panic. The mutex of a method is held
-- only while its list is read or appended to.
pub record Method (W A R : Type 0) : Type 0 where
  pub stub : Option (A → Exec W R)
  pub args_for_call : List A
  pub returns : R

-- What the zero value of a fake has for a method.
abbrev pub fresh : {W A R : Type 0} → R → Method W A R
fresh zero_value = record { stub = none; args_for_call = []; returns = zero_value }

-- `list[i]`, which panics out of range.
abbrev pub elem_at : {A : Type 0} → List A → ℕ → Outcome A
elem_at [] i = panic
elem_at (a ∷ rest) zero = ok a
elem_at (a ∷ rest) (suc i) = elem_at rest i

-- What a call gives, once it is recorded.
abbrev pub reply : {W A R : Type 0} → Option (A → Exec W R) → R → A → Exec W R
reply none returns a w = (ok returns, w)
reply (some stub) returns a w = stub a w

-- A fake `F` with the world that its stubs act on.
pub record Faked (F W : Type 0) : Type 0 where
  pub fake : F
  pub world : W

-- The method itself, and the functions that are written beside it. Counterfeiter leaves out
-- `ArgsForCall` of a method without arguments, and `Returns` of one without results.
pub record Double (F W A R : Type 0) : Type 0 where
  pub call : A → Exec (Faked F W) R
  pub call_count : F → ℕ
  pub args_for_call : ℕ → F → Outcome A
  pub set_returns : R → F → F
  pub set_stub : Option (A → Exec W R) → F → F

module _ {F W A R : Type 0} (get : F → Method W A R) (set : Method W A R → F → F) where
  abbrev pub recorded : A → F → F
  recorded a f = set (record (get f) { args_for_call = (get f).args_for_call ++ a ∷ [] }) f

  -- The functions for the method that `get` and `set` read and write.
  abbrev pub double : Double F W A R
  double = record {
    call = λ a s.
        let m = get s.fake in
        let (o, w) = reply m.stub m.returns a s.world in
        (o, record { fake = recorded a s.fake; world = w });
    call_count = λ f. length (get f).args_for_call;
    args_for_call = λ i f. elem_at (get f).args_for_call i;
    set_returns = λ r f. set (record (get f) { stub = none; returns = r }) f;
    set_stub = λ stub f. set (record (get f) { stub = stub }) f;
  }
