-- ===== src/Fakes/History.antt =====
-- A test double of nfsbrokerfakes beside the uses that were made of it.
use nfsbroker.Base.{ℕ, ◌≡◌, ap, ◌∙◌, none, some, List, [], ◌∷◌, ◌++◌}
use mathlib.Core.List.{append-nil, append_assoc}
use nfsbroker.Base.Dict.{length}
use nfsbroker.Api.{ok}
use nfsbroker.Exec.{Exec}
use nfsbroker.Fakes.{Method, fresh, elem_at, reply, Faked, double}

-- What a test does with a method of a fake: it calls it, gives it a stub, or what it returns.
pub data Use (W A R : Type 0) : Type 0 where
  calls : A → Use W A R
  stubs : (A → Exec W R) → Use W A R
  returns : R → Use W A R

module _ {W A R : Type 0} where
  -- The arguments of the calls, in their order.
  abbrev pub called : List (Use W A R) → List A
  called [] = []
  called (calls a ∷ uses) = a ∷ called uses
  called (stubs stub ∷ uses) = called uses
  called (returns r ∷ uses) = called uses

  -- What the last stub or result says, if there is one.
  abbrev pub replies : (A → Exec W R) → List (Use W A R) → A → Exec W R
  replies before [] = before
  replies before (calls a ∷ uses) = replies before uses
  replies before (stubs stub ∷ uses) = replies stub uses
  replies before (returns r ∷ uses) = replies (λ a w. (ok r, w)) uses

-- A field of a fake: a method can be read back as it was written.
pub record IsField {F W A R : Type 0} (get : F → Method W A R) (set : Method W A R → F → F)
    : Type 0 where
  pub get-set : (m : Method W A R) (f : F) → get (set m f) ≡ m

module _ {F W A R : Type 0} (get : F → Method W A R) (set : Method W A R → F → F)
    (field_of : IsField get set) where
  abbrev pub use_method : Use W A R → Faked F W → Faked F W
  use_method (calls a) s = ((double get set).call a s).1
  use_method (stubs stub) s = record s { fake = (double get set).set_stub (some stub) s.fake }
  use_method (returns r) s = record s { fake = (double get set).set_returns r s.fake }

  abbrev pub use_all : List (Use W A R) → Faked F W → Faked F W
  use_all [] s = s
  use_all (u ∷ uses) s = use_all uses (use_method u s)

  -- The fake has recorded these calls, and replies like this.
  pub record Behaves (args : List A) (answers : A → Exec W R) (f : F) : Type 0 where
    pub count : (double get set).call_count f ≡ length args
    pub recalls : (i : ℕ) → (double get set).args_for_call i f ≡ elem_at args i
    pub answered :
        (a : A) (w : W)
        → let r = (double get set).call a (record { fake = f; world = w }) in
          (r.0 ≡ (answers a w).0) × (r.1.world ≡ (answers a w).1)

  abbrev Holds : List A → (A → Exec W R) → F → Type 0
  Holds args answers f =
      ((get f).args_for_call ≡ args) × (reply (get f).stub (get f).returns ≡ answers)

  Holds-Behaves :
      {args : List A} {answers : A → Exec W R} {f : F}
      → Holds args answers f
      → Behaves args answers f
  Holds-Behaves (seen, says) = record {
    count = ap length seen;
    recalls = λ i. ap (λ l. elem_at l i) seen;
    answered = λ a w. (ap (λ g. (g a w).0) says, ap (λ g. (g a w).1) says);
  }

  written-Holds :
      (m : Method W A R) (f : F) → Holds m.args_for_call (reply m.stub m.returns) (set m f)
  written-Holds m f = (
    ap (λ x. x.args_for_call) (field_of.get-set m f),
    ap (λ x. reply x.stub x.returns) (field_of.get-set m f),
  )

  use_all-Holds :
      (uses : List (Use W A R)) (args : List A) (answers : A → Exec W R) (s : Faked F W)
      → Holds args answers s.fake
      → Holds (args ++ called uses) (replies answers uses) (use_all uses s).fake
  use_all-Holds [] args answers s h = rw (append-nil args) h
  use_all-Holds (calls a ∷ uses) args answers s (seen, says) =
      let (seen', says') =
        written-Holds (record (get s.fake) { args_for_call = (get s.fake).args_for_call ++ a ∷ [] })
          s.fake in
      let h =
        use_all-Holds uses (args ++ a ∷ []) answers (use_method (calls a) s)
          (seen' ∙ ap (λ l. l ++ a ∷ []) seen, says' ∙ says) in
      rw (append_assoc args (a ∷ []) (called uses)) at h
  use_all-Holds (stubs stub ∷ uses) args answers s (seen, says) =
      let (seen', says') = written-Holds (record (get s.fake) { stub = some stub }) s.fake in
      use_all-Holds uses args stub (use_method (stubs stub) s) (seen' ∙ seen, says')
  use_all-Holds (returns r ∷ uses) args answers s (seen, says) =
      let (seen', says') =
        written-Holds (record (get s.fake) { stub = none; returns = r }) s.fake in
      use_all-Holds uses args (λ a w. (ok r, w)) (use_method (returns r) s) (seen' ∙ seen, says')

  -- After any uses of a method of a new fake, its call count is the number of calls that were made of
  -- it, `ArgsForCall` gives the arguments of each of them in their order and panics past the last, and
  -- a call replies as the last stub or result says, or with the zero value.
  pub use_all-Behaves :
      (uses : List (Use W A R)) (zero_value : R) (s : Faked F W)
      → get s.fake ≡ fresh zero_value
      → Behaves (called uses) (replies (λ a w. (ok zero_value, w)) uses) (use_all uses s).fake
  use_all-Behaves uses zero_value s new = Holds-Behaves (
      use_all-Holds uses [] (λ a w. (ok zero_value, w)) s
        (ap (λ m. m.args_for_call) new, ap (λ m. reply m.stub m.returns) new))
