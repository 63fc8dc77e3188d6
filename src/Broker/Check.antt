-- ===== src/Broker/Check.antt =====
-- What `Bind` checks before it stores anything: the mode, and the binding that is there.
use nfsbroker.Base.{
  String, ◌≡◌, ◌∙◌, ap, sym, refl, true, false, Option, none, some, ◌⊎◌, inl, inr, Bool-cases,
}
use nfsbroker.Base.Dict.{lookup}
use nfsbroker.Api.{Value, boolean, Params, Error, raw_params_invalid, ok, err, panic, BindDetails}
use nfsbroker.Externals.{Externals}
use nfsbroker.Store.{Store, conflicts_with, is_binding_conflict}
use nfsbroker.Store.Redact.{conflicts_with-Answers}
use nfsbroker.Store.Laws.{View, IsLawful, Unchanged}
use nfsbroker.Broker.Volume.{read_only_to_mode, mode_of, evaluate_mode}

-- The mode is read, or refused.
mode_of-cases :
    (v : Option Value) → ((m : String) × (mode_of v ≡ ok m)) ⊎ ((e : Error) × (mode_of v ≡ err e))
mode_of-cases none = inl ("rw", refl)
mode_of-cases (some (boolean ro)) = inl (read_only_to_mode ro, refl)
mode_of-cases (some _) = inr (raw_params_invalid, refl)

pub evaluate_mode-cases :
    (p : Params)
    → ((m : String) × (evaluate_mode p ≡ ok m)) ⊎ ((e : Error) × (evaluate_mode p ≡ err e))
unfolding evaluate_mode
evaluate_mode-cases p = mode_of-cases (lookup "readonly" p)

module _ (E : Externals) {S : Type 0} (st : Store S) (V : View S) (L : IsLawful V E st) where
  -- There is no binding, or the one that is there agrees with the request.
  abbrev pub Clear : String → BindDetails → S → Type 0
  Clear id d s =
      (V.bindings s id ≡ none)
      ⊎ ((existing : BindDetails) × (V.bindings s id ≡ some existing)
          × (conflicts_with E existing d ≡ ok false))

  -- The check retrieved no binding, or one that agrees with the request.
  abbrev pub Checked : String → BindDetails → S → S → Type 0
  Checked id d s t =
      ((e : Error) × ((st.retrieve_binding_details id s).0 ≡ err e)
        × ((st.retrieve_binding_details id s).1 ≡ t))
      ⊎ ((existing : BindDetails) × (V.bindings s id ≡ some existing)
          × (conflicts_with E existing d ≡ ok false))

  -- What the check for a conflicting binding finds, from a state `s`.
  pub check-cases :
      (id : String) (d : BindDetails) (s : S)
      → ((t : S) × (st.is_binding_conflict id d s ≡ (ok false, t))
          × Unchanged V s t
          × Checked id d s t)
        ⊎ ((t : S) × (st.is_binding_conflict id d s ≡ (ok true, t))
            × Unchanged V s t
            × (existing : BindDetails) × (V.bindings s id ≡ some existing)
            × (conflicts_with E existing d ≡ ok true))
        ⊎ ((t : S) × (st.is_binding_conflict id d s ≡ (panic, t))
            × Unchanged V s t
            × (existing : BindDetails) × (V.bindings s id ≡ some existing)
            × (conflicts_with E existing d ≡ panic))
  unfolding is_binding_conflict
  check-cases id d s = rw (L.binding_conflict id d s) (elim (L.retrieve_binding id s) [
    | inr (e, fails, same) ↦
        inl ((st.retrieve_binding_details id s).1, rw fails, same, inl (e, fails, refl))
    | inl (existing, read, found, same) ↦
        let t = (st.retrieve_binding_details id s).1 in
        elim (conflicts_with-Answers E existing d) [
          | inr panics ↦ inr (inr (t, rw (read, panics), same, existing, found, panics))
          | inl (b, answer) ↦ elim (Bool-cases b) [
            | inl conflict ↦ inr (
                inl
                  (t, rw (read, answer, conflict), same, existing, found, answer ∙ ap ok conflict))
            | inr fresh ↦
                inl (t, rw (read, answer, fresh), same, inr (existing, found, answer ∙ ap ok fresh))
          ]
        ]
  ])

  pub Clear-created :
      {salt id : String} (d : BindDetails) {s t u : S}
      → Unchanged V s t
      → Checked id d t u
      → (st.create_binding_details salt id d u).0 ≡ ok tt
      → Clear id d s
  Clear-created {salt} {id} d {s} {t} same (inl (e, fails, after)) done =
      inl (sym (same.bindings id) ∙ L.binding_fresh salt id d t e fails (rw after done))
  Clear-created {salt} {id} d same (inr (existing, held, agrees)) done =
      inr (existing, sym (same.bindings id) ∙ held, agrees)
