-- ===== src/Broker/Atomic/Reached.antt =====
-- What the store of nfsbroker/nfsbroker.go holds whenever the process ends, between two calls of a
-- handler too.
use mathlib.Core.Path.{subst}
use nfsbroker.Base.{map, [], ◌∷◌}
use nfsbroker.Base.{ℕ, ◌≡◌, refl, sym, ap, ◌∙◌, none, ◌∷◌, ◌⊎◌, inl, inr}
use nfsbroker.Externals.{Externals}
use nfsbroker.Store.{Store}
use nfsbroker.Store.Laws.{View, Unchanged, IsLawful}
use nfsbroker.Broker.Types.{Broker}
use nfsbroker.Broker.Requests.{Request, handle}
use nfsbroker.Broker.Programs.{Program, step, run}
use nfsbroker.Broker.Server.{
  Answer, refusal, program, answer, run-program, inside, Server, init, Reach,
}
use nfsbroker.Broker.Serial.{Log, Serial, serve, Agrees}
use nfsbroker.Broker.Serial.Invariant.{status}
use nfsbroker.Broker.Serial.Left.{reach-HolderLeft}
use nfsbroker.Broker.Durable.Crash.{Answered, Agrees-Answered, holder-Answered}
use nfsbroker.Broker.Serial.{Serial-Reaches}
use nfsbroker.Broker.Sound.{IsUnforged, AllUnforged, IsSound, Unchanged-IsSound, reaches-IsSound}
use nfsbroker.Broker.Atomic.{
  Reading, over, reads, Writing, written, before, writes, run-Reading, IsReading, lawful-IsReading,
  program-Writing,
}

module _ (E : Externals) {S : Type 0} (st : Store S) (R : S → S → Type 0) (L : IsReading R st)
    (b : Broker) (requests : ℕ → Request) where
  -- A handler with `p` left, that began at `t`, has not written yet, or will not write any more.
  abbrev Left : S → S → Program S Answer → Type 0
  Left t s p = (R t s × Writing R p) ⊎ Reading R p

  next-Reading :
      {p : Program S Answer} {next : S → S} {rest : S → Program S Answer}
      → p ≡ step next rest
      → Reading R p
      → (s : S) → Reading R (rest s)
  next-Reading same (over a) s = absurd (cc)
  next-Reading {rest} same (reads next' rest' k w) s =
      let r : rest' ≡ rest = cc in subst (λ f. Reading R (f s)) r (w s)

  call-Left :
      {t s : S} {p : Program S Answer} {next : S → S} {rest : S → Program S Answer}
      → p ≡ step next rest
      → Left t s p
      → Left t (next s) (rest s)
  call-Left {s} e (inr w) = inr (next-Reading e w s)
  call-Left {s} e (inl (same, written w)) = inr (next-Reading e w s)
  call-Left {t} {s} {next} {rest} e (inl (same, before next' rest' k w)) =
      let n : next' ≡ next = cc in
      let r : rest' ≡ rest = cc in
      inl (
        subst (λ f. R t (f s)) n (L.after t s (next' s) same (k s)),
        subst (λ f. Writing R (f s)) r (w s),
      )
  call-Left {s} {rest} e (inl (same, writes next' rest' w)) =
      let r : rest' ≡ rest = cc in inr (subst (λ f. Reading R (f s)) r (w s))

  -- The store holds what whole handlers leave.
  abbrev pub Whole : S → Server S → Type 0
  Whole s v =
      (log : Log) × (t : S) × Serial E st b requests s log t
      × R t v.store
      × Answered E st b requests log v

  done-Whole :
      {s t : S} {log : Log} {v : Server S} {i : ℕ} {p : Program S Answer}
      → Agrees E st b requests s log t v
      → v.threads i ≡ inside p
      → refusal E (requests i) ≡ none
      → run p v.store ≡ run (program E st b (requests i)) t
      → Reading R p
      → Whole s v
  done-Whole {t} {log} {v} {i} A w taken e reading = (
    (i, answer E st b (requests i) t) ∷ log,
    handle E st b (requests i) t,
    serve i (status E st b requests A i w).0 taken A.serial,
    L.back _ _ (
        subst (R v.store) (ap (λ x. x.1) (e ∙ run-program E st b (requests i) t taken))
          (run-Reading L reading v.store)),
    holder-Answered E st b requests A w _,
  )

  -- Whenever the process ends, between two calls of a handler too, the store is the same as
  -- one that whole handlers leave, one after the other and each goroutine's once, among them that
  -- of every goroutine that was answered and not refused: none is left half done.
  pub reach-Whole : {s : S} {v : Server S} → Reach E st b requests (init s) v → Whole s v
  reach-Whole {v} r =
      let (log, t, A, left) =
        reach-HolderLeft E st b requests Left
          (λ q taken t. inl (L.same t, program-Writing E st R L b q))
          (λ t s next rest. call-Left refl) r in
      elim left [
        | inl free ↦
            (log, t, A.serial, subst (R t) (sym free) (L.same t), Agrees-Answered E st b requests A)
        | inr (i, p, w, taken, e, inl (same, _)) ↦
            (log, t, A.serial, same, Agrees-Answered E st b requests A)
        | inr (i, p, w, taken, e, inr reading) ↦ done-Whole A w taken e reading
      ]

module _ (E : Externals) {S : Type 0} (st : Store S) (V : View S) (L : IsLawful V E st) (b : Broker)
    (requests : ℕ → Request) where
  log-AllUnforged :
      ((i : ℕ) → IsUnforged (requests i)) → (log : Log) → AllUnforged (map (λ e. requests e.0) log)
  log-AllUnforged u [] = tt
  log-AllUnforged u ((i, a) ∷ log) = (u i, log-AllUnforged u log)

  -- In every state that goroutines which serve requests over a lawful store lead to, those between
  -- two calls of a handler included, every instance has a share, and every binding has no parameters
  -- or nothing but the hash that bcrypt makes of the JSON form of some, if that was so at the start
  -- and no request binds with a `paramsHash` as its only parameter.
  pub reach-IsSound :
      {s : S} {v : Server S}
      → ((i : ℕ) → IsUnforged (requests i))
      → Reach E st b requests (init s) v
      → IsSound E V s
      → IsSound E V v.store
  reach-IsSound u r w =
      let (log, t, serial, same, answers) =
        reach-Whole E st (Unchanged V) (lawful-IsReading E st V L) b requests r in
      Unchanged-IsSound E V same (
        reaches-IsSound E st V L b (Serial-Reaches E st b requests serial) (log-AllUnforged u log)
          w)
