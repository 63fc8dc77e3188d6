-- ===== src/Broker/Durable/Crash.antt =====
-- What a goroutine of nfsbroker/nfsbroker.go leaves on a disk that only its deferred `Save` writes,
-- whenever the process ends.
use mathlib.Core.Path.{subst}
use nfsbroker.Base.{ℕ, ◌≡◌, ◌≢◌, refl, sym, ◌∙◌, ap, none, some, ◌∷◌, ◌⊎◌, inl, inr}
use nfsbroker.Externals.{Externals}
use nfsbroker.Store.{Store}
use nfsbroker.Broker.Types.{Broker}
use nfsbroker.Broker.Requests.{Request, handle}
use nfsbroker.Broker.Programs.{Program, done, step, run}
use nfsbroker.Broker.Server.{
  at_other, Answer, refusal, program, answer, run-program, inside, finished, Server, init, Reach,
}
use nfsbroker.Broker.Serial.{Log, answered, Serial, serve, Agrees, answer_served}
use nfsbroker.Broker.Serial.Left.{reach-HolderLeft}
use nfsbroker.Broker.Serial.Invariant.{status}
use nfsbroker.Broker.Durable.{Saving, saves, before, KeepsCalls, program-Saving}

module _ (E : Externals) {S : Type 0} (st : Store S) (b : Broker) (requests : ℕ → Request) where
  -- Each goroutine that has returned is in the sequence, or was refused.
  abbrev pub Answered : Log → Server S → Type 0
  Answered log v =
      (j : ℕ) (a : Answer)
      → v.threads j ≡ finished a
      → (answered j log ≡ some a) ⊎ (refusal E (requests j) ≡ some a)

  pub Agrees-Answered :
      {s t : S} {log : Log} {v : Server S} → Agrees E st b requests s log t v → Answered log v
  Agrees-Answered {log} {v} A j a =
      answer_served E st b requests log v.holder j a (v.threads j) (A.statuses j)

  pub holder-Answered :
      {s t : S} {log : Log} {v : Server S} {i : ℕ} {p : Program S Answer}
      → Agrees E st b requests s log t v
      → v.threads i ≡ inside p
      → (c : Answer) → Answered ((i, c) ∷ log) v
  holder-Answered {v} {i} {p} A w c j a e = elim (Agrees-Answered A j a e) [
    | inl seen ↦
        let ne : i ≢ j = λ same.
          (let back : v.threads j ≡ inside p = subst (λ k. v.threads k ≡ inside p) same w in cc) in
        inl (at_other i j _ _ ne ∙ seen)
    | inr refused ↦ inr refused
  ]

module _ (E : Externals) {S D : Type 0} (st : Store S) (disk : S → D)
    (K : (d : D) → KeepsCalls (λ s. disk s ≡ d) st) (b : Broker) (requests : ℕ → Request) where
  -- A goroutine with `p` left has not saved yet, and the disk is the one of `t`, or it is done.
  abbrev Left : S → S → Program S Answer → Type 0
  Left t s p = ((disk s ≡ disk t) × Saving (λ u. disk u ≡ disk t) p) ⊎ ((a : Answer) × (p ≡ done a))

  call-Left :
      {t s : S} {p : Program S Answer} {next : S → S} {rest : S → Program S Answer}
      → p ≡ step next rest
      → Left t s p
      → Left t (next s) (rest s)
  call-Left same (inr (a, e)) = absurd (cc)
  call-Left {s} {rest} same (inl (e, saves next' reply)) =
      let r : rest ≡ (λ u. done (reply u)) = cc in inr (reply s, ap (λ f. f s) r)
  call-Left {t} {s} {next} {rest} same (inl (e, before next' rest' k w)) =
      let n : next' ≡ next = cc in
      let r : rest' ≡ rest = cc in
      inl (
        subst (λ f. disk (f s) ≡ disk t) n (k s e),
        subst (λ f. Saving (λ u. disk u ≡ disk t) (f s)) r (w s),
      )

  -- The disk is the one that whole handlers leave.
  abbrev pub Durable : S → Server S → Type 0
  Durable s v =
      (log : Log) × (t : S) × Serial E st b requests s log t
      × (disk v.store ≡ disk t)
      × Answered E st b requests log v

  saved-Durable :
      {s t : S} {log : Log} {v : Server S} {i : ℕ} {p : Program S Answer} {a : Answer}
      → Agrees E st b requests s log t v
      → v.threads i ≡ inside p
      → refusal E (requests i) ≡ none
      → run p v.store ≡ run (program E st b (requests i)) t
      → p ≡ done a
      → Durable s v
  unfolding run
  saved-Durable {t} {log} {v} {i} {a} A w r e same =
      let ends : (a, v.store) ≡ (answer E st b (requests i) t, handle E st b (requests i) t) =
        ap (λ q. run q v.store) (sym same) ∙ e ∙ run-program E st b (requests i) t r in
      (
        (i, answer E st b (requests i) t) ∷ log,
        handle E st b (requests i) t,
        serve i (status E st b requests A i w).0 r A.serial,
        ap (λ x. disk x.1) ends,
        holder-Answered E st b requests A w _,
      )

  -- Whenever the process ends, between two calls of a handler too, the disk is one that whole handlers
  -- leave, one after the other, among them every goroutine that was answered and not refused, if no
  -- call of the store but `Save` writes it.
  pub reach-Durable : {s : S} {v : Server S} → Reach E st b requests (init s) v → Durable s v
  reach-Durable r =
      let (log, t, A, left) =
        reach-HolderLeft E st b requests Left
          (λ q taken t. inl (refl, program-Saving E st (K (disk t)) b q taken))
          (λ t s next rest. call-Left refl) r in
      elim left [
        | inl free ↦ (log, t, A.serial, ap disk free, Agrees-Answered E st b requests A)
        | inr (i, p, w, taken, e, inl (same, _)) ↦
            (log, t, A.serial, same, Agrees-Answered E st b requests A)
        | inr (i, p, w, taken, e, inr (a, ends)) ↦ saved-Durable A w taken e ends
      ]
