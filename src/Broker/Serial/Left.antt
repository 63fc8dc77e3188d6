-- ===== src/Broker/Serial/Left.antt =====
-- What the holder of the mutex of nfsbroker/nfsbroker.go has left to do, beside the state that the
-- handlers before it left: an invariant of every step, if it is one of the handler's calls.
use mathlib.Core.Path.{subst}
use nfsbroker.Base.{ℕ, ◌≡◌, ◌≢◌, refl, sym, Option, none, some, [], ◌⊎◌, inl, inr, Option-cases}
use nfsbroker.Externals.{Externals}
use nfsbroker.Store.{Store}
use nfsbroker.Broker.Types.{Broker}
use nfsbroker.Broker.Requests.{Request}
use nfsbroker.Broker.Programs.{Program, step, run}
use nfsbroker.Broker.Server.{
  update_all, Answer, refusal, program, Thread, waiting, inside, finished, Server, init, Step,
  refuse, lock, call, unlock, Reach, start, later,
}
use nfsbroker.Broker.Serial.Defs.{Log, idle, none-ne-some, Status, Held, Agrees}
use nfsbroker.Broker.Serial.Invariant.{
  status, Agrees-refuse, Agrees-lock, Agrees-call, Agrees-unlock,
}

module _ (E : Externals) {S : Type 0} (st : Store S) (b : Broker) (requests : ℕ → Request)
    (Left : S → S → Program S Answer → Type 0)
    (locked : (q : Request) → refusal E q ≡ none → (t : S) → Left t t (program E st b q))
    (called : (t s : S) (next : S → S) (rest : S → Program S Answer)
      → Left t s (step next rest)
      → Left t (next s) (rest s)) where
  abbrev LeftBy : S → S → Thread S → Type 0
  LeftBy t s (inside p) = Left t s p
  LeftBy t s _ = Unit

  record LeftAt (s : S) (log : Log) (t : S) (v : Server S) : Type 0 where
    agrees : Agrees E st b requests s log t v
    left : (j : ℕ) → LeftBy t v.store (v.threads j)

  free-LeftBy :
      (log : Log) {h : Option ℕ} (t s : S) (j : ℕ) (x : Thread S)
      → h ≢ some j
      → Status E st b requests log h j x
      → LeftBy t s x
  free-LeftBy log t s j waiting ne q = tt
  free-LeftBy log t s j (inside p) ne q = absurd (ne q.1)
  free-LeftBy log t s j (finished a) ne q = tt

  LeftAt-Step :
      {s t : S} {log : Log} {v w : Server S}
      → LeftAt s log t v
      → Step E st b requests v w
      → (log' : Log) × (t' : S) × LeftAt s log' t' w
  LeftAt-Step {t} {log} {v} W (refuse i w r) = (
    log,
    t,
    record {
      agrees = Agrees-refuse E st b requests W.agrees i w r;
      left = update_all (λ j x. LeftBy t v.store x) tt (λ j ne. W.left j);
    },
  )
  LeftAt-Step {t} {log} {v} W (lock i w r h) =
      let same : v.store ≡ t = subst (Held E st b requests t v) h W.agrees.held in
      (
        log,
        t,
        record {
          agrees = Agrees-lock E st b requests W.agrees i w r h;
          left =
              update_all (λ j x. LeftBy t v.store x)
                (subst (λ u. Left t u (program E st b (requests i))) (sym same)
                  (locked (requests i) r t))
                (λ j ne. W.left j);
        },
      )
  LeftAt-Step {t} {log} {v} W (call i {next} {rest} w) =
      let mine = (status E st b requests W.agrees i w).1 in
      (
        log,
        t,
        record {
          agrees = Agrees-call E st b requests W.agrees i w;
          left =
              update_all (λ j x. LeftBy t (next v.store) x)
                (called _ _ next rest (subst (LeftBy t v.store) w (W.left i)))
                λ j ne.
                  free-LeftBy log t (next v.store) j (v.threads j) (λ e. ne (cc))
                    (W.agrees.statuses j);
        },
      )
  LeftAt-Step W (unlock i w) =
      let (front, t', A) = Agrees-unlock E st b requests W.agrees i w in
      (_, t', record { agrees = A; left = λ j. free-LeftBy _ t' _ j _ none-ne-some (A.statuses j) })

  reach-LeftAt :
      {s : S} {v : Server S}
      → Reach E st b requests (init s) v
      → (log : Log) × (t : S) × LeftAt s log t v
  reach-LeftAt {s} start = (
    [],
    s,
    record {
      agrees = record { serial = idle; held = refl; statuses = λ j. (refl, none-ne-some) };
      left = λ j. tt;
    },
  )
  reach-LeftAt (later r u) = let (log, t, W) = reach-LeftAt r in LeftAt-Step W u

  -- Nobody holds the mutex, or a goroutine does whose program is what it has left.
  abbrev pub HolderLeft : S → Server S → Type 0
  HolderLeft t v =
      (v.store ≡ t)
      ⊎ ((i : ℕ) × (p : Program S Answer) × (v.threads i ≡ inside p)
          × (refusal E (requests i) ≡ none)
          × (run p v.store ≡ run (program E st b (requests i)) t)
          × Left t v.store p)

  pub reach-HolderLeft :
      {s : S} {v : Server S}
      → Reach E st b requests (init s) v
      → (log : Log) × (t : S) × Agrees E st b requests s log t v × HolderLeft t v
  reach-HolderLeft {v} r =
      let (log, t, W) = reach-LeftAt r in
      (
        log,
        t,
        W.agrees,
        elim (Option-cases v.holder) [
          | inl free ↦ inl (subst (Held E st b requests t v) free W.agrees.held)
          | inr (i, mine) ↦
              let (p, w, taken, e) = subst (Held E st b requests t v) mine W.agrees.held in
              inr (i, p, w, taken, e, subst (LeftBy t v.store) w (W.left i))
        ],
      )
