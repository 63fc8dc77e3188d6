-- ===== src/Broker/Serial/Invariant.antt =====
-- Each goroutine and the mutex beside a serial execution of the handlers of nfsbroker/nfsbroker.go:
-- an invariant of every step.
use mathlib.Core.Path.{subst}
use nfsbroker.Base.{ℕ, ◌≡◌, ◌≢◌, refl, sym, ◌∙◌, ap, Option, none, some, [], ◌∷◌, inl, inr}
use mathlib.Core.List.{append_assoc}
use nfsbroker.Base.{◌++◌}
use nfsbroker.Externals.{Externals}
use nfsbroker.Store.{Store}
use nfsbroker.Broker.Types.{Broker}
use nfsbroker.Broker.Requests.{Request, handle}
use nfsbroker.Broker.Programs.{Program, done, step, run}
use nfsbroker.Broker.Server.{
  at_same, at_other, update-ne, update_self, update_all, Answer, refusal, program, answer,
  run-program, Thread, waiting, inside, finished, Server, update, init, Step, refuse, lock, call,
  unlock, Reach, start, later,
}
use nfsbroker.Broker.Serial.Defs.{Log, none-ne-some, idle, serve, Held, Status, Agrees}

module _ (E : Externals) {S : Type 0} (st : Store S) (b : Broker) (requests : ℕ → Request) where
  module _ {s t : S} {log : Log} {v : Server S} (A : Agrees E st b requests s log t v) (i : ℕ) where
    pub status : {x : Thread S} → v.threads i ≡ x → Status E st b requests log v.holder i x
    status w = subst (Status E st b requests log v.holder i) w (A.statuses i)

    -- Another goroutine's step leaves what the holder has left.
    other-Held :
        (x : Thread S) (h : Option ℕ)
        → h ≢ some i
        → Held E st b requests t v h
        → Held E st b requests t (record v { threads = update v.threads i x }) h
    other-Held x none ne e = e
    other-Held x (some k) ne (p, w, r, e) =
        (p, update-ne v.threads x (λ same. ne (ap some (sym same))) ∙ w, r, e)

    -- The program that the holder has left completes its handler.
    holder_left :
        {p : Program S Answer}
        → v.threads i ≡ inside p
        → (refusal E (requests i) ≡ none) × (run p v.store ≡ run (program E st b (requests i)) t)
    holder_left {p} w =
        let (q, w', r, e) = subst (Held E st b requests t v) (status w).1 A.held in
        let same : q ≡ p = cc in
        (r, subst (λ x. run x v.store ≡ run (program E st b (requests i)) t) same e)

    pub Agrees-refuse :
        {a : Answer}
        → v.threads i ≡ waiting
        → refusal E (requests i) ≡ some a
        → Agrees E st b requests s log t (record v { threads = update v.threads i (finished a) })
    Agrees-refuse {a} w r =
        let (unseen, free) = status w in
        record {
          serial = A.serial;
          held = other-Held (finished a) v.holder free A.held;
          statuses =
              update_all (Status E st b requests log v.holder) (inr (unseen, r), free)
                (λ j ne. A.statuses j);
        }

    -- Nobody is inside while the mutex is free.
    locked-Status :
        (j : ℕ) (x : Thread S)
        → i ≢ j
        → Status E st b requests log none j x
        → Status E st b requests log (some i) j x
    locked-Status j waiting ne q = (q.0, λ e. ne (cc))
    locked-Status j (inside p) ne q = cc
    locked-Status j (finished a) ne q = (q.0, λ e. ne (cc))

    pub Agrees-lock :
        v.threads i ≡ waiting
        → refusal E (requests i) ≡ none
        → v.holder ≡ none
        → Agrees E st b requests s log t (record v {
          holder = some i;
          threads = update v.threads i (inside (program E st b (requests i)));
        })
    Agrees-lock w r h =
        let same : v.store ≡ t = subst (Held E st b requests t v) h A.held in
        record {
          serial = A.serial;
          held = (_, update_self v.threads i _, r, ap (run (program E st b (requests i))) same);
          statuses =
              update_all (Status E st b requests log (some i)) ((status w).0, refl)
                λ j ne.
                  locked-Status j (v.threads j) ne
                    (subst (λ o. Status E st b requests log o j (v.threads j)) h (A.statuses j));
        }

    pub Agrees-call :
        {next : S → S} {rest : S → Program S Answer}
        → v.threads i ≡ inside (step next rest)
        → Agrees E st b requests s log t (record v {
          store = next v.store;
          threads = update v.threads i (inside (rest v.store));
        })
    unfolding run
    Agrees-call {next} {rest} w =
        let (unseen, mine) = status w in
        let (r, e) = holder_left w in
        record {
          serial = A.serial;
          held =
              subst
                (Held E st b requests t (record {
                  store = next v.store;
                  holder = v.holder;
                  threads = update v.threads i (inside (rest v.store));
                }))
                (sym mine) (_, update_self v.threads i _, r, e);
          statuses =
              update_all (Status E st b requests log v.holder) (unseen, mine)
                (λ j ne. A.statuses j);
        }

    logged-Status :
        (a : Answer) (j : ℕ) (x : Thread S)
        → i ≢ j
        → Status E st b requests log (some i) j x
        → Status E st b requests ((i, a) ∷ log) none j x
    logged-Status a j waiting ne q = (at_other i j _ _ ne ∙ q.0, λ e. cc)
    logged-Status a j (inside p) ne q = absurd (ne (cc))
    logged-Status a j (finished c) ne (inl e, free) = (inl (at_other i j _ _ ne ∙ e), λ e. cc)
    logged-Status a j (finished c) ne (inr (u, r), free) =
        (inr (at_other i j _ _ ne ∙ u, r), λ e. cc)

    pub Agrees-unlock :
        {a : Answer}
        → v.threads i ≡ inside (done a)
        → (front : Log) × (t' : S) × Agrees E st b requests s
            (front ++ log)
            t'
            (record v { holder = none; threads = update v.threads i (finished a) })
    unfolding run
    Agrees-unlock {a} w =
        let (unseen, mine) = status w in
        let (r, e) = holder_left w in
        let ends : (a, v.store) ≡ (answer E st b (requests i) t, handle E st b (requests i) t) =
          e ∙ run-program E st b (requests i) t r in
        (
          (i, answer E st b (requests i) t) ∷ [],
          handle E st b (requests i) t,
          record {
            serial = serve i unseen r A.serial;
            held = ap (λ x. x.1) ends;
            statuses =
                update_all (Status E st b requests ((i, answer E st b (requests i) t) ∷ log) none)
                  (inl (at_same i i _ _ refl ∙ ap (λ x. some x.0) (sym ends)), none-ne-some)
                  λ j ne.
                    logged-Status (answer E st b (requests i) t) j (v.threads j) ne (
                      subst (λ o. Status E st b requests log o j (v.threads j)) mine
                        (A.statuses j));
          },
        )

  Agrees-Step :
      {s t : S} {log : Log} {v w : Server S}
      → Agrees E st b requests s log t v
      → Step E st b requests v w
      → (front : Log) × (t' : S) × Agrees E st b requests s (front ++ log) t' w
  Agrees-Step {t} A (refuse i w r) = ([], t, Agrees-refuse A i w r)
  Agrees-Step {t} A (lock i w r h) = ([], t, Agrees-lock A i w r h)
  Agrees-Step {t} A (call i w) = ([], t, Agrees-call A i w)
  Agrees-Step A (unlock i w) = Agrees-unlock A i w

  -- The handlers that return later stand before those that have returned.
  pub Agrees-Reach :
      {s t : S} {log : Log} {u v : Server S}
      → Agrees E st b requests s log t u
      → Reach E st b requests u v
      → (front : Log) × (t' : S) × Agrees E st b requests s (front ++ log) t' v
  Agrees-Reach {t} A start = ([], t, A)
  Agrees-Reach {s} {log} {v} A (later r step_v) =
      let (front, t', A') = Agrees-Reach A r in
      let (front', t'', A'') = Agrees-Step A' step_v in
      (
        front' ++ front,
        t'',
        subst (λ l. Agrees E st b requests s l t'' v) (sym (append_assoc front' front log)) A'',
      )

  pub reach-Agrees :
      {s : S} {v : Server S}
      → Reach E st b requests (init s) v
      → (log : Log) × (t : S) × Agrees E st b requests s log t v
  reach-Agrees {s} r =
      let (front, t, A) =
        Agrees-Reach {s = s} {t = s} {log = []}
          (record { serial = idle; held = refl; statuses = λ j. (refl, none-ne-some) }) r in
      (front ++ [], t, A)
