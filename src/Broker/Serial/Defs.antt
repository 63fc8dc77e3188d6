-- ===== src/Broker/Serial/Defs.antt =====
-- What a server of goroutines is compared with: whole handlers of nfsbroker/nfsbroker.go, one after
-- the other.
use native.Mathlib.Decide.{ℕ_discrete}
use mathlib.Core.Logic.{ite}
use nfsbroker.Base.{ℕ, ◌≡◌, ◌≢◌, Option, none, some, List, [], ◌∷◌, ◌⊎◌, map}
use nfsbroker.Externals.{Externals}
use nfsbroker.Store.{Store}
use nfsbroker.Broker.Types.{Broker}
use nfsbroker.Broker.Requests.{Request, handle, Reaches}
use nfsbroker.Broker.Programs.{Program, run}
use nfsbroker.Broker.Server.{
  Answer, refusal, program, answer, Thread, waiting, inside, finished, Server,
}

-- The goroutines that are served, the last one first, with their answers.
abbrev pub Log : Type 0
Log = List (ℕ × Answer)

pub none-ne-some : {i : ℕ} → none ≢ some i
none-ne-some e = cc

abbrev pub answered : ℕ → Log → Option Answer
answered j [] = none
answered j ((i, a) ∷ log) = ite (ℕ_discrete i j) (some a) (answered j log)

module _ (E : Externals) {S : Type 0} (st : Store S) (b : Broker) (requests : ℕ → Request) where
  -- Whole handlers, one after the other, each goroutine's once.
  pub data Serial (s : S) : Log → S → Type 0 where
    idle : Serial s [] s
    serve :
        {log : Log} {t : S} (i : ℕ)
        → answered i log ≡ none
        → refusal E (requests i) ≡ none
        → Serial s log t
        → Serial s ((i, answer E st b (requests i) t) ∷ log) (handle E st b (requests i) t)

  -- Such a sequence of handlers is one of `Reaches`.
  pub Serial-Reaches :
      {s t : S} {log : Log} → Serial s log t → Reaches E st b s (map (λ e. requests e.0) log) t
  Serial-Reaches idle = Reaches.start
  Serial-Reaches (serve i fresh taken before) = Reaches.after (requests i) (Serial-Reaches before)

  abbrev pub Held : S → Server S → Option ℕ → Type 0
  Held t v none = v.store ≡ t
  Held t v (some i) =
      (p : Program S Answer) × (v.threads i ≡ inside p)
      × (refusal E (requests i) ≡ none)
      × (run p v.store ≡ run (program E st b (requests i)) t)

  abbrev pub Status : Log → Option ℕ → ℕ → Thread S → Type 0
  Status log h j waiting = (answered j log ≡ none) × (h ≢ some j)
  Status log h j (inside p) = (answered j log ≡ none) × (h ≡ some j)
  Status log h j (finished a) =
      ((answered j log ≡ some a) ⊎ ((answered j log ≡ none) × (refusal E (requests j) ≡ some a)))
      × (h ≢ some j)

  -- The server beside the serial execution of the handlers that have returned.
  pub record Agrees (s : S) (log : Log) (t : S) (v : Server S) : Type 0 where
    pub serial : Serial s log t
    pub held : Held t v v.holder
    pub statuses : (j : ℕ) → Status log v.holder j (v.threads j)
