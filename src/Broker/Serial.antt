-- ===== src/Broker/Serial.antt =====
-- What the mutex of nfsbroker/nfsbroker.go gives: concurrent requests are served as whole handlers,
-- one after the other.
mod Defs
pub mod Invariant
pub mod Left
pub use Defs.{
  Log, answered, Serial, idle, serve, Serial-Reaches, none-ne-some, Status, Held, Agrees,
}
use native.Mathlib.Decide.{ℕ_discrete}
use mathlib.Core.Path.{subst}
use mathlib.Core.Logic.{ite, if_pos, if_neg}
use nfsbroker.Base.{
  ℕ, ◌≡◌, ◌≢◌, refl, sym, ◌∙◌, ap, Option, none, some, List, [], ◌∷◌, ◌⊎◌, inl, inr, ◌↔◌, arith,
  map,
}
use nfsbroker.Base.{◌++◌, [], ◌∷◌}
use nfsbroker.Externals.{Externals}
use nfsbroker.Store.{Store}
use nfsbroker.Broker.Types.{Broker}
use nfsbroker.Broker.Requests.{Request, handle, Reaches}
use nfsbroker.Broker.Programs.{Program, done, step, run}
use nfsbroker.Broker.Serial.Defs.{Log, answered, Serial, Agrees, Held, Status}
use nfsbroker.Broker.Serial.Invariant.{status, reach-Agrees, Agrees-Reach}
use nfsbroker.Broker.Server.{
  at_same, at_other, update-ne, update_self, update_all, Answer, refusal, program, answer,
  run-program, Thread, waiting, inside, finished, Server, update, init, Step, refuse, lock, call,
  unlock, Reach,
}

module _ (E : Externals) {S : Type 0} (st : Store S) (b : Broker) (requests : ℕ → Request) where
  served_answer :
      (log : Log) (h : Option ℕ) (j : ℕ) (a : Answer) (x : Thread S)
      → Status E st b requests log h j x
      → answered j log ≡ some a
      → x ≡ finished a
  served_answer log h j a waiting q e = cc
  served_answer log h j a (inside p) q e = cc
  served_answer log h j a (finished c) (inl l, free) e = cc
  served_answer log h j a (finished c) (inr (u, r), free) e = cc

  pub answer_served :
      (log : Log) (h : Option ℕ) (j : ℕ) (a : Answer) (x : Thread S)
      → Status E st b requests log h j x
      → x ≡ finished a
      → (answered j log ≡ some a) ⊎ (refusal E (requests j) ≡ some a)
  answer_served log h j a waiting q e = cc
  answer_served log h j a (inside p) q e = cc
  answer_served log h j a (finished c) (inl l, free) e = inl (cc)
  answer_served log h j a (finished c) (inr (u, r), free) e = inr (cc)

  -- What one state of the server shows of a sequence of handlers.
  abbrev pub Answers : Log → Server S → Type 0
  Answers log v =
      ((j : ℕ) (a : Answer) → answered j log ≡ some a → v.threads j ≡ finished a)
      × ((j : ℕ) (a : Answer)
          → v.threads j ≡ finished a
          → (answered j log ≡ some a) ⊎ (refusal E (requests j) ≡ some a))

  free-Answers :
      {s t : S} {log : Log} {v : Server S}
      → Agrees E st b requests s log t v
      → v.holder ≡ none
      → Serial E st b requests s log v.store × Answers log v
  free-Answers {s} {t} {log} {v} A free =
      let same : v.store ≡ t = subst (Held E st b requests t v) free A.held in
      (
        subst (Serial E st b requests s log) (sym same) A.serial,
        (
          (λ j a. served_answer log v.holder j a (v.threads j) (A.statuses j)),
          λ j a. answer_served log v.holder j a (v.threads j) (A.statuses j),
        ),
      )

  -- While nobody holds the mutex, the store is the one that the handlers of the served goroutines
  -- leave when each runs alone, one after the other and each once. Each handler of that sequence
  -- has returned its answer, and every goroutine that has returned was answered by its handler
  -- there, or refused before it took the mutex.
  pub reach-Serial :
      {s : S} {v : Server S}
      → Reach E st b requests (init s) v
      → v.holder ≡ none
      → (log : Log) × Serial E st b requests s log v.store × Answers log v
  reach-Serial r free =
      let (log, t, A) = reach-Agrees E st b requests r in
      let (serial, answers) = free-Answers A free in (log, serial, answers)

  -- The sequence respects time: the handlers that have returned when the mutex is free stay, in their
  -- order and with their answers, the first ones of the sequence at any later time when it is free.
  pub reach-Serial-later :
      {s : S} {u v : Server S}
      → Reach E st b requests (init s) u
      → u.holder ≡ none
      → Reach E st b requests u v
      → v.holder ≡ none
      → (log front : Log) × Serial E st b requests s log u.store
        × Answers log u
        × Serial E st b requests s (front ++ log) v.store
        × Answers (front ++ log) v
  reach-Serial-later r free r' free' =
      let (log, t, A) = reach-Agrees E st b requests r in
      let (front, t', A') = Agrees-Reach E st b requests A r' in
      let (serial, answers) = free-Answers A free in
      let (serial', answers') = free-Answers A' free' in
      (log, front, serial, answers, serial', answers')
