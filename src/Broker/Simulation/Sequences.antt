-- ===== src/Broker/Simulation/Sequences.antt =====
-- Requests to a broker over two stores of which one does what the other does, one after the other.
use nfsbroker.Base.{String, ◌≡◌, refl, ap, List, [], ◌∷◌}
use nfsbroker.Externals.{Externals}
use nfsbroker.Store.{Store}
use nfsbroker.Broker.Types.{Broker}
use nfsbroker.Broker.Requests.{Request, to_provision, to_deprovision, to_bind, to_unbind, handle}
use nfsbroker.Broker.Server.{Answer, provisioned, deprovisioned, bound, unbound, answer}
use nfsbroker.Broker.Simulation.{
  Simulates, provision-Follows, deprovision-Follows, bind-Follows, unbind-Follows,
}

-- The answers to a sequence of requests, and the state after it.
unfoldable pub serve_all :
    (E : Externals) {S : Type 0} (st : Store S) (b : Broker) → List Request → S → List Answer × S
serve_all E st b [] s = ([], s)
serve_all E st b (q ∷ qs) s =
    let (answers, t) = serve_all E st b qs (handle E st b q s) in (answer E st b q s ∷ answers, t)

-- The salt that is drawn for a request, if one is.
abbrev pub salt_of : Request → String
salt_of (to_bind salt i id d) = salt
salt_of _ = ""

module _ (E : Externals) {S T : Type 0} (R : S → T → Type 0) (st : Store S) (st' : Store T)
    (b : Broker) where
  -- One request is answered alike, and leaves related states.
  pub request-Follows :
      (q : Request)
      → Simulates R (salt_of q) st st'
      → (s : S) (t : T) → R s t
      → (answer E st b q s ≡ answer E st' b q t) × R (handle E st b q s) (handle E st' b q t)
  request-Follows (to_provision id details a) M s t r =
      let (same, after) = provision-Follows E st st' M id details a s t r in
      (ap provisioned same, after)
  request-Follows (to_deprovision id a) M s t r =
      let (same, after) = deprovision-Follows E st st' M id a s t r in
      (ap deprovisioned same, after)
  request-Follows (to_bind salt i id d) M s t r =
      let (same, after) = bind-Follows E st st' M b i id d s t r in (ap bound same, after)
  request-Follows (to_unbind i id) M s t r =
      let (same, after) = unbind-Follows E st st' M i id s t r in (ap unbound same, after)

  -- A broker over a store that does call by call what another does gives any sequence of requests
  -- the same answers, and leaves related states.
  pub serve_all-Follows :
      ((salt : String) → Simulates R salt st st')
      → (qs : List Request) (s : S) (t : T) → R s t
      → ((serve_all E st b qs s).0 ≡ (serve_all E st' b qs t).0)
        × R (serve_all E st b qs s).1 (serve_all E st' b qs t).1
  unfolding serve_all
  serve_all-Follows M [] s t r = (refl, r)
  serve_all-Follows M (q ∷ qs) s t r =
      let (same, after) = request-Follows q (M (salt_of q)) s t r in
      let (same', after') = serve_all-Follows M qs _ _ after in (rw (same, same') refl, after')
