-- ===== src/Tests/Server.antt =====
-- Two goroutines that share a broker over a file store.
use native.Mathlib.Decide.{ℕ_discrete}
use nfsbroker.Base.{String, ℕ, zero, suc, refl, string_dec, false}
use nfsbroker.Base.Dict.{lookup, erase}
use nfsbroker.Store.File.{
  save, create_instance_details, is_instance_conflict, FileStore, retrieve_instance_details,
  delete_instance_details,
}
use nfsbroker.Broker.Requests.{Request, to_provision, to_deprovision, to_bind}
use nfsbroker.Broker.Programs.{provision_program, chain, deprovision_program}
use nfsbroker.Broker.Server.{program, Server, init, lock, call, unlock, Reach, start, later}
use nfsbroker.Broker.Serial.{Log, Serial, Answers, reach-Serial, reach-Serial-later}
use nfsbroker.Broker.Calls.{Within, program-Within}
use nfsbroker.Base.{◌++◌}
use nfsbroker.Base.{false}
use nfsbroker.Tests.Samples.{externals, store, broker_a, provisioned_a, request_a, details_a}

-- The first deprovisions the instance, the others provision it again.
abbrev requests_a : ℕ → Request
requests_a zero = to_deprovision "a" false
requests_a (suc i) = to_provision "a" request_a false

-- A server that the requests lead to.
abbrev Reached : Type 0
Reached =
    (v : Server (FileStore String)) × Reach externals store broker_a requests_a (init provisioned_a)
      v

-- The first goroutine holds the mutex and has looked up its instance.
locked_a : Reached
unfolding deprovision_program chain ℕ_discrete
locked_a = (_, later (later start (lock 0 refl refl refl)) (call 0 refl))

-- It has returned.
returned_a : Reached
unfolding locked_a deprovision_program chain ℕ_discrete retrieve_instance_details string_dec lookup
    delete_instance_details
returned_a = (_, later (later (later locked_a.1 (call 0 refl)) (call 0 refl)) (unlock 0 refl))

-- From there on, the second one has returned too.
served_next :
    (v : Server (FileStore String)) × Reach externals store broker_a requests_a returned_a.0 v
unfolding returned_a locked_a deprovision_program provision_program chain ℕ_discrete
    retrieve_instance_details string_dec lookup delete_instance_details is_instance_conflict save
    erase create_instance_details
served_next = (
  _,
  later
      (later (later (later (later start (lock 1 refl refl refl)) (call 1 refl)) (call 1 refl))
        (call 1 refl))
      (unlock 1 refl),
)

reach-Serial_example :
    (log : Log) × Serial externals store broker_a requests_a provisioned_a log returned_a.0.store
    × Answers externals store broker_a requests_a log returned_a.0
unfolding returned_a locked_a deprovision_program chain ℕ_discrete
reach-Serial_example = reach-Serial externals store broker_a requests_a returned_a.1 refl

program-Within_example :
    Within 4 (program externals store broker_a (to_bind "salt" "a" "binding" details_a))
program-Within_example =
    program-Within externals store broker_a (to_bind "salt" "a" "binding" details_a)

reach-Serial-later_example :
    (log front : Log) × Serial externals store broker_a requests_a provisioned_a log
      returned_a.0.store
    × Answers externals store broker_a requests_a log returned_a.0
    × Serial externals store broker_a requests_a provisioned_a (front ++ log) served_next.0.store
    × Answers externals store broker_a requests_a (front ++ log) served_next.0
unfolding served_next returned_a locked_a deprovision_program provision_program chain ℕ_discrete
reach-Serial-later_example =
    reach-Serial-later externals store broker_a requests_a returned_a.1 refl served_next.1 refl
