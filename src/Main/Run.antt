-- ===== src/Main/Run.antt =====
-- `main` of main.go, and utils/utils.go: how the process ends. What `ifrit`, `grouper`, `sigmon` and
-- the two servers do is a parameter.
pub mod Ends
use nfsbroker.Base.{ℕ, String, ◌≡◌, Option, none, some, List, [], ◌∷◌, ◌==◌, if◌then◌else◌}
use nfsbroker.Api.{Error, Outcome, ok, err, panic}
use nfsbroker.Externals.{Externals}
use nfsbroker.Store.Choice.{Platform}
use nfsbroker.Main.{
  System, Flags, Environment, Process, check_params, parse_environment, create_server,
}

-- A member of a group: its name, and what runs.
pub record Member (Runner : Type 0) : Type 0 where
  pub name : String
  pub runner : Runner

-- The servers and how they run: `http_server.New` over `brokerapi.New`, `debugserver.Runner`,
-- `sigmon.New(grouper.NewOrdered(os.Interrupt, ...))`, and `ifrit.Invoke` with the wait for its end.
pub record Ifrit (Runner W : Type 0) : Type 0 where
  pub http_server : Process W → Runner
  pub debug_server : String → Runner
  pub in_order : List (Member Runner) → Runner
  pub invoke : Runner → W → Option Error × W

-- How `main` ends.
pub data Ended : Type 0 where
  exited : ℕ → Ended
  crashed returned : Ended

-- `ExitOnFailure`
unfoldable pub exit_on_failure : Option Error → Ended
exit_on_failure none = returned
exit_on_failure (some e) = exited 1

module _ {Runner W : Type 0} (ifrit : Ifrit Runner W) where
  -- `UntilTerminated`
  unfoldable pub until_terminated : Option Error × W → Ended × W
  unfolding exit_on_failure
  until_terminated (e, w) = (exit_on_failure e, w)

  -- `ProcessRunnerFor`
  unfoldable pub process_runner_for : List (Member Runner) → Runner
  process_runner_for servers = ifrit.in_order servers

  -- The broker's server, behind a debug server if the flags give it an address.
  unfoldable pub with_debug_server : String → Runner → Runner
  unfolding process_runner_for
  with_debug_server dbg_addr server =
      if dbg_addr == ""
      then server
      else process_runner_for (
          record { name = "debug-server"; runner = ifrit.debug_server dbg_addr }
          ∷ record { name = "broker-api"; runner = server }
          ∷ [])

  module _ {J : Type 0} (sys : System) (P : Platform J W) (E : Externals) where
    abbrev pub serve : String → Outcome (Process W) × W → Ended × W
    serve dbg_addr (ok server, w) =
        until_terminated (ifrit.invoke (with_debug_server dbg_addr (ifrit.http_server server)) w)
    serve dbg_addr (_, w) = (crashed, w)

    -- A sink for the log that cannot be made is a panic.
    abbrev pub with_sink : Option Error → Flags → String → W → Ended × W
    with_sink (some e) f dbg_addr w = (crashed, w)
    with_sink none f dbg_addr w = serve dbg_addr (create_server sys P E f (parse_environment sys) w)

    abbrev pub unless_exited : Option ℕ → Option Error → Flags → String → W → Ended × W
    unless_exited (some status) sink f dbg_addr w = (exited status, w)
    unless_exited none sink f dbg_addr w = with_sink sink f dbg_addr w

    -- `main`
    unfoldable pub run_main : Option Error → Flags → String → W → Ended × W
    run_main sink f dbg_addr w = unless_exited (check_params f) sink f dbg_addr w
