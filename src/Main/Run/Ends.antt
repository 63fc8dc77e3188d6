-- ===== src/Main/Run/Ends.antt =====
-- How `main` of main.go ends.
use nfsbroker.Base.{
  String, ◌≡◌, ◌≢◌, refl, false, ◌&&◌, Option, none, some, [], ◌∷◌, ◌⊎◌, inl, inr, ◌==◌, ==-eq,
  Bool-cases, arith,
}
use nfsbroker.Api.{Error, Outcome, ok, err, panic}
use nfsbroker.Externals.{Externals}
use nfsbroker.Store.Sql.Database.{Table, IsDatabase}
use nfsbroker.Store.Sql.Rows.{IsCodec}
use nfsbroker.Store.Choice.{Platform, marks}
use nfsbroker.Main.{System, Flags, Process, check_params, parse_environment, create_server}
use nfsbroker.Main.Start.{Runs, CannotStart, Ends, create_server-Ends}
use nfsbroker.Main.Run.{
  Ifrit, Ended, exited, crashed, returned, exit_on_failure, until_terminated, process_runner_for,
  with_debug_server, serve, with_sink, run_main,
}

module _ {Runner J W : Type 0} (ifrit : Ifrit Runner W) (sys : System) (P : Platform J W)
    (E : Externals) (rows : W → Table → String → Option J) (f : Flags)
    (D : IsDatabase rows (marks f.db_driver) P.database) (K : IsCodec P.details_codec)
    (sink : Option Error) (dbg_addr : String) where
  -- The servers that run: the broker's alone, or a debug server before it.
  abbrev pub IsRunner : Process W → Runner → Type 0
  IsRunner server r =
      ((dbg_addr ≡ "") × (r ≡ ifrit.http_server server))
      ⊎ ((dbg_addr ≢ "")
          × (r
              ≡ ifrit.in_order (
                  record { name = "debug-server"; runner = ifrit.debug_server dbg_addr }
                  ∷ record { name = "broker-api"; runner = ifrit.http_server server }
                  ∷ [])))

  -- A directory or a database is given.
  abbrev pub IsGiven : Type 0
  IsGiven = (f.data_dir ≢ "") ⊎ (f.db_driver ≢ "")

  -- The ways to end, of a run that starts in the world `w`.
  pub data MainEnds (w : W) (r : Ended × W) : Type 0 where
    no_storage : f.data_dir ≡ "" → f.db_driver ≡ "" → r ≡ (exited 1, w) → MainEnds w r
    no_sink : IsGiven → (e : Error) → sink ≡ some e → r ≡ (crashed, w) → MainEnds w r
    not_started :
        IsGiven
        → sink ≡ none
        → (w' : W) → create_server sys P E f (parse_environment sys) w ≡ (panic, w')
        → CannotStart sys P E rows f (parse_environment sys) D K w w'
        → r ≡ (crashed, w')
        → MainEnds w r
    served :
        IsGiven
        → sink ≡ none
        → (server : Process W) (runner : Runner) (w' : W)
        → create_server sys P E f (parse_environment sys) w ≡ (ok server, w')
        → Runs sys P E rows f (parse_environment sys) D K w server w'
        → IsRunner server runner
        → (r.1 ≡ (ifrit.invoke runner w').1)
        → (((ifrit.invoke runner w').0 ≡ none) × (r.0 ≡ returned))
          ⊎ ((e : Error) × ((ifrit.invoke runner w').0 ≡ some e) × (r.0 ≡ exited 1))
        → MainEnds w r

  with_debug_server-IsRunner :
      (server : Process W)
      → IsRunner server (with_debug_server ifrit dbg_addr (ifrit.http_server server))
  unfolding with_debug_server process_runner_for
  with_debug_server-IsRunner server = elim (Bool-cases (dbg_addr == "")) [
    | inl empty ↦ inl (==-eq dbg_addr "" empty, rw empty refl)
    | inr given ↦ inr (λ same. absurd (ground (arith, given)), rw given refl)
  ]

  status-cases :
      (e : Option Error)
      → ((e ≡ none) × (exit_on_failure e ≡ returned))
        ⊎ ((x : Error) × (e ≡ some x) × (exit_on_failure e ≡ exited 1))
  unfolding exit_on_failure
  status-cases none = inl (refl, refl)
  status-cases (some x) = inr (x, refl, refl)

  served-MainEnds :
      IsGiven
      → sink ≡ none
      → (w : W) (o : Outcome (Process W)) (w' : W)
      → create_server sys P E f (parse_environment sys) w ≡ (o, w')
      → Ends sys P E rows f (parse_environment sys) D K w (o, w')
      → MainEnds w (serve ifrit sys P E dbg_addr (o, w'))
  unfolding until_terminated
  served-MainEnds given quiet w (ok server) w' e runs =
      served given quiet server (with_debug_server ifrit dbg_addr (ifrit.http_server server)) w' e
        runs (with_debug_server-IsRunner server) refl (status-cases _)
  served-MainEnds given quiet w (err x) w' e runs = absurd runs
  served-MainEnds given quiet w panic w' e why = not_started given quiet w' e why refl

  sink-MainEnds :
      IsGiven
      → (s : Option Error) → sink ≡ s
      → (w : W) → MainEnds w (with_sink ifrit sys P E s f dbg_addr w)
  sink-MainEnds given (some e) same w = no_sink given e same refl
  sink-MainEnds given none same w =
      served-MainEnds given same w _ _ refl
        (create_server-Ends sys P E rows f (parse_environment sys) D K w)

  given-IsGiven : (f.data_dir == "" && f.db_driver == "") ≡ false → IsGiven
  given-IsGiven e = elim (Bool-cases (f.data_dir == "")) [
    | inl empty ↦ inr (λ same. absurd (ground (arith, e, empty)))
    | inr given ↦ inl (λ same. absurd (ground (arith, given)))
  ]

  -- `main` exits with status 1, with nothing done, if neither a directory nor a database is
  -- given. Else it panics, with nothing done, if the log's sink cannot be made; and it panics if
  -- `createServer` does, because the database's parameters, the store, the configuration or the
  -- restore failed. Else it runs the server of `createServer`, which has what the flags and the
  -- environment say, with the store that `NewStore` makes for the parameters of the flags or of
  -- `VCAP_SERVICES`, alone or behind a debug server at the address that is given, and when these end
  -- it returns, or exits with status 1 if they end with an error.
  pub run_main-MainEnds : (w : W) → MainEnds w (run_main ifrit sys P E sink f dbg_addr w)
  unfolding run_main check_params
  run_main-MainEnds w = elim (Bool-cases (f.data_dir == "" && f.db_driver == "")) [
    | inl missing ↦
        no_storage (==-eq f.data_dir "" (ground (arith, missing)))
          (==-eq f.db_driver "" (ground (arith, missing))) (rw missing refl)
    | inr given ↦ rw given (sink-MainEnds (given-IsGiven given) sink refl w)
  ]
