-- ===== src/Cli/Main.antt =====
-- fsm-cli/cmd/main.go: the commands, behind flag.Parse and NewClient.
use go_statemachine.Prelude.{
  ℕ, zero, suc, Text, text, Option, none, some, List, [], ◌∷◌, ◌++◌, ◌==◌, if◌then◌else◌,
}
use go_statemachine.Protos.{HealthResponse}
use go_statemachine.Grpc.Status.{Rpc, reply, status, raw, crash}
use go_statemachine.Cli.Types.{
  cmd_get, cmd_send, cmd_version, CliClient, Platform, Terminal, print, println, call,
}
use go_statemachine.Cli.Client.{send, get}

-- How the program ends: os.Exit, or its end, which is os.Exit(0); or a panic.
pub data Exit : Type 0 where
  exit : ℕ → Exit
  panicked : Exit

-- flag.Arg
abbrev arg : ℕ → List Text → Text
arg n [] = []
arg zero (x ∷ xs) = x
arg (suc n) (x ∷ xs) = arg n xs

-- What main knows of its flags, its variable Release, a generated identifier and the time.
pub record Setting : Type 0 where
  pub server_addr : Text
  pub release : Text
  pub fresh : Text
  pub now : ℕ

module _ {S File Bytes : Type 0} (os : Platform File Bytes) (setting : Setting) where
  abbrev pub report_error : Text → Terminal S → Exit × Terminal S
  report_error e t = (exit 1, println (text "error: " ++ e) t)

  abbrev pub finish : Rpc (Unit {0}) × Terminal S → Exit × Terminal S
  finish (reply u, t) = (exit 0, t)
  finish (status c e, t) = report_error (os.error_text c e) t
  finish (raw e, t) = report_error e t
  finish (crash, t) = (panicked, t)

  abbrev show_version : HealthResponse → Terminal S → Exit × Terminal S
  show_version r t = (
    exit 0,
    print
        (text "Connected to Server: "
          ++ r.release
          ++ text " at "
          ++ setting.server_addr
          ++ text " ("
          ++ os.state_string r.state
          ++ text ")\n")
        (println (text "FSM CLI Client Rel. " ++ setting.release) t),
  )

  -- The switch.
  abbrev pub run_command :
      CliClient S → Text → List Text → HealthResponse → Terminal S → Exit × Terminal S
  run_command c cmd args r t =
      if cmd == cmd_send
      then finish (send c os setting.fresh setting.now (arg 1 args) t)
      else if cmd == cmd_get
      then finish (get c os (arg 1 args) (arg 2 args) t)
      else if cmd == cmd_version
      then show_version r t
      else (exit 1, print (text "unknown or missing command `" ++ cmd ++ text "`\n") t)

  abbrev no_connection : Text → Terminal S → Exit × Terminal S
  no_connection e t = (exit 1, println (text "cannot connect to server " ++ e) t)

  -- What follows the call of Health.
  abbrev pub connected :
      (HealthResponse → Terminal S → Exit × Terminal S)
      → Rpc HealthResponse × Terminal S
      → Exit × Terminal S
  connected next (reply r, t) = next r t
  connected next (status c e, t) = no_connection (os.error_text c e) t
  connected next (raw e, t) = no_connection e t
  connected next (crash, t) = (panicked, t)

  -- NewClient returns none for nil.
  unfoldable pub main : Option (CliClient S) → List Text → Terminal S → Exit × Terminal S
  main none args t = (exit 1, print (text "cannot connect to server at " ++ setting.server_addr) t)
  main (some c) args t = connected (run_command c (os.to_lower (arg 0 args)) args) (call c.health t)
