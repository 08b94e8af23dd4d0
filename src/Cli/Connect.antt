-- ===== src/Cli/Connect.antt =====
-- fsm-cli/client/client.go, NewClient, with the names of types.go, and main.go from the flags on. The
-- environment, the files and package grpc are parameters.

pub mod Trusted
use go_statemachine.Prelude.{
  Text, text, Bool, true, false, not, Option, none, some, List, [], ◌∷◌, if◌then◌else◌,
}
use go_statemachine.Go.Result.{Error, Result, ok, err, panic}
use go_statemachine.Go.Strings.{split, head}
use go_statemachine.Grpc.Setup.{Host, parse_ca_file}
use go_statemachine.Cli.Types.{CliClient, Platform, Terminal, println}
use go_statemachine.Cli.Main.{Exit, panicked, Setting, main}

abbrev pub ca_cert : Text
ca_cert = text "ca.pem"

-- The credentials of the connection: none, or a root CA for the server, and the name that its
-- certificate must have.
pub data ClientCreds (Pool : Type 0) : Type 0 where
  insecure : ClientCreds Pool
  trusting : Pool → Text → ClientCreds Pool

module _ {S Cert Pool Bytes : Type 0} (host : Host Cert Pool Bytes)
    (dial : Text → ClientCreds Pool → Result (CliClient S)) where
  abbrev pub config_default_dir : Text
  config_default_dir = host.join (host.getenv (text "HOME")) (text ".fsm")

  abbrev pub certs_dir : Text
  certs_dir = host.join config_default_dir (text "certs")

  -- none is nil
  abbrev pub client_of : Result (CliClient S) → Result (Option (CliClient S))
  client_of (ok c) = ok (some c)
  client_of (err e) = ok none
  client_of panic = panic

  -- The error of ParseCAFile is a panic.
  abbrev pub trusts : Text → Result Pool → Result (Option (CliClient S))
  trusts address (ok ca) = client_of (dial address (trusting ca (head (split address b':'))))
  trusts address (err e) = panic
  trusts address panic = panic

  unfoldable pub new_client : Text → Bool → Terminal S → Result (Option (CliClient S)) × Terminal S
  new_client address has_tls t =
      if has_tls
      then (trusts address (parse_ca_file host (host.join certs_dir ca_cert)), t)
      else (client_of (dial address insecure), println (text "WARN: TLS Disabled") t)

  module _ {File Data : Type 0} (os : Platform File Data) (setting : Setting) where
    abbrev pub connects : List Text → Result (Option (CliClient S)) × Terminal S → Exit × Terminal S
    connects args (ok c, t) = main os setting c args t
    connects args (err e, t) = (panicked, t)
    connects args (panic, t) = (panicked, t)

    -- main; `no_tls` is the flag -insecure.
    unfoldable pub start : Bool → List Text → Terminal S → Exit × Terminal S
    start no_tls args t = connects args (new_client setting.server_addr (not no_tls) t)
