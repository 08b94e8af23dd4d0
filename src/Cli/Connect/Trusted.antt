-- ===== src/Cli/Connect/Trusted.antt =====
-- fsm-cli/client/client.go, NewClient, and fsm-cli/cmd/main.go: which server a command is sent to.
use go_statemachine.Prelude.{
  Text, ◌≡◌, refl, ◌∙◌, ap, sym, Bool, true, false, not, Option, none, some, List, arith,
}
use go_statemachine.Protos.{HealthResponse}
use go_statemachine.Go.Result.{Result, ok, err, panic}
use go_statemachine.Go.Strings.{split, head}
use go_statemachine.Grpc.Setup.{Host, parse_ca_file}
use go_statemachine.Grpc.Status.{Rpc, reply, status, raw, crash}
use go_statemachine.Cli.Types.{CliClient, Platform, Terminal, call}
use go_statemachine.Cli.Main.{Exit, exit, Setting, connected, main}
use go_statemachine.Cli.Connect.{
  ca_cert, ClientCreds, insecure, trusting, certs_dir, client_of, trusts, new_client, connects,
  start,
}

module _ {S Cert Pool Bytes : Type 0} (host : Host Cert Pool Bytes)
    (dial : Text → ClientCreds Pool → Result (CliClient S)) where
  -- How the client was connected: in the clear if the flag is set, and if not to a server whose
  -- certificate has the host of the address, under the root CA of the user's directory.
  abbrev pub IsDialled : Text → Bool → CliClient S → Type 0
  IsDialled address true c = dial address insecure ≡ ok c
  IsDialled address false c =
      (ca : Pool) × (parse_ca_file host (host.join (certs_dir host dial) ca_cert) ≡ ok ca)
      × (dial address (trusting ca (head (split address b':'))) ≡ ok c)

  client_found :
      (r : Result (CliClient S)) (c : CliClient S) → client_of host dial r ≡ ok (some c) → r ≡ ok c
  client_found (ok d) c h = cc
  client_found (err e) c h = cc
  client_found panic c h = cc

  ca_found :
      (address : Text) (r : Result Pool) (c : CliClient S)
      → trusts host dial address r ≡ ok (some c)
      → (ca : Pool) × (r ≡ ok ca) × (dial address (trusting ca (head (split address b':'))) ≡ ok c)
  ca_found address (ok ca) c h = (ca, refl, client_found _ c h)
  ca_found address (err e) c h = cc
  ca_found address panic c h = cc

  new_client-IsDialled :
      (address : Text) (no_tls : Bool) (t : Terminal S) (c : CliClient S)
      → (new_client host dial address (not no_tls) t).0 ≡ ok (some c)
      → IsDialled address no_tls c
  unfolding new_client
  new_client-IsDialled address true t c h = client_found _ c h
  new_client-IsDialled address false t c h = ca_found address _ c h

  new_client_world :
      (address : Text) (has_tls : Bool) (t : Terminal S)
      → (new_client host dial address has_tls t).1.world ≡ t.world
  unfolding new_client
  new_client_world address true t = refl
  new_client_world address false t = refl

  module _ {File Data : Type 0} (os : Platform File Data) (setting : Setting) where
    healthy :
        (next : HealthResponse → Terminal S → Exit × Terminal S)
        (r : Rpc HealthResponse × Terminal S)
        → (connected os setting next r).0 ≡ exit 0
        → (answer : HealthResponse) × (r.0 ≡ reply answer)
    healthy next (reply a, t) h = (a, refl)
    healthy next (status c e, t) h = ground arith
    healthy next (raw e, t) h = ground arith
    healthy next (crash, t) h = cc

    connects_to :
        (args : List Text) (r : Result (Option (CliClient S)) × Terminal S)
        → (connects host dial os setting args r).0 ≡ exit 0
        → (c : CliClient S) × (r.0 ≡ ok (some c))
          × ((answer : HealthResponse) × ((c.health r.1.world).0 ≡ reply answer))
    unfolding main
    connects_to args (ok none, t) h = ground arith
    connects_to args (ok (some c), t) h = (c, refl, healthy _ (call c.health t) h)
    connects_to args (err e, t) h = cc
    connects_to args (panic, t) h = cc

    -- If the command-line client ends with exit code 0, it has dialled the address of its flags - in the
    -- clear if -insecure is set, and else with the root CA that ParseCAFile reads from the file
    -- .fsm/certs/ca.pem of the user's HOME, for a server whose name is the address up to its first
    -- colon - and the server there has replied to Health.
    pub start-IsDialled :
        (no_tls : Bool) (args : List Text) (t : Terminal S)
        → (start host dial os setting no_tls args t).0 ≡ exit 0
        → (c : CliClient S) × IsDialled setting.server_addr no_tls c
          × ((answer : HealthResponse) × ((c.health t.world).0 ≡ reply answer))
    unfolding start
    start-IsDialled no_tls args t h =
        let r = new_client host dial setting.server_addr (not no_tls) t in
        let (c, is_client, (answer, replied)) = connects_to args r h in
        let there =
          ap (λ w. (c.health w).0) (sym (new_client_world setting.server_addr (not no_tls) t))
          ∙ replied in
        (c, new_client-IsDialled setting.server_addr no_tls t c is_client, (answer, there))
