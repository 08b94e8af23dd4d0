-- ===== src/Probe.antt =====
-- docker/grpc_health.go: the probe that a container runs against its server. Package grpc, the
-- generated client and protojson are parameters.
pub mod Verdict
use go_statemachine.Prelude.{ℕ, Text, text, Bool, ◌++◌, if◌then◌else◌}
use go_statemachine.Protos.{HealthResponse}
use go_statemachine.Go.Result.{Result, ok, err, panic}
use go_statemachine.Grpc.Status.{Code, Rpc, reply, status, raw, crash}

-- The flags, with the timeout in nanoseconds.
pub record ProbeFlags : Type 0 where
  pub host : Text
  pub timeout : ℕ
  pub no_tls : Bool

-- insecure.NewCredentials, or TLS without a verification of the server.
pub data ProbeCreds : Type 0 where
  insecure skip_verify : ProbeCreds

-- The call of Health with a deadline, over a connection; `S` is the state of the server.
abbrev pub HealthCall : Type 0 → Type 0
HealthCall S = ℕ → S → Rpc HealthResponse × S

pub record Network (S : Type 0) : Type 0 where
  pub dial : Text → ProbeCreds → Result (HealthCall S)
  pub marshal_json : HealthResponse → Result Text
  pub error_text : Code → Text → Text

-- How the probe ends: it returns, which is exit code 0, behind one line on its output; or log.Fatal,
-- which is exit code 1; or a panic.
pub data ProbeEnd : Type 0 where
  returned : Text → ProbeEnd
  fatal : Text → ProbeEnd
  panicked : ProbeEnd

abbrev pub probe_creds : Bool → ProbeCreds
probe_creds no_tls = if no_tls then insecure else skip_verify

module _ {S : Type 0} (net : Network S) where
  abbrev shown : Result Text → ProbeEnd
  shown (ok json) = returned json
  shown (err e) = fatal (text "Error while marshaling the message to JSON:" ++ e)
  shown panic = panicked

  abbrev no_health : Text → ProbeEnd
  no_health e = fatal (text "cannot connect to cmd:" ++ e)

  abbrev pub answered : Rpc HealthResponse × S → ProbeEnd × S
  answered (reply r, s) = (shown (net.marshal_json r), s)
  answered (status c e, s) = (no_health (net.error_text c e), s)
  answered (raw e, s) = (no_health e, s)
  answered (crash, s) = (panicked, s)

  abbrev pub dialled : ProbeFlags → Result (HealthCall S) → S → ProbeEnd × S
  dialled flags (ok health) s = answered (health flags.timeout s)
  dialled flags (err e) s =
      (fatal (text "cannot open connection to " ++ flags.host ++ text ": " ++ e), s)
  dialled flags panic s = (panicked, s)

  unfoldable pub probe : ProbeFlags → S → ProbeEnd × S
  probe flags s = dialled flags (net.dial flags.host (probe_creds flags.no_tls)) s
