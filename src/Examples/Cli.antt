-- ===== src/Examples/Cli.antt =====
-- The theorems on fsm-cli, with a server that says NotFound a number of times before it has an
-- outcome; this number is the server's state. A file is the request that it holds.
use go_statemachine.Prelude.{
  ℕ, zero, suc, Text, text, ◌≡◌, ◌⊎◌, refl, false, Option, none, some, [], ◌∷◌, ◌++◌, ◌==◌,
  if◌then◌else◌,
}
use go_statemachine.Protos.{EventRequest, EventResponse, HealthResponse, success, ready}
use go_statemachine.Go.Result.{Result, ok, err}
use go_statemachine.Go.Strings.{split}
use go_statemachine.Grpc.Status.{Rpc, reply, status, raw, crash, not_found}
use go_statemachine.Cli.Types.{
  version, kind_event, kind_configuration, CliClient, Platform, Terminal,
}
use go_statemachine.Cli.Client.{
  max_retries, wait_outcome, waited, outcome_request, send_event, send_handlers, send, get,
}
use go_statemachine.Cli.Client.Wait.{Waited, send_event-Waited}
use go_statemachine.Cli.Client.Ends.{EventFile, HasOutcome, send_ends}
use go_statemachine.Cli.Main.{Setting, exit, panicked, main}
use go_statemachine.Examples.Orders.{orders, event_of, fresh}
use go_statemachine.Grpc.Setup.{Host, parse_ca_file}
use go_statemachine.Cli.Connect.{ClientCreds, insecure, trusting, new_client, start}
use go_statemachine.Cli.Connect.Trusted.{IsDialled, start-IsDialled}

runs : Unit {0}
unfolding ◌==◌ wait_outcome send_event send_handlers send get main split
runs = tt

abbrev e1 : Text
e1 = text "e1"

-- What GetEventOutcome says, the state being the number of NotFounds to come.
abbrev outcome_after : ℕ → Rpc EventResponse × ℕ
outcome_after zero = (
  reply (record {
    event_id = e1;
    outcome =
        some (record { code = success; details = []; config = text "orders"; id = text "o1" });
  }),
  0,
)
outcome_after (suc n) = (status not_found [], n)

abbrev client : CliClient ℕ
client = record {
  send_event = λ r n. (reply (record { event_id = e1; outcome = none }), n);
  get_event_outcome = λ q. outcome_after;
  put_configuration = λ c n. (raw [], n);
  put_finite_state_machine = λ r n. (raw [], n);
  get_configuration = λ id n. (reply orders, n);
  get_finite_state_machine = λ r n. (reply fresh.fsm, n);
  health = λ n. (reply (record { state = ready; release = []; tls_enabled = false }), n);
}

abbrev request : EventRequest
request = record { event = some (event_of (text "ship")); config = text "orders"; id = text "o1" }

abbrev platform : Platform EventRequest EventRequest
platform = record {
  stdin = record { event = none; config = []; id = [] };
  open_file = λ path. ok request;
  read_all = λ f. ok f;
  unmarshal_generic = λ r. ok (record { version = version; kind = kind_event; id = [] });
  unmarshal_config = λ r. err [];
  unmarshal_fsm = λ r. err [];
  unmarshal_event = λ r. ok (record {
    generic = record { version = version; kind = kind_event; id = [] };
    spec = some r;
  });
  marshal_response = λ r. ok [];
  marshal_config = λ c. ok c.name;
  marshal_fsm = λ f. ok f.state;
  code_string = λ c. text "Ok";
  state_string = λ s. text "READY";
  title_case = λ t. t;
  to_lower = λ t. t;
  error_text = λ c e. e;
}

abbrev terminal : ℕ → Terminal ℕ
terminal n = record { world = n; printed = [] }

abbrev path : Text
path = text "ship.yaml"

-- Send ends well after two NotFounds; after five it panics.
sends :
    ((send client platform e1 7 path (terminal 2)).0 ≡ reply tt)
    × ((send client platform e1 7 path (terminal 5)).0 ≡ crash)
unfolding runs
sends = (refl, refl)

-- The two forms of `get`, and an identifier without a separator.
gets :
    ((get client platform kind_configuration (text "orders:v1") (terminal 0)).1.printed
      ≡ text "orders\n" ∷ [])
    × ((get client platform (text "FiniteStateMachine") (text "orders/o1") (terminal 0)).1.printed
        ≡ text "new\n" ∷ [])
    × ((get client platform (text "FiniteStateMachine") (text "o1") (terminal 0)).0
        ≡ raw (text "expected an FSM ID of the form `config-name/fsm-id`, got instead o1"))
unfolding runs
gets = (refl, refl, refl)

abbrev setting : Setting
setting = record { server_addr = []; release = []; fresh = e1; now = 7 }

-- The exit codes.
exits :
    ((main platform setting (some client) (text "send" ∷ path ∷ []) (terminal 2)).0 ≡ exit 0)
    × ((main platform setting (some client) (text "send" ∷ path ∷ []) (terminal 9)).0 ≡ panicked)
    × ((main platform setting (some client) (text "put" ∷ []) (terminal 2)).0 ≡ exit 1)
unfolding runs
exits = (refl, refl, refl)

abbrev response : EventResponse
response = record { event_id = e1; outcome = none }

send_event-Waited_example :
    (r : Result (Option EventResponse) × ℕ) × Waited client
      (outcome_request client request e1)
      max_retries
      2
      r
    × (send_event client e1 7 (some request) (terminal 2)
        ≡ waited client ((text "Event ID: " ++ e1 ++ text "\n") ∷ []) r)
send_event-Waited_example =
    send_event-Waited client e1 7 request (event_of (text "ship")) response (terminal 2) refl refl

file : EventFile platform path request
unfolding runs
file = record {
  file = request;
  content = request;
  id = [];
  entity = _;
  opens = refl;
  reads = refl;
  head = refl;
  decodes = refl;
  holds = refl;
}

send_ends_example :
    (r : Result (Option EventResponse) × ℕ) × Waited client
      (outcome_request client request e1)
      max_retries
      5
      r
    × ((HasOutcome r.0 × ((send client platform e1 7 path (terminal 5)).0 ≡ reply tt))
        ⊎ ((¬ HasOutcome r.0) × ((send client platform e1 7 path (terminal 5)).0 ≡ crash)))
send_ends_example =
    send_ends client platform e1 7 path request (event_of (text "ship")) response (terminal 5) file
      refl refl (λ resp. ([], refl))

-- A machine whose files are their names, and a server that only takes clients with its root CA.
abbrev host : Host Text Text Text
host = record {
  getenv = λ name. text "/home/me";
  join = λ dir name. dir ++ text "/" ++ name;
  stat = λ f. ok tt;
  read_file = λ f. ok f;
  load_x509_key_pair = λ cert key. ok cert;
  certs_from_pem = λ b. some b;
  quote = λ t. t;
}

abbrev dial : Text → ClientCreds Text → Result (CliClient ℕ)
dial address insecure = err (text "refused")
dial address (trusting ca name) =
    if ca == text "/home/me/.fsm/certs/ca.pem" then ok client else err (text "unknown authority")

secured : (start host dial platform setting false (text "send" ∷ path ∷ []) (terminal 2)).0 ≡ exit 0
unfolding runs start new_client parse_ca_file
secured = refl

start-IsDialled_example :
    (c : CliClient ℕ) × IsDialled host dial setting.server_addr false c
    × ((answer : HealthResponse) × ((c.health 2).0 ≡ reply answer))
start-IsDialled_example =
    start-IsDialled host dial platform setting false (text "send" ∷ path ∷ []) (terminal 2) secured
