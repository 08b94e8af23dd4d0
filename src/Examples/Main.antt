-- ===== src/Examples/Main.antt =====
-- The theorems on the server program and its TLS, on a machine whose files are their names.
use go_statemachine.Prelude.{Text, text, ◌≡◌, refl, true, false, Option, none, some, [], ◌++◌, ◌==◌}
use go_statemachine.Go.Result.{ok}
use go_statemachine.Storage.Redis.Memory.{Server, memory}
use go_statemachine.Pubsub.Sqs.Subscribe.{get_sqs_client}
use go_statemachine.Grpc.Setup
use go_statemachine.Grpc.Setup.{
  Config, Host, parse_ca_file, setup_tls_config, new_tls, require_and_verify_client_cert,
  new_grpc_server,
}
use go_statemachine.Grpc.Setup.Secured.{Secured, new_grpc_server-Secured}
use go_statemachine.Main.{Flags, World, fatal, Services, running, main}
use go_statemachine.Main.Wired.{Wired, main-Wired}
use go_statemachine.Examples.Orders.{Blob, wires}

runs : Unit {0}
unfolding ◌==◌ parse_ca_file setup_tls_config new_grpc_server get_sqs_client main
runs = tt

abbrev host : Host Text Text Text
host = record {
  getenv = λ name. [];
  join = λ dir name. dir ++ text "/" ++ name;
  stat = λ f. ok tt;
  read_file = λ f. ok f;
  load_x509_key_pair = λ cert key. ok cert;
  certs_from_pem = λ b. some b;
  quote = λ t. t;
}

abbrev secure : Config
secure = record {
  timeout = 0;
  server_address = text "localhost";
  tls_enabled = true;
  tls_certs = text "/certs";
  tls_mutual = true;
}

abbrev secure_server : Setup.Server Text Text
secure_server = record {
  creds = new_tls (record {
    certificate = text "/certs/server.pem";
    client_cas = some (text "/certs/ca.pem");
    client_auth = require_and_verify_client_cert;
    server_name = text "localhost";
  });
  config = record secure { timeout = 200000000 };
}

starts_server : new_grpc_server host secure ≡ ok secure_server
unfolding runs
starts_server = refl

new_grpc_server-Secured_example : Secured host secure secure_server
new_grpc_server-Secured_example = new_grpc_server-Secured host secure secure_server starts_server

abbrev world : World (Server Blob) Blob (Option (Text × Text)) Text Text Text
world = record {
  driver = record {
    new_client = λ t url db. memory;
    new_cluster_client = λ t urls. memory;
    wires = wires;
  };
  aws = record { lookup_env = λ name. some (text "us-west-2"); connect = λ o. o };
  host = host;
  listen = λ port. ok tt;
}

abbrev flags : Flags
flags = record {
  endpoint_url = [];
  cluster = false;
  debug = true;
  events = text "events";
  grpc_port = 7398;
  no_tls = true;
  max_retries = 3;
  notifications = [];
  redis_url = text "localhost:6379";
  timeout = 200;
  trace = false;
}

-- Without a Redis URL, and without a region, the program does not start.
refuses :
    (main world (record flags { redis_url = [] }) ≡ fatal (text "fatal configuration error"))
    × (main (record world { aws = record world.aws { lookup_env = λ name. none } }) flags
        ≡ fatal (text "fatal error creating SQS subscriber"))
unfolding runs
refuses = (refl, refl)

started :
    (s : Services (Server Blob) (Option (Text × Text)) Text Text) × (main world flags ≡ running s)
unfolding runs
started = (_, refl)

main-Wired_example : Wired world flags started.0
main-Wired_example = main-Wired world flags started.0 started.1
