-- ===== src/Examples/Tools.antt =====
-- The theorems on the probe, the connection of the command-line client, and the example client.
use go_statemachine.Prelude.{
  Text, text, ◌≡◌, ◌≢◌, ◌↔◌, refl, ap, Bool, true, false, Option, none, some, List, [], ◌∷◌, ◌++◌,
  ◌==◌, if◌then◌else◌,
}
use go_statemachine.Protos.{HealthResponse, EventRequest, Readiness, ready, not_ready}
use go_statemachine.Go.Result.{Error, Result, ok, err, panic}
use go_statemachine.Go.Strings.{contains}
use go_statemachine.Grpc.Server.{health}
use go_statemachine.Storage.Redis.Memory.{Server, memory, broken}
use go_statemachine.Storage.RedisStore
use go_statemachine.Storage.Manager.{redis_manager}
use go_statemachine.Probe.{ProbeFlags, Network, returned, probe}
use go_statemachine.Probe.Verdict.{server, probe-Returned}
use go_statemachine.Pubsub.Sqs.{SqsSubscriber, Box, process_message}
use go_statemachine.Demo
use go_statemachine.Demo.{DemoFlags, Chance, Desk, Tools}
use go_statemachine.Demo.Ignored.{Sent, body, main-Ignored}
use go_statemachine.Examples.Orders
use go_statemachine.Examples.Orders.{Blob, store}

runs : Unit {0}
unfolding memory RedisStore.health health probe Demo.main process_message contains ◌==◌
runs = tt

-- The server's Redis does not answer.
abbrev down : Server Blob
down = Orders.server (broken ∷ [])

abbrev state_text : Readiness → Text
state_text ready = text "READY"
state_text not_ready = text "NOT_READY"

abbrev net : Network (Server Blob)
net = record {
  dial = λ address creds.
      ok (λ deadline. health (server (redis_manager store) (text "v1") true false) (text "v1"));
  marshal_json = λ r. ok (state_text r.state);
  error_text = λ c e. e;
}

abbrev probe_flags : ProbeFlags
probe_flags = record { host = text "localhost:7398"; timeout = 200000000; no_tls = true }

-- A server that is not ready passes the probe.
not_ready_passes : (probe net probe_flags down).0 ≡ returned (text "NOT_READY")
unfolding runs
not_ready_passes = refl

has_text : (r : HealthResponse) → (json : Text) × (net.marshal_json r ≡ ok json)
has_text r = (_, refl)

calm : ((redis_manager store).health down).0 ≢ panic
unfolding runs
calm h = cc

probe-Returned_example :
    (r : HealthResponse) × (json : Text) × ((probe net probe_flags down).0 ≡ returned json)
    × (net.marshal_json r ≡ ok json)
    × ((r.state ≡ ready)
        ↔ (◌≡◌ {A = Bool} true true × (((redis_manager store).health down).0 ≡ ok tt)))
probe-Returned_example =
    probe-Returned (redis_manager store) (text "v1") net probe_flags true false down refl has_text
      calm

-- The example client, with a queue that is the list of the bodies that were sent.
abbrev tools : Tools (Option (Text × Text)) Text (List Text)
tools = record {
  aws = record { lookup_env = λ name. none; connect = λ o. o };
  open_file = λ path. ok path;
  decode_json = λ file. err (text "EOF");
  marshal_order = λ o. ok o.order_id;
  marshal_text_string = λ r. text "id:" ++ r.id;
  get_queue_url = λ conn topic q. (ok (some topic), q);
  send_message = λ conn url body q. (ok tt, q ++ body ∷ []);
}

abbrev demo_flags : DemoFlags
demo_flags = record {
  endpoint = [];
  q = text "events";
  cfg = text "orders";
  fsm_id = text "o1";
  event = text "ship";
}

abbrev chance : Chance
chance = record { order_id = text "u1"; event_id = text "u2"; ordered_at = 1; now = 2 }

abbrev desk : Desk (List Text)
desk = record { queues = []; printed = [] }

demo_sends :
    ((Demo.main tools demo_flags chance desk).0 ≡ ok tt)
    × ((Demo.main tools demo_flags chance desk).1.queues ≡ text "id:o1" ∷ [])
unfolding runs
demo_sends = (refl, refl)

abbrev decode : Text → Result Text
decode t = if contains t (text ":") then err (text "illegal base64 data") else ok t

abbrev subscriber : SqsSubscriber (List Text) Text
subscriber = record {
  client = record { delete_message = λ r q. (ok tt, q); send_message = λ body q. (ok tt, q) };
  requests = record {
    encode_to_string = λ b. b;
    decode_string = decode;
    marshal = λ r. ok r.id;
    unmarshal = λ b. err b;
  };
  message_remove_retries = 3;
}

refuses_colon :
    (t : Text)
    → contains t (text ":") ≡ true
    → (e : Error) × (subscriber.requests.decode_string t ≡ err e)
refuses_colon t h =
    (text "illegal base64 data", ap (λ b. if b then err (text "illegal base64 data") else ok t) h)

has_colon :
    (r : EventRequest) → r.id ≢ [] → contains (tools.marshal_text_string r) (text ":") ≡ true
unfolding runs
has_colon r n = refl

abbrev box : Box (List Text)
box = record { queues = []; events = [] }

main-Ignored_example :
    (sent : Sent tools demo_flags chance [] (Demo.main tools demo_flags chance desk).1.queues)
    × (process_message subscriber
          (text "u3")
          3
          (record {
            body = some (body tools demo_flags chance sent.details);
            receipt_handle = text "r1";
          })
          box
        ≡ (ok tt, box))
main-Ignored_example =
    main-Ignored tools demo_flags chance subscriber desk (text "u3") 3 (text "r1") box refuses_colon
      has_colon demo_sends.0
