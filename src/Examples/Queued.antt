-- ===== src/Examples/Queued.antt =====
-- An event that comes through the queue, over the store in memory.
use native.Mathlib.Decide.{ℕ_discrete}
use go_statemachine.Prelude.{Text, text, none, some, List, [], ◌∷◌}
use go_statemachine.Protos.{Event, EventRequest}
use go_statemachine.Go.Result.{Result, ok, err}
use go_statemachine.Storage.Redis.Memory.{Server}
use go_statemachine.Pubsub.Listener.{Scene}
use go_statemachine.Pubsub.Sqs.{Message, TextWire, SqsSubscriber, Box}
use go_statemachine.Examples.Orders.{orders, Blob}
use go_statemachine.Examples.World.{holding_o2, o2, ship}

abbrev unnamed : Event
unnamed = record ship { event_id = []; timestamp = none }

abbrev request : EventRequest
request = record { event = some unnamed; config = orders.name; id = o2 }

same_text : Discrete Text
same_text = hlevel ℕ_discrete

same_request : Discrete EventRequest
same_request = hlevel ℕ_discrete

-- One request has an encoding.
abbrev marshal : EventRequest → Result Text
marshal r = elim (same_request r request) [
  | yes e ↦ ok (text "request")
  | no n ↦ err (text "unknown")
]

abbrev unmarshal : Text → Result EventRequest
unmarshal b = ok request

abbrev requests : TextWire Text EventRequest
requests = record {
  encode_to_string = λ b. b;
  decode_string = λ t. ok t;
  marshal = marshal;
  unmarshal = unmarshal;
}

abbrev subscriber : SqsSubscriber (List Text) Text
subscriber = record {
  client = record { delete_message = λ r q. (ok tt, []); send_message = λ body q. (ok tt, q) };
  requests = requests;
  message_remove_retries = 3;
}

abbrev message : Message
message = record { body = some (text "request"); receipt_handle = text "r1" }

abbrev box : Box (List Text)
box = record { queues = text "r1" ∷ []; events = [] }

abbrev scene : Scene (Server Blob)
scene = record { world = holding_o2; posted = [] }
