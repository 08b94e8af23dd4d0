-- ===== src/Examples/Sqs.antt =====
-- The theorems on the queues of pkg/pubsub, over a list of texts: the receipt handles that are in
-- flight, or the bodies that were sent.
use go_statemachine.Prelude.{
  Text, text, ◌≡◌, refl, none, Option, some, List, [], ◌∷◌, ◌++◌, ◌==◌, map, if◌then◌else◌,
}
use go_statemachine.Protos.{EventRequest, EventResponse, internal_error}
use go_statemachine.Go.Result.{Result, ok, err}
use go_statemachine.Api.Event.{update_event}
use go_statemachine.Pubsub.Listener.{make_response}
use go_statemachine.Pubsub.Listener.Notices.{Notices, stop, noticed}
use go_statemachine.Pubsub.Listener.Redis.{redis_listener}
use go_statemachine.Pubsub.Sqs.{
  Message, Queue, TextWire, SqsSubscriber, Box, remove, process_message, publish,
}
use go_statemachine.Pubsub.Sqs.Messages.{Fate, process_message-Fate}
use go_statemachine.Pubsub.Sqs.Notifications.{Sends, publish_to-Notices}
use go_statemachine.Pubsub.Sqs.Publisher.{SqsPublisher, Posting, new_sqs_publisher, publish_to}
use go_statemachine.Examples.Orders.{event_of, store}

-- Only the first receipt handle can be deleted; any other attempt fails and drops it.
abbrev delete : Text → List Text → Result (Unit {0}) × List Text
delete receipt [] = (err (text "empty"), [])
delete receipt (r ∷ rs) = if r == receipt then (ok tt, rs) else (err (text "busy"), rs)

abbrev queue : Queue (List Text)
queue = record { delete_message = delete; send_message = λ body q. (ok tt, q ++ body ∷ []) }

abbrev request : EventRequest
request = record { event = some (event_of (text "ship")); config = text "orders"; id = text "o1" }

abbrev requests : TextWire Text EventRequest
requests = record {
  encode_to_string = λ b. b;
  decode_string = λ t. ok t;
  marshal = λ r. ok (text "request");
  unmarshal = λ b. if b == text "request" then ok request else err (text "invalid");
}

abbrev responses : TextWire Text EventResponse
responses = record {
  encode_to_string = λ b. b;
  decode_string = λ t. ok t;
  marshal = λ r. ok r.event_id;
  unmarshal = λ b. err b;
}

abbrev subscriber : SqsSubscriber (List Text) Text
subscriber = record { client = queue; requests = requests; message_remove_retries = 3 }

abbrev message : Message
message = record { body = some (text "request"); receipt_handle = text "r2" }

abbrev box : Box (List Text)
box = record { queues = text "r1" ∷ text "r2" ∷ text "r3" ∷ []; events = [] }

runs : Unit {0}
unfolding remove process_message publish make_response update_event ◌==◌
runs = tt

processes :
    process_message subscriber (text "new") 5 message box
    ≡ (ok tt, record { queues = text "r3" ∷ []; events = request ∷ [] })
unfolding runs
processes = refl

process_message-Fate_example :
    Fate subscriber
      (text "new")
      5
      message
      box
      (process_message subscriber (text "new") 5 message box).1
unfolding runs
process_message-Fate_example = process_message-Fate subscriber (text "new") 5 message box refl

abbrev response : EventResponse
response = make_response request internal_error (text "down")

notices : Notices (redis_listener store) (request ∷ []) (response ∷ [])
notices = noticed request internal_error (text "down") (λ h. cc) stop

abbrev posting : Posting (Option (Text × Text)) (List Text) Text
posting = record {
  poller_of = λ conn. record {
    get_queue_url = λ topic q. (ok (some topic), q);
    receive_message = λ url q. (ok [], q);
  };
  queue_at = λ conn url. queue;
  responses = responses;
}

abbrev publisher : SqsPublisher (Option (Text × Text))
publisher = record { client = none; notifications = response ∷ [] }

connects :
    new_sqs_publisher (record { lookup_env = λ name. none; connect = λ o. o }) (response ∷ []) none
    ≡ some publisher
unfolding new_sqs_publisher
connects = refl

-- A client that refuses every text with an error, but takes it.
abbrev failing : Queue (List Text)
failing = record queue { send_message = λ body q. (err (text "refused"), q ++ body ∷ []) }

abbrev failing_posting : Posting (Option (Text × Text)) (List Text) Text
failing_posting = record posting { queue_at = λ conn url. failing }

abbrev two_notices : SqsPublisher (Option (Text × Text))
two_notices = record { client = none; notifications = response ∷ response ∷ [] }

two_noticed : Notices (redis_listener store) (request ∷ request ∷ []) (response ∷ response ∷ [])
two_noticed = noticed request internal_error (text "down") (λ h. cc) notices

publish_to-Notices_example :
    Sends failing
      (map (λ r. r.event_id) (response ∷ response ∷ []))
      []
      (publish_to failing_posting two_notices (text "dlq") []).0
      (publish_to failing_posting two_notices (text "dlq") []).1
publish_to-Notices_example =
    publish_to-Notices failing_posting two_notices (redis_listener store) (λ r. r.event_id)
      (request ∷ request ∷ []) (text "dlq") (text "dlq") [] two_noticed refl (λ r. refl)
