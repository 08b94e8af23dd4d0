-- ===== src/Demo.antt =====
-- docs/examples/sqs_client.go: the example of a client that sends an event through the queue. Packages
-- json, uuid, aws and sqs, the files and the text form of Protobuf are parameters.

pub mod Ignored
use mathlib.Core.Option
use go_statemachine.Prelude.{
  ℕ, Text, text, Bool, ◌||◌, Option, none, some, List, [], ◌∷◌, ◌++◌, ◌==◌, if◌then◌else◌,
}
use go_statemachine.Protos.{Transition, Event, Configuration, EventRequest}
use go_statemachine.Go.Result.{Error, Result, ok, err, panic}
use go_statemachine.Go.Action.{Action, lift, ◌>>=◌, ◌>>◌}
use go_statemachine.Pubsub.Sqs.Subscribe.{Aws}

-- The total in hundredths.
pub record OrderDetails : Type 0 where
  pub order_id : Text
  pub customer_id : Text
  pub order_date : ℕ
  pub order_total : ℕ

abbrev pub new_order_details : ℕ → Text → Text → ℕ → OrderDetails
new_order_details now order_id customer_id order_total = record {
  order_id = order_id;
  customer_id = customer_id;
  order_date = now;
  order_total = order_total;
}

-- `S` is the state of the queues.
pub record Tools (Conn File S : Type 0) : Type 0 where
  pub aws : Aws Conn
  pub open_file : Text → Result File
  pub decode_json : File → Result Configuration
  pub marshal_order : OrderDetails → Result Text
  pub marshal_text_string : EventRequest → Text
  pub get_queue_url : Conn → Text → S → Result (Option Text) × S
  -- to the URL of a queue
  pub send_message : Conn → Option Text → Text → S → Result (Unit {0}) × S

-- The flags.
pub record DemoFlags : Type 0 where
  pub endpoint : Text
  pub q : Text
  pub cfg : Text
  pub fsm_id : Text
  pub event : Text

-- Two generated identifiers, and the times of the order and of the event.
pub record Chance : Type 0 where
  pub order_id : Text
  pub event_id : Text
  pub ordered_at : ℕ
  pub now : ℕ

-- The queues, and what was printed.
pub record Desk (S : Type 0) : Type 0 where
  pub queues : S
  pub printed : List Text

module _ {A : Type 0} where
  -- if err != nil { panic(err) }
  abbrev pub or_panic : Result A → Result A
  or_panic (ok a) = ok a
  or_panic (err e) = panic
  or_panic panic = panic

  -- A call of the queues whose error is a panic.
  abbrev pub on_queues : {S : Type 0} → (S → Result A × S) → Desk S → Result A × Desk S
  on_queues f d = let (r, s) = f d.queues in (or_panic r, record d { queues = s })

abbrev pub say : {S : Type 0} → Text → Action (Desk S) (Unit {0})
say line d = (ok tt, record d { printed = d.printed ++ line ∷ [] })

abbrev or_default : Text → Text → Text
or_default fallback value = if value == [] then fallback else value

module _ {Conn File S : Type 0} (tools : Tools Conn File S) where
  -- OrderDetails.String
  abbrev pub string : OrderDetails → Result Text
  string o = or_panic (tools.marshal_order o)

  abbrev decode_opened : Result File → Result Configuration
  decode_opened (ok file) = tools.decode_json file
  decode_opened (err e) = err e
  decode_opened panic = panic

  -- The configuration that is decoded, in place of the pointer.
  unfoldable pub read_config : Text → Result Configuration
  read_config file_path = decode_opened (tools.open_file file_path)

  -- os.Getenv is the empty text for a variable that is not set.
  abbrev region : Text
  region =
      or_default (text "us-west-2") (Option.get_or (tools.aws.lookup_env (text "AWS_REGION")) [])

  abbrev pub new_sqs : Text → Conn
  new_sqs endpoint = tools.aws.connect (some (endpoint, region))

  abbrev pub order_of : Chance → OrderDetails
  order_of chance = new_order_details chance.ordered_at chance.order_id (text "sqs-cust-1234") 9999

  abbrev pub message_of : DemoFlags → Chance → Text → EventRequest
  message_of flags chance details = record {
    event = some (record {
      event_id = chance.event_id;
      timestamp = some chance.now;
      transition = some (record { from = []; to = []; event = flags.event });
      originator = text "New SQS Client with Details";
      details = details;
    });
    config = flags.cfg;
    id = flags.fsm_id;
  }

  -- The check of the flags, behind the look-up of the queue.
  abbrev pub must_name : DemoFlags → Result (Unit {0})
  must_name flags = if flags.fsm_id == [] || flags.event == [] then panic else ok tt

  abbrev publishing : DemoFlags → Text
  publishing flags =
      text "Publishing Event `"
      ++ flags.event
      ++ text "` for FSM `"
      ++ flags.fsm_id
      ++ text "` to SQS Topic: ["
      ++ flags.q
      ++ text "]\n"

  abbrev sent_event : DemoFlags → Chance → Text
  sent_event flags chance =
      text "Sent event [" ++ chance.event_id ++ text "] to queue " ++ flags.q ++ text "\n"

  abbrev pub send_to : DemoFlags → Chance → Option Text → Text → Action (Desk S) (Unit {0})
  send_to flags chance url details = on_queues (
      tools.send_message (new_sqs flags.endpoint) url
        (tools.marshal_text_string (message_of flags chance details)))

  unfoldable pub main : DemoFlags → Chance → Action (Desk S) (Unit {0})
  main flags chance = do
    url ← on_queues (tools.get_queue_url (new_sqs flags.endpoint) flags.q)
    lift (must_name flags)
    say (publishing flags)
    details ← lift (string (order_of chance))
    send_to flags chance url details
    say (sent_event flags chance)
