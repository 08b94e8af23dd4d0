-- ===== src/Pubsub/Sqs/Subscribe.antt =====
-- pkg/pubsub/sqs_sub.go and sqs_pub.go: the connection to SQS, the look-up of a queue's URL, and the
-- polling loop of Subscribe. The AWS session, the environment and the SQS client are parameters.
use mathlib.Core.Option
use go_statemachine.Prelude.{ℕ, zero, suc, Text, text, Option, none, some, List, [], ◌++◌}
use go_statemachine.Go.Result.{Result, ok, err, panic}
use go_statemachine.Protos.{EventRequest}
use go_statemachine.Pubsub.Sqs.{Message, Queue, TextWire, SqsSubscriber}

abbrev pub default_retries : ℕ
default_retries = 3

-- What the code calls of package aws: a session that must be had (nil for the endpoint and the
-- region that the shared configuration has), and os.LookupEnv.
pub record Aws (Conn : Type 0) : Type 0 where
  pub lookup_env : Text → Option Text
  pub connect : Option (Text × Text) → Conn

module _ {Conn : Type 0} (aws : Aws Conn) where
  abbrev at_region : Text → Option Text → Option Conn
  at_region url none = none
  at_region url (some region) = some (aws.connect (some (url, region)))

  -- none is nil
  unfoldable pub get_sqs_client : Option Text → Option Conn
  get_sqs_client none = some (aws.connect none)
  get_sqs_client (some url) = at_region url (aws.lookup_env (text "AWS_REGION"))

-- The operations of a connection on its queues, and the encoding of the requests.
pub record Transport (Conn S Bytes : Type 0) : Type 0 where
  pub queue_of : Conn → Queue S
  pub requests : TextWire Bytes EventRequest

module _ {Conn S Bytes : Type 0} (aws : Aws Conn) (transport : Transport Conn S Bytes) where
  abbrev subscriber_on : Conn → SqsSubscriber S Bytes
  subscriber_on conn = record {
    client = transport.queue_of conn;
    requests = transport.requests;
    message_remove_retries = default_retries;
  }

  -- none is nil
  unfoldable pub new_sqs_subscriber : Option Text → Option (SqsSubscriber S Bytes)
  unfolding get_sqs_client
  new_sqs_subscriber url = Option.map subscriber_on (get_sqs_client aws url)

-- The client of one connection: GetQueueUrl, which may have no URL, and ReceiveMessage.
pub record Poller (S : Type 0) : Type 0 where
  pub get_queue_url : Text → S → Result (Option Text) × S
  pub receive_message : Text → S → Result (List Message) × S

-- How a loop ends: it returns, or the log's Fatal exits, or it panics.
pub data Stop : Type 0 where
  returned fatal panicked : Stop

-- The state of the queues, and the messages for which a goroutine of ProcessMessage was started.
pub record Polled (S : Type 0) : Type 0 where
  pub queues : S
  pub started : List Message

module _ {S : Type 0} (p : Poller S) where
  abbrev pub url_of : Result (Option Text) × S → Option Text × S
  url_of (ok url, q) = (url, q)
  url_of (err e, q) = (none, q)
  url_of (panic, q) = (none, q)

  -- One round behind the select; `again` is the rest of the loop.
  abbrev pub received :
      (Polled S → Stop × Polled S) → List Message → Result (List Message) × S → Stop × Polled S
  received again before (ok messages, q) =
      again (record { queues = q; started = before ++ messages })
  received again before (err e, q) = again (record { queues = q; started = before })
  received again before (panic, q) = (panicked, record { queues = q; started = before })

  -- The loop, until the select of a round finds `done` closed: `rounds` is how many before it do not.
  unfoldable pub poll : Text → ℕ → Polled S → Stop × Polled S
  poll url zero b = (returned, b)
  poll url (suc rounds) b = received (poll url rounds) b.started (p.receive_message url b.queues)

  abbrev polled_at : ℕ → Option Text × S → Stop × Polled S
  polled_at rounds (none, q) = (fatal, record { queues = q; started = [] })
  polled_at rounds (some url, q) = poll url rounds (record { queues = q; started = [] })

  unfoldable pub subscribe : Text → ℕ → S → Stop × Polled S
  subscribe topic rounds q = polled_at rounds (url_of (p.get_queue_url topic q))
