-- ===== src/Pubsub/Sqs/Publisher.antt =====
-- pkg/pubsub/sqs_pub.go: NewSqsPublisher, and Publish with the look-up of its queue.
use mathlib.Core.Option
use go_statemachine.Prelude.{Text, Option, none, some, List}
use go_statemachine.Protos.{EventResponse}
use go_statemachine.Go.Result.{Result, ok, err, panic}
use go_statemachine.Pubsub.Sqs.{Queue, TextWire, publish}
use go_statemachine.Pubsub.Sqs.Subscribe.{
  Aws, get_sqs_client, Poller, Stop, returned, fatal, panicked, url_of,
}

-- The notifications are those that the channel delivers until it is closed.
pub record SqsPublisher (Conn : Type 0) : Type 0 where
  pub client : Conn
  pub notifications : List EventResponse

-- none is nil
unfoldable pub new_sqs_publisher :
    {Conn : Type 0} → Aws Conn → List EventResponse → Option Text → Option (SqsPublisher Conn)
unfolding get_sqs_client
new_sqs_publisher aws channel url =
    Option.map (λ conn. record { client = conn; notifications = channel }) (get_sqs_client aws url)

-- What a connection can do: look up a queue's URL, and send to the queue with a URL.
pub record Posting (Conn S Bytes : Type 0) : Type 0 where
  pub poller_of : Conn → Poller S
  pub queue_at : Conn → Text → Queue S
  pub responses : TextWire Bytes EventResponse

module _ {Conn S Bytes : Type 0} (posting : Posting Conn S Bytes) (s : SqsPublisher Conn) where
  abbrev pub ended : Result (Unit {0}) × S → Stop × S
  ended (ok u, q) = (returned, q)
  ended (err e, q) = (returned, q)
  ended (panic, q) = (panicked, q)

  abbrev pub publish_at : Option Text × S → Stop × S
  publish_at (none, q) = (fatal, q)
  publish_at (some url, q) =
      ended (publish (posting.queue_at s.client url) posting.responses s.notifications q)

  unfoldable pub publish_to : Text → S → Stop × S
  publish_to errors_topic q = publish_at (
      url_of (posting.poller_of s.client)
        ((posting.poller_of s.client).get_queue_url errors_topic q))
