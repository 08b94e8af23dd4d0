-- ===== src/Pubsub/Sqs.antt =====
-- pkg/pubsub/sqs_sub.go and sqs_pub.go: what becomes of one message of the queue, and of the
-- notifications. The SQS client and the encodings of the message's body are parameters.
pub mod Messages
pub mod Notifications
pub mod Subscribe
pub mod Publisher
use go_statemachine.Prelude.{
  ℕ, zero, suc, Text, Bool, true, false, Option, none, some, List, [], ◌∷◌, ◌++◌, ◌==◌,
  if◌then◌else◌,
}
use go_statemachine.Protos.{
  Event, EventOutcome, EventRequest, EventResponse, StatusCode, success, missing_destination,
  fsm_not_found, internal_error,
}
use go_statemachine.Go.Result.{Error, Result, ok, err, panic, ◌>>=◌}
use go_statemachine.Go.Action.{Action}
use go_statemachine.Api.Event.{update_event}

-- sqs.Message, with a message id, which SQS always gives.
pub record Message : Type 0 where
  pub body : Option Text
  pub receipt_handle : Text

-- What the code calls of the SQS client; `S` is the state of the queues.
pub record Queue (S : Type 0) : Type 0 where
  pub delete_message : Text → S → Result (Unit {0}) × S
  pub send_message : Text → S → Result (Unit {0}) × S

-- Package encoding/base64 and the Protobuf encoding of one kind of message.
pub record TextWire (Bytes A : Type 0) : Type 0 where
  pub encode_to_string : Bytes → Text
  pub decode_string : Text → Result Bytes
  pub marshal : A → Result Bytes
  pub unmarshal : Bytes → Result A

module _ {Bytes A : Type 0} (w : TextWire Bytes A) where
  abbrev pub marshal_to_text : A → Result Text
  marshal_to_text msg = w.marshal msg >>= λ bytes. ok (w.encode_to_string bytes)

  abbrev pub unmarshal_from_text : Text → Result A
  unmarshal_from_text s = w.decode_string s >>= w.unmarshal

-- SqsSubscriber; MessageRemoveRetries is the number of rounds, none for a negative one.
pub record SqsSubscriber (S Bytes : Type 0) : Type 0 where
  pub client : Queue S
  pub requests : TextWire Bytes EventRequest
  pub message_remove_retries : ℕ

-- The state of the queues, and what was posted on the events channel.
pub record Box (S : Type 0) : Type 0 where
  pub queues : S
  pub events : List EventRequest

module _ {S Bytes : Type 0} (s : SqsSubscriber S Bytes) where
  -- One round of the removal; `again` is the rest of the loop.
  abbrev pub after_delete :
      (S → Result (Unit {0}) × S) → Result (Unit {0}) × S → Result (Unit {0}) × S
  after_delete again (ok u, q) = (ok tt, q)
  after_delete again (err e, q) = again q
  after_delete again (panic, q) = (panic, q)

  unfoldable pub remove : Text → ℕ → S → Result (Unit {0}) × S
  remove receipt zero q = (ok tt, q)
  remove receipt (suc left) q =
      after_delete (remove receipt left) (s.client.delete_message receipt q)

  abbrev pub boxed : List EventRequest → Result (Unit {0}) × S → Result (Unit {0}) × Box S
  boxed events (r, q) = (r, record { queues = q; events = events })

  -- UpdateEvent, which panics for nil, the post and the removal.
  abbrev pub take : Text → ℕ → Text → EventRequest → Box S → Result (Unit {0}) × Box S
  take fresh now receipt request box = elim request.event [
    | none ↦ (panic, box)
    | some evt ↦
        boxed (box.events ++ record request { event = some (update_event fresh now evt) } ∷ [])
          (remove receipt s.message_remove_retries box.queues)
  ]

  abbrev pub decoded : Text → ℕ → Text → Result EventRequest → Box S → Result (Unit {0}) × Box S
  decoded fresh now receipt (ok request) box =
      if request.id == [] then (ok tt, box) else take fresh now receipt request box
  decoded fresh now receipt (err e) box = (ok tt, box)
  decoded fresh now receipt panic box = (panic, box)

  unfoldable pub process_message : Text → ℕ → Message → Action (Box S) (Unit {0})
  process_message fresh now msg box = elim msg.body [
    | none ↦ (ok tt, box)
    | some body ↦ decoded fresh now msg.receipt_handle (unmarshal_from_text s.requests body) box
  ]

abbrev pub is_success : StatusCode → Bool
is_success success = true
is_success missing_destination = false
is_success fsm_not_found = false
is_success internal_error = false

abbrev is_ok_outcome : Option EventOutcome → Bool
is_ok_outcome none = false
is_ok_outcome (some o) = is_success o.code

module _ {S Bytes : Type 0} (client : Queue S) (w : TextWire Bytes EventResponse) where
  -- What follows the marshalling and the sending of one notification: errors are logged.
  abbrev pub sent : (S → Result (Unit {0}) × S) → Result (Unit {0}) × S → Result (Unit {0}) × S
  sent next (ok u, q) = next q
  sent next (err e, q) = next q
  sent next (panic, q) = (panic, q)

  abbrev pub marshalled : (S → Result (Unit {0}) × S) → Result Text → S → Result (Unit {0}) × S
  marshalled next (ok body) q = sent next (client.send_message body q)
  marshalled next (err e) q = next q
  marshalled next panic q = (panic, q)

  -- The loop of Publish.
  unfoldable pub publish : List EventResponse → S → Result (Unit {0}) × S
  publish [] q = (ok tt, q)
  publish (response ∷ responses) q =
      let rest = publish responses in
      if is_ok_outcome response.outcome
      then rest q
      else marshalled rest (marshal_to_text w response) q
