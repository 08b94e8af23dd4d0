-- ===== src/System/Queued.antt =====
-- pkg/pubsub/sqs_sub.go with pkg/pubsub/sqs_pub.go, MarshalToText, the listener and the gRPC server: an
-- event that comes through the queue.
use go_statemachine.Prelude.{ℕ, Text, ◌≡◌, ◌≢◌, ◌∙◌, sym, ap, refl, some}
use go_statemachine.Protos.{Event, EventRequest}
use go_statemachine.Go.Result.{Result, ok, err, panic, ◌>>=◌}
use go_statemachine.Api.Event.{update_event}
use go_statemachine.Storage.Redis.{Laws}
use go_statemachine.Storage.RedisStore.{RedisStore}
use go_statemachine.Storage.Manager.{redis_manager}
use go_statemachine.Grpc.Server.{GrpcSubscriber}
use go_statemachine.Pubsub.Listener.{Scene, handle}
use go_statemachine.Pubsub.Listener.Redis.{redis_listener}
use go_statemachine.Pubsub.Sqs.{TextWire, marshal_to_text, unmarshal_from_text}
use go_statemachine.System.Answers.{Told}

-- Base64 decodes what it encoded, and Protobuf does.
pub record IsFaithful {Bytes A : Type 0} (w : TextWire Bytes A) : Type 0 where
  pub decode-encode : (b : Bytes) → w.decode_string (w.encode_to_string b) ≡ ok b
  pub unmarshal-marshal : (a : A) (b : Bytes) → w.marshal a ≡ ok b → w.unmarshal b ≡ ok a

module _ {Bytes A : Type 0} (w : TextWire Bytes A) (faithful : IsFaithful w) where
  by_bytes :
      (a : A) (s : Text) (r : Result Bytes)
      → w.marshal a ≡ r
      → (r >>= λ b. ok (w.encode_to_string b)) ≡ ok s
      → unmarshal_from_text w s ≡ ok a
  by_bytes a s (ok b) m h =
      let same : w.encode_to_string b ≡ s = cc in
      ap (λ t. unmarshal_from_text w t) (sym same)
      ∙ ap (λ (r : Result Bytes). r >>= w.unmarshal) (faithful.decode-encode b)
      ∙ faithful.unmarshal-marshal a b m
  by_bytes a s (err e) m h = cc
  by_bytes a s panic m h = cc

  -- UnmarshalFromText of what MarshalToText has made gives the message back.
  pub unmarshal_from_text-marshal_to_text :
      (a : A) (s : Text) → marshal_to_text w a ≡ ok s → unmarshal_from_text w s ≡ ok a
  unmarshal_from_text-marshal_to_text a s h = by_bytes a s (w.marshal a) refl h

-- The request, as it is posted.
abbrev pub completed : Text → ℕ → EventRequest → Event → EventRequest
completed fresh now request evt = record request { event = some (update_event fresh now evt) }

module _ {S Blob : Type 0} (csm : RedisStore S Blob) (laws : Laws csm.client)
    (server : GrpcSubscriber S) (running : server.store ≡ some (redis_manager csm)) where
  -- The listener does not panic for the request, and GetEventOutcome then tells its outcome.
  pub record Processed (request : EventRequest) (s : Scene S) : Type 0 where
    pub calm : (handle (redis_listener csm) request s).0 ≢ panic
    pub tells : Told csm server request s
