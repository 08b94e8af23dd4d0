-- ===== src/System/Answers.antt =====
-- pkg/pubsub/listener.go and pkg/grpc/grpc_server.go: what GetEventOutcome says of an event that the
-- listener has handled, over the same Redis store.
use go_statemachine.Prelude.{Text, ◌≡◌, ◌≢◌, ◌⊎◌, inl, inr, refl, ap, none, some}
use go_statemachine.Protos.{EventRequest, StatusCode}
use go_statemachine.Go.Result.{Result, ok, err, panic}
use go_statemachine.Storage.Keys.{new_key_for_outcome}
use go_statemachine.Storage.Redis.{Laws}
use go_statemachine.Storage.RedisStore.{
  RedisStore, add_event_outcome, get_outcome_for_event, never_expire,
}
use go_statemachine.Storage.RedisStore.Values.{Unanswered, get-put}
use go_statemachine.Storage.Manager.{redis_manager}
use go_statemachine.Grpc.Status.{reply, after_ok}
use go_statemachine.Grpc.Server.{GrpcSubscriber, get_event_outcome}
use go_statemachine.Pubsub.Listener.{Scene, get_event_id, handle}
use go_statemachine.Pubsub.Listener.Verdicts.{Verdict}
use go_statemachine.Pubsub.Listener.Outcomes.{outcome_of, response_of, handle-Handled}
use go_statemachine.Pubsub.Listener.Redis.{redis_listener}

-- The question for the outcome of a request.
abbrev pub question : EventRequest → EventRequest
question request = record { event = none; config = request.config; id = get_event_id request.event }

module _ {S Bytes : Type 0} (csm : RedisStore S Bytes) where
  abbrev pub add_outcome : EventRequest → StatusCode → Text → S → Result (Unit {0}) × S
  add_outcome request code details =
      add_event_outcome csm (get_event_id request.event) request.config
        (some (outcome_of request code details)) never_expire

  -- What GetEventOutcome says in the state `t` of an outcome that was added to the state `w`: the
  -- outcome, unless AddEventOutcome did not return nil, or the last attempt of get had no answer.
  pub data Answer (server : GrpcSubscriber S) (request : EventRequest) (code : StatusCode)
      (details : Text) (w t : S) : Type 0 where
    not_added :
        (add_outcome request code details w).0 ≢ ok tt → Answer server request code details w t
    answers :
        (get_event_outcome server (question request) t).0 ≡ reply (response_of request code details)
        → Answer server request code details w t
    no_answer :
        Unanswered csm (new_key_for_outcome (get_event_id request.event) request.config) t
        → Answer server request code details w t

  -- The outcome that the listener has found for a request, and the answer to a client who asks.
  pub record Told (server : GrpcSubscriber S) (request : EventRequest) (s : Scene S) : Type 0 where
    pub code : StatusCode
    pub details : Text
    pub world : S
    pub verdict : Verdict (redis_listener csm) request s.world code details world
    pub answer :
        Answer server request code details world (handle (redis_listener csm) request s).1.world

  is_added : (r : Result (Unit {0}) × S) → (r.0 ≡ ok tt) ⊎ (r.0 ≢ ok tt)
  is_added (ok u, w) = inl refl
  is_added (err e, w) = inr (λ h. cc)
  is_added (panic, w) = inr (λ h. cc)

  module _ (laws : Laws csm.client) (server : GrpcSubscriber S)
      (running : server.store ≡ some (redis_manager csm)) where
    found-answers :
        (request : EventRequest) (code : StatusCode) (details : Text) (t : S)
        → ((redis_manager csm).get_outcome_for_event
            (get_event_id request.event)
            request.config
            t).0
          ≡ ok (outcome_of request code details)
        → (get_event_outcome server (question request) t).0
          ≡ reply (response_of request code details)
    unfolding get_event_outcome
    found-answers request code details t h = rw running (ap (λ r. r.0) (after_ok _ _ _ _ h))

    -- If a round of ListenForMessages over the Redis store does not panic, GetEventOutcome of the
    -- gRPC server over the same store, asked after it for the event and its configuration's name,
    -- replies the outcome that the verdict on the request says, unless AddEventOutcome did not
    -- return nil, or the last attempt of GET had no answer.
    pub handle-Told :
        (request : EventRequest) (s : Scene S)
        → (handle (redis_listener csm) request s).0 ≢ panic
        → Told server request s
    unfolding add_event_outcome get_outcome_for_event
    handle-Told request s n =
        let handled = handle-Handled (redis_listener csm) request s n in
        let after_handle = (handle (redis_listener csm) request s).1.world in
        let put = add_outcome request handled.code handled.details handled.world in
        let same : after_handle ≡ put.1 = handled.reports in
        record {
          code = handled.code;
          details = handled.details;
          world = handled.world;
          verdict = handled.verdict;
          answer = elim (is_added put) [
            | inr lost ↦ not_added lost
            | inl added ↦
                elim (get-put csm laws csm.wires.outcome
                  (new_key_for_outcome (get_event_id request.event) request.config)
                  (outcome_of request handled.code handled.details) handled.world after_handle added
                  (ap
                    (λ w.
                      csm.client.look w
                        (new_key_for_outcome (get_event_id request.event) request.config))
                    same)) [
                      | inl e ↦
                          answers
                            (found-answers request handled.code handled.details after_handle e)
                      | inr e ↦ no_answer e
                    ]
          ];
        }
