-- ===== src/System/RoundTrips.antt =====
-- pkg/grpc/grpc_server.go over the Redis store: what one call hands in, a later call gives back.
use go_statemachine.Prelude.{
  ℕ, Text, ◌≡◌, ◌≢◌, ◌⊎◌, inl, inr, ◌∙◌, sym, ap, subst, none, some, List, [], ◌∷◌,
}
use go_statemachine.Protos.{Event, EventRequest, EventResponse, Configuration, PutResponse, config}
use go_statemachine.Go.Result.{ok, panic}
use go_statemachine.Api.Event.{update_event}
use go_statemachine.Api.Configuration.{check_valid, get_version_id}
use go_statemachine.Storage.Keys.{new_key_for_config}
use go_statemachine.Storage.Redis.{value, Laws}
use go_statemachine.Storage.RedisStore.{RedisStore, get_config}
use go_statemachine.Storage.RedisStore.Values.{Unanswered, get-Stored}
use go_statemachine.Storage.RedisStore.Tx.Calm.{IsCalm}
use go_statemachine.Storage.Manager.{redis_manager}
use go_statemachine.Grpc.Status.{reply, after_ok}
use go_statemachine.Grpc.Server.{
  GrpcSubscriber, Select, Deadline, send_event, put_configuration, get_configuration,
}
use go_statemachine.Grpc.Server.Events.{send_event-Posted, send_event-handle}
use go_statemachine.Grpc.Server.Configs.{put_configuration-reply}
use go_statemachine.Pubsub.Listener.{Scene, get_event_id, handle}
use go_statemachine.Pubsub.Listener.Redis.{redis_listener, redis_listener-Calm}
use go_statemachine.System.Answers.{Told, handle-Told}

module _ {S Bytes : Type 0} (csm : RedisStore S Bytes) (laws : Laws csm.client)
    (server : GrpcSubscriber S) (running : server.store ≡ some (redis_manager csm)) where
  -- What becomes of the request that SendEvent posted, with the listener in the state `s`: it has
  -- the identifier that the reply gives and the client's configuration, the listener does not panic,
  -- and GetEventOutcome then tells its outcome.
  pub record Delivered (request : EventRequest) (response : EventResponse)
      (posts : List EventRequest) (s : Scene S) : Type 0 where
    pub posted : EventRequest
    pub once : posts ≡ posted ∷ []
    pub named : get_event_id posted.event ≡ response.event_id
    pub same_config : posted.config ≡ request.config
    pub same_id : posted.id ≡ request.id
    pub calm : (handle (redis_listener csm) posted s).0 ≢ panic
    pub tells : Told csm server posted s

  -- If SendEvent replies, the one request that it posts has the identifier of the reply, and the
  -- id and the configuration's name of the client's; a listener over the same Redis store does not
  -- panic for it if the encodings do not; and GetEventOutcome, asked after it for the identifier
  -- and the configuration's name, replies the outcome that the verdict on the request says, unless
  -- AddEventOutcome did not return nil, or the last attempt of GET had no answer.
  pub send_event-Delivered :
      (choice : Select) (fresh : Text) (now : ℕ) (request : EventRequest) (evt : Event)
      (response : EventResponse) (s : Scene S)
      → request.event ≡ some evt
      → (send_event server choice fresh now request).0 ≡ reply response
      → IsCalm csm
      → Delivered request response (send_event server choice fresh now request).1 s
  send_event-Delivered choice fresh now request evt response s asked h calm =
      let sent_request : EventRequest = record request {
        event = some (update_event fresh now evt);
      } in
      let p = send_event-Posted server choice fresh now request response h in
      let same : p.evt ≡ evt = cc in
      let (posted, once, quiet) =
        send_event-handle server (redis_listener csm) s choice fresh now request evt response asked
          h (redis_listener-Calm csm sent_request (update_event fresh now evt) calm) in
      let is_posted : posted ≡ record request { event = some (update_event fresh now p.evt) } =
        cc in
      record {
        posted = posted;
        once = once;
        named =
            ap (λ (r : EventRequest). get_event_id r.event) is_posted
            ∙ sym (ap (λ (r : EventResponse). r.event_id) p.answers);
        same_config = ap (λ (r : EventRequest). r.config) is_posted;
        same_id = ap (λ (r : EventRequest). r.id) is_posted;
        calm = quiet;
        tells = handle-Told csm laws server running posted s quiet;
      }

  got :
      (id : Text) (c : Configuration) (t : S)
      → ((redis_manager csm).get_config id t).0 ≡ ok c
      → (get_configuration server id t).0 ≡ reply c
  unfolding get_configuration
  got id c t h = rw running (ap (λ r. r.0) (after_ok _ _ _ _ h))

  -- If PutConfiguration replies, CheckValid returned nil for the configuration, and the reply has
  -- its identifier and the configuration; and in any later state that has the same at the key of
  -- this identifier, GetConfiguration of it replies the configuration, unless the last attempt of
  -- GET had no answer.
  pub put_configuration-get_configuration :
      (before afterwards : Deadline) (c : Configuration) (w t : S) (response : PutResponse)
      → (put_configuration server before afterwards c w).0 ≡ reply response
      → csm.client.look t (new_key_for_config response.id)
        ≡ csm.client.look
            (put_configuration server before afterwards c w).1
            (new_key_for_config response.id)
      → (check_valid c ≡ none)
        × (response ≡ record { id = get_version_id c; entity_response = config c })
        × (((get_configuration server response.id t).0 ≡ reply c)
            ⊎ Unanswered csm (new_key_for_config response.id) t)
  unfolding get_config
  put_configuration-get_configuration before afterwards c w t response h kept =
      let (valid, same, (b, encoded, held)) =
        put_configuration-reply csm laws server before afterwards c w response running h in
      let id : get_version_id c ≡ response.id = ap (λ (r : PutResponse). r.id) (sym same) in
      let stored = (put_configuration server before afterwards c w).1 in
      let held' = subst (λ i. csm.client.look stored (new_key_for_config i) ≡ value b) id held in
      (
        valid,
        same,
        elim (get-Stored csm laws csm.wires.configuration (new_key_for_config response.id) c t
            (b, encoded, kept ∙ held')) [ inl e ↦ inl (got response.id c t e) | inr e ↦ inr e ],
      )
