-- ===== src/Grpc/Server/Events.antt =====
-- pkg/grpc/grpc_server.go, SendEvent: what it hands to the listener.
use go_statemachine.Prelude.{
  ℕ, Text, ◌≡◌, ◌≢◌, refl, ◌∙◌, ap, Option-cases, inl, inr, none, some, List, [], ◌∷◌, arith,
  eq_iff,
}
use go_statemachine.Protos.{Event, EventRequest, EventResponse}
use go_statemachine.Go.Result.{panic}
use go_statemachine.Api.Event.{update_event}
use go_statemachine.Grpc.Status.{reply}
use go_statemachine.Grpc.Server.{GrpcSubscriber, Select, sent, timed_out, event_name, send_event}
use go_statemachine.Pubsub.Listener.{EventsListener, Scene, handle}
use go_statemachine.Pubsub.Listener.Panics.{Calm, handle_panics_iff}

module _ {S : Type 0} (s : GrpcSubscriber S) where
  -- The one request that was posted: the client's, its event completed and not without a name.
  pub record Posted (fresh : Text) (now : ℕ) (request : EventRequest) (response : EventResponse)
      (posted : List EventRequest) : Type 0 where
    pub evt : Event
    pub asked : request.event ≡ some evt
    pub has_id : request.id ≢ []
    pub has_name : event_name evt ≢ []
    pub answers :
        response ≡ record { event_id = (update_event fresh now evt).event_id; outcome = none }
    pub delivers : posted ≡ record request { event = some (update_event fresh now evt) } ∷ []

  -- If SendEvent replies, the request has an id and an event with a name, the request that was
  -- posted is the client's with its event completed, and the reply has the identifier of this
  -- event.
  pub send_event-Posted :
      (choice : Select) (fresh : Text) (now : ℕ) (request : EventRequest) (response : EventResponse)
      → (send_event s choice fresh now request).0 ≡ reply response
      → Posted fresh now request response (send_event s choice fresh now request).1
  unfolding send_event
  send_event-Posted sent fresh now request response h = elim (Option-cases request.event) [
    | inl e ↦ absurd (ground arith)
    | inr (evt, e) ↦ record {
      evt = evt;
      asked = e;
      has_id = λ p. ground (arith, eq_iff request.id []);
      has_name = λ p. ground (arith, eq_iff (event_name evt) []);
      answers = ground arith;
      delivers = ground arith;
    }
  ]
  send_event-Posted timed_out fresh now request response h = elim (Option-cases request.event) [
    | inl e ↦ absurd (ground arith)
    | inr (evt, e) ↦ absurd (ground arith)
  ]

  nameless : (evt : Event) → evt.transition ≡ none → event_name evt ≡ []
  nameless evt e = ground arith

  -- If SendEvent replies, it has posted one request, and no listener panics for this request, if the
  -- calls of its store do not.
  pub send_event-handle :
      {T : Type 0} (listener : EventsListener T) (scene : Scene T) (choice : Select) (fresh : Text)
      (now : ℕ) (request : EventRequest) (evt : Event) (response : EventResponse)
      → request.event ≡ some evt
      → (send_event s choice fresh now request).0 ≡ reply response
      → Calm listener
          (record request { event = some (update_event fresh now evt) })
          (update_event fresh now evt)
      → (posted : EventRequest) × ((send_event s choice fresh now request).1 ≡ posted ∷ [])
        × ((handle listener posted scene).0 ≢ panic)
  unfolding update_event
  send_event-handle listener scene choice fresh now request evt response asked h k =
      let p = send_event-Posted choice fresh now request response h in
      let same : p.evt ≡ evt = cc in
      let sent_request = record request { event = some (update_event fresh now evt) } in
      (
        sent_request,
        p.delivers ∙ ap (λ e. record request { event = some (update_event fresh now e) } ∷ []) same,
        λ crashes.
            let (i, c, bare, put) =
              (handle_panics_iff listener sent_request (update_event fresh now evt) scene refl k).0
                crashes in
            p.has_name (nameless p.evt (ap (λ e. e.transition) same ∙ bare)),
      )
