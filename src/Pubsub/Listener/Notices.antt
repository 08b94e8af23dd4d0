-- ===== src/Pubsub/Listener/Notices.antt =====
-- pkg/pubsub/listener.go, ListenForMessages: what it posts on the notifications channel.
use go_statemachine.Prelude.{
  Text, text, ◌≡◌, ◌≢◌, ◌⊎◌, inl, inr, refl, ◌∙◌, sym, ap, subst, Option, some, none, List, [], ◌∷◌,
  ◌++◌, arith, ◌==◌, Bool-cases, Option-cases,
}
use mathlib.Core.List.{append-nil, append_assoc}
use go_statemachine.Protos.{
  Event, EventRequest, EventResponse, StatusCode, success, missing_destination, internal_error,
}
use go_statemachine.Go.Result.{Result, ok, err, panic}
use go_statemachine.Go.Action.{continue}
use go_statemachine.Storage.RedisStore.{never_expire}
use go_statemachine.Pubsub.Listener.Verdicts.{error_code_ne, well, badly, panics, Ended-cases}
use go_statemachine.Pubsub.Listener.{
  EventsListener, Scene, make_response, report_outcome, post, post_notification_and_report_outcome,
  process, error_code, update_error, handle, listen_for_messages, logged,
}

module _ {S : Type 0} (listener : EventsListener S) where
  -- The notifications are answers to some of the requests, in their order, none of them a success.
  pub data Notices : List EventRequest → List EventResponse → Type 0 where
    stop : Notices [] []
    quiet :
        (request : EventRequest) {requests : List EventRequest} {new : List EventResponse}
        → Notices requests new
        → Notices (request ∷ requests) new
    noticed :
        (request : EventRequest) (code : StatusCode) (details : Text) {requests : List EventRequest}
        {new : List EventResponse}
        → code ≢ success
        → Notices requests new
        → Notices (request ∷ requests) (make_response request code details ∷ new)

  logged-posted :
      (r : Result (Unit {0}) × S) (s : Scene S) → (logged listener r s).1.posted ≡ s.posted
  logged-posted (ok u, w) s = refl
  logged-posted (err e, w) s = refl
  logged-posted (panic, w) s = refl

  pub report-posted :
      (response : EventResponse) (s : Scene S)
      → (report_outcome listener response s).1.posted ≡ s.posted
  unfolding report_outcome
  report-posted response s = logged-posted _ s

  -- What one round adds to the notifications: at most one, which is no success.
  Adds : EventRequest → List EventResponse → List EventResponse → Type 0
  Adds request before after =
      (after ≡ before)
      ⊎ ((code : StatusCode) × (details : Text) × (code ≢ success)
          × (after ≡ before ++ make_response request code details ∷ []))

  post-Adds :
      (request : EventRequest) (code : StatusCode) (details : Text) (s : Scene S)
      → code ≢ success
      → Adds request s.posted
          (post_notification_and_report_outcome listener
            (make_response request code details)
            s).1.posted
  unfolding Adds post_notification_and_report_outcome make_response
  post-Adds request code details s n =
      let response = make_response request code details in
      elim (Bool-cases listener.notifies) [
        | inl h ↦
            inr (code, details, n, report-posted response (post listener response s) ∙ ground arith)
        | inr h ↦ inl (report-posted response (post listener response s) ∙ ground arith)
      ]

  process-Adds :
      (request : EventRequest) (o : Option Event) (s : Scene S)
      → Adds request s.posted (process listener request o s).1.posted
  unfolding Adds process
  process-Adds request none s = inl refl
  process-Adds request (some evt) s = elim (Option-cases evt.transition) [
    | inl e ↦ inl (ground arith)
    | inr (t, e) ↦
        elim (Ended-cases (listener.store.tx_process_event request.id request.config evt s.world)) [
          | well w p ↦ inl (
              ground
                (arith, report-posted (make_response request success []) (record s { world = w })))
          | badly x w p ↦ subst (Adds request s.posted) (sym (ground arith)) (
              post-Adds request (error_code x) (update_error request x) (record s { world = w })
                (error_code_ne x))
          | panics w p ↦ inl (ground arith)
        ]
  ]

  handle-Adds :
      (request : EventRequest) (s : Scene S)
      → Adds request s.posted (handle listener request s).1.posted
  unfolding handle Adds
  handle-Adds request s =
      let posts = post-Adds request in
      elim (Bool-cases (request.id == [])) [
        | inl p ↦
            subst (Adds request s.posted) (sym (ground arith))
              (posts missing_destination (text "no statemachine ID specified") s (λ e. cc))
        | inr p ↦ elim (Bool-cases (request.config == [])) [
          | inl q ↦
              subst (Adds request s.posted) (sym (ground arith))
                (posts missing_destination (text "no Configuration name specified") s (λ e. cc))
          | inr q ↦
              elim (Ended-cases
                (listener.store.put_event request.event request.config never_expire s.world)) [
                  | well w e ↦
                      subst (Adds request s.posted) (sym (ground arith))
                        (process-Adds request request.event (record s { world = w }))
                  | badly x w e ↦ subst (Adds request s.posted) (sym (ground arith)) (
                      posts internal_error (text "could not store event: " ++ x)
                        (record s { world = w }) (λ e. cc))
                  | panics w e ↦ subst (Adds request s.posted) (sym (ground arith)) (inl refl)
                ]
        ]
      ]

  nothing : (requests : List EventRequest) → Notices requests []
  nothing [] = stop
  nothing (request ∷ requests) = quiet request (nothing requests)

  add_notice :
      (request : EventRequest) (requests : List EventRequest)
      (before middle after : List EventResponse)
      → Adds request before middle
      → ((new : List EventResponse) × Notices requests new × (after ≡ middle ++ new))
      → ((new : List EventResponse) × Notices (request ∷ requests) new × (after ≡ before ++ new))
  unfolding Adds
  add_notice request requests before middle after (inl e) (new, n, h) =
      (new, quiet request n, ground arith)
  add_notice request requests before middle after (inr (code, details, c, e)) (new, n, h) = (
    make_response request code details ∷ new,
    noticed request code details c n,
    h ∙ ap (λ x. x ++ new) e ∙ append_assoc before _ new,
  )

  -- What is posted, for any requests and even if the loop panics, answers some of the requests, in
  -- their order and at most once each, and never with a success.
  pub listen-Notices :
      (requests : List EventRequest) (s : Scene S)
      → (new : List EventResponse) × Notices requests new
        × ((listen_for_messages listener requests s).1.posted ≡ s.posted ++ new)
  unfolding listen_for_messages
  listen-Notices [] s = ([], stop, sym (append-nil s.posted))
  listen-Notices (request ∷ requests) s =
      add_notice request requests s.posted (handle listener request s).1.posted _
        (handle-Adds request s) (further (listen-Notices requests) (handle listener request s))
    where
      Rest : Scene S → Scene S → Type 0
      Rest t after =
          (new : List EventResponse) × Notices requests new × (after.posted ≡ t.posted ++ new)

      further :
          ((t : Scene S) → Rest t (listen_for_messages listener requests t).1)
          → (r : Result (Unit {0}) × Scene S)
          → Rest r.1 (continue (λ u. listen_for_messages listener requests) r).1
      further later (ok u, t) = later t
      further later (err e, t) = ([], nothing requests, sym (append-nil t.posted))
      further later (panic, t) = ([], nothing requests, sym (append-nil t.posted))
