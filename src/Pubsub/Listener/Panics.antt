-- ===== src/Pubsub/Listener/Panics.antt =====
-- pkg/pubsub/listener.go: when a round of ListenForMessages panics.
use go_statemachine.Prelude.{
  Text, text, ◌≡◌, ◌≢◌, ◌↔◌, inl, inr, refl, none, some, [], ◌++◌, arith, eq_iff, Option-cases,
}
use go_statemachine.Protos.{
  Event, EventRequest, EventResponse, StatusCode, success, missing_destination, internal_error,
}
use go_statemachine.Go.Result.{Result, ok, err, panic}
use go_statemachine.Storage.RedisStore.{never_expire}
use go_statemachine.Pubsub.Listener.{
  EventsListener, Scene, make_response, report_outcome, post, post_notification_and_report_outcome,
  update_error, error_code, process, handle, logged,
}
use go_statemachine.Pubsub.Listener.Verdicts.{well, badly, panics, Ended-cases}

module _ {S : Type 0} (listener : EventsListener S) where
  -- No call of the store that the listener makes for the request panics.
  pub record Calm (request : EventRequest) (evt : Event) : Type 0 where
    pub calm_put :
        (w : S) → (listener.store.put_event request.event request.config never_expire w).0 ≢ panic
    pub calm_tx :
        (w : S)
        → evt.transition ≢ none
        → (listener.store.tx_process_event request.id request.config evt w).0 ≢ panic
    pub calm_outcome :
        (response : EventResponse) (w : S)
        → (listener.store.add_event_outcome response.event_id request.config response.outcome
            never_expire w).0
          ≢ panic

  logged_calm :
      (r : Result (Unit {0}) × S) (s : Scene S) → r.0 ≢ panic → (logged listener r s).0 ≢ panic
  logged_calm (ok u, w) s n h = cc
  logged_calm (err e, w) s n h = cc
  logged_calm (panic, w) s n h = n refl

  report_without_panic :
      (request : EventRequest) (evt : Event)
      → Calm request evt
      → (code : StatusCode) (details : Text) (s : Scene S)
      → (report_outcome listener (make_response request code details) s).0 ≢ panic
  unfolding report_outcome make_response
  report_without_panic request evt k code details s =
      logged_calm _ s (k.calm_outcome (make_response request code details) s.world)

  notice_without_panic :
      (request : EventRequest) (evt : Event)
      → Calm request evt
      → (code : StatusCode) (details : Text) (s : Scene S)
      → (post_notification_and_report_outcome listener (make_response request code details) s).0
        ≢ panic
  unfolding post_notification_and_report_outcome make_response report_outcome
  notice_without_panic request evt k code details s =
      report_without_panic request evt k code details
        (post listener (make_response request code details) s)

  process_panics :
      (request : EventRequest) (evt : Event) (s : Scene S)
      → Calm request evt
      → (process listener request (some evt) s).0 ≡ panic
      → evt.transition ≡ none
  unfolding process
  process_panics request evt s k h = elim (Option-cases evt.transition) [
    | inl e ↦ e
    | inr (t, e) ↦
        elim (Ended-cases (listener.store.tx_process_event request.id request.config evt s.world)) [
          | well w p ↦
              ground (arith, report_without_panic request evt k success [] (record s { world = w }))
          | badly x w p ↦ ground (
            arith,
            notice_without_panic request evt k (error_code x) (update_error request x)
                (record s { world = w }),
          )
          | panics w p ↦ absurd (k.calm_tx s.world (λ z. cc) (ground arith))
        ]
  ]

  -- If the calls of the store do not panic, a round panics for a request with an event exactly if
  -- the request has an id and a configuration name, the event has no transition and PutEvent
  -- returned nil.
  pub handle_panics_iff :
      (request : EventRequest) (evt : Event) (s : Scene S)
      → request.event ≡ some evt
      → Calm request evt
      → ((handle listener request s).0 ≡ panic) ↔ (
          (request.id ≢ [])
          × (request.config ≢ [])
          × (evt.transition ≡ none)
          × ((listener.store.put_event request.event request.config never_expire s.world).0
              ≡ ok tt))
  unfolding handle process post_notification_and_report_outcome
  handle_panics_iff request evt s g k =
      (only, λ h. ground (arith, eq_iff request.id [], eq_iff request.config []))
    where
      only :
          (handle listener request s).0 ≡ panic
          → (request.id ≢ [])
            × (request.config ≢ [])
            × (evt.transition ≡ none)
            × ((listener.store.put_event request.event request.config never_expire s.world).0
                ≡ ok tt)
      only h =
          elim (Ended-cases
            (listener.store.put_event request.event request.config never_expire s.world)) [
              | well w p ↦ ground (
                arith,
                eq_iff request.id [],
                eq_iff request.config [],
                notice_without_panic request evt k missing_destination
                    (text "no statemachine ID specified") s,
                notice_without_panic request evt k missing_destination
                    (text "no Configuration name specified") s,
                process_panics request evt (record s { world = w }) k,
              )
              | badly x w p ↦ ground (
                arith,
                eq_iff request.id [],
                eq_iff request.config [],
                notice_without_panic request evt k missing_destination
                    (text "no statemachine ID specified") s,
                notice_without_panic request evt k missing_destination
                    (text "no Configuration name specified") s,
                notice_without_panic request evt k internal_error
                    (text "could not store event: " ++ x) (record s { world = w }),
              )
              | panics w p ↦ absurd (k.calm_put s.world (ground arith))
            ]
