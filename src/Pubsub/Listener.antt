-- ===== src/Pubsub/Listener.antt =====
-- pkg/pubsub/listener.go: EventsListener. The channel of events is the list of the requests that it
-- delivers until it is closed; what is posted on the notifications channel, if there is one, is a
-- list too.
pub mod Verdicts
pub mod Outcomes
pub mod Panics
pub mod Notices
pub mod Redis
use go_statemachine.Prelude.{
  Text, text, Bool, true, false, Option, none, some, List, [], ◌∷◌, ◌++◌, ◌==◌, if◌then◌else◌,
}
use go_statemachine.Protos.{
  Transition, Event, EventOutcome, EventRequest, EventResponse, StatusCode, success,
  missing_destination, fsm_not_found, internal_error,
}
use go_statemachine.Go.Result.{Error, Result, ok, err, panic}
use go_statemachine.Go.Action.{Action, ◌>>=◌, ◌>>◌}
use go_statemachine.Storage.Errors.{is_not_found_err}
use go_statemachine.Storage.RedisStore.{never_expire}
use go_statemachine.Storage.Manager.{StoreManager}

pub record EventsListener (S : Type 0) : Type 0 where
  pub store : StoreManager S
  -- notifications != nil
  pub notifies : Bool

-- ListenerOptions, without the size of a pool that is never made; the events channel is left out.
pub record ListenerOptions (S : Type 0) : Type 0 where
  -- NotificationsChannel != nil
  pub notifications_channel : Bool
  pub statemachines_store : StoreManager S

abbrev pub new_events_listener : {S : Type 0} → ListenerOptions S → EventsListener S
new_events_listener options = record {
  store = options.statemachines_store;
  notifies = options.notifications_channel;
}

-- What the listener works on: the store's state, and what it has posted.
pub record Scene (S : Type 0) : Type 0 where
  pub world : S
  pub posted : List EventResponse

-- request.GetEvent().GetEventId(): empty for a nil event
abbrev pub get_event_id : Option Event → Text
get_event_id none = []
get_event_id (some evt) = evt.event_id

unfoldable pub make_response : EventRequest → StatusCode → Text → EventResponse
make_response request code details = record {
  event_id = get_event_id request.event;
  outcome =
      some (record { code = code; details = details; config = request.config; id = request.id });
}

-- GetOutcome().GetConfig()
abbrev outcome_config : Option EventOutcome → Text
outcome_config none = []
outcome_config (some o) = o.config

abbrev pub update_error : EventRequest → Error → Text
update_error request e =
    text "could not update statemachine ["
    ++ request.config
    ++ text "#"
    ++ request.id
    ++ text "] in store: "
    ++ e

abbrev pub error_code : Error → StatusCode
error_code e = if is_not_found_err e then fsm_not_found else internal_error

module _ {S : Type 0} (listener : EventsListener S) where
  -- An error is only logged.
  abbrev pub logged : Result (Unit {0}) × S → Scene S → Result (Unit {0}) × Scene S
  logged (ok u, w) s = (ok tt, record s { world = w })
  logged (err e, w) s = (ok tt, record s { world = w })
  logged (panic, w) s = (panic, record s { world = w })

  unfoldable pub report_outcome : EventResponse → Action (Scene S) (Unit {0})
  report_outcome response s =
      logged
        (listener.store.add_event_outcome response.event_id (outcome_config response.outcome)
          response.outcome never_expire s.world)
        s

  abbrev pub post : EventResponse → Scene S → Scene S
  post response s = if listener.notifies then record s { posted = s.posted ++ response ∷ [] } else s

  -- The log line reads eventResponse.Outcome.Code, a panic for a nil outcome.
  unfoldable pub post_notification_and_report_outcome : EventResponse → Action (Scene S) (Unit {0})
  post_notification_and_report_outcome response s = elim response.outcome [
    | none ↦ (panic, s)
    | some o ↦ report_outcome response (post response s)
  ]

  -- A call of the store within the loop, and what follows it for nil and for an error.
  abbrev pub checked :
      (Scene S → Result (Unit {0}) × Scene S)
      → (Error → Scene S → Result (Unit {0}) × Scene S)
      → Result (Unit {0}) × S
      → Scene S
      → Result (Unit {0}) × Scene S
  checked next failed (ok u, w) s = next (record s { world = w })
  checked next failed (err e, w) s = failed e (record s { world = w })
  checked next failed (panic, w) s = (panic, record s { world = w })

  -- What follows a PutEvent that returns nil. The log line reads request.Event.Transition.Event.
  unfoldable pub process : EventRequest → Option Event → Action (Scene S) (Unit {0})
  process request none s = (panic, s)
  process request (some evt) s = elim evt.transition [
    | none ↦ (panic, s)
    | some t ↦
        checked (report_outcome (make_response request success []))
          (λ e.
            post_notification_and_report_outcome
              (make_response request (error_code e) (update_error request e)))
          (listener.store.tx_process_event request.id request.config evt s.world) s
  ]

  -- One round of the loop of ListenForMessages.
  unfoldable pub handle : EventRequest → Action (Scene S) (Unit {0})
  handle request s =
      if request.id == []
      then post_notification_and_report_outcome
          (make_response request missing_destination (text "no statemachine ID specified")) s
      else if request.config == []
      then post_notification_and_report_outcome
          (make_response request missing_destination (text "no Configuration name specified")) s
      else checked (process request request.event)
          (λ e.
            post_notification_and_report_outcome
              (make_response request internal_error (text "could not store event: " ++ e)))
          (listener.store.put_event request.event request.config never_expire s.world) s

  unfoldable pub listen_for_messages : List EventRequest → Action (Scene S) (Unit {0})
  listen_for_messages [] s = (ok tt, s)
  listen_for_messages (request ∷ requests) s = (handle request >> listen_for_messages requests) s
