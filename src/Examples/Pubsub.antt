-- ===== src/Examples/Pubsub.antt =====
-- The theorems on pkg/pubsub, over the store in memory.
use go_statemachine.Prelude.{
  Text, text, ◌≡◌, ◌≢◌, ◌↔◌, refl, sym, ◌∙◌, Option, none, some, List, [], ◌∷◌, ◌++◌, ◌==◌, arith,
}
use go_statemachine.Protos.{
  EventOutcome, Event, EventRequest, EventResponse, StatusCode, missing_destination, fsm_not_found,
  internal_error,
}
use go_statemachine.Go.Result.{Result, ok, panic}
use go_statemachine.Go.Strings.{split}
use go_statemachine.Api.Machine.{send_event, find_transition}
use go_statemachine.Storage.Keys.{
  new_key_for_config, new_key_for_machine, new_key_for_machines_by_state, new_key_for_event,
  new_key_for_outcome,
}
use go_statemachine.Storage.Keys.Laws.{IsPlain}
use go_statemachine.Storage.Errors.{is_not_found_err}
use go_statemachine.Storage.Redis.{contains}
use go_statemachine.Storage.Redis.Memory.{Server, memory, memory-Laws}
use go_statemachine.Storage.RedisStore.{
  get_loop, put_loop, get_config, get_state_machine, update_state, put_event, add_event_outcome,
  never_expire,
}
use go_statemachine.Storage.RedisStore.Values.{put_calm}
use go_statemachine.Storage.RedisStore.Tx.{pipelined, txf, watch_txf, tx_rounds}
use go_statemachine.Pubsub.Listener.{
  EventsListener, Scene, make_response, report_outcome, post_notification_and_report_outcome,
  process, handle, listen_for_messages,
}
use go_statemachine.Pubsub.Listener.Outcomes.{Handled, handle-Handled}
use go_statemachine.Pubsub.Listener.Panics.{Calm, handle_panics_iff}
use go_statemachine.Pubsub.Listener.Notices.{Notices, listen-Notices}
use go_statemachine.Pubsub.Listener.Redis.{redis_listener, Succeeded, quiet-Succeeded}
use go_statemachine.Examples.Orders.{event_of, wires, Blob, store, server}

runs : Unit {0}
unfolding memory contains get_loop put_loop get_config get_state_machine update_state put_event
    add_event_outcome send_event find_transition pipelined txf watch_txf tx_rounds split
    new_key_for_config new_key_for_machine new_key_for_machines_by_state new_key_for_event
    new_key_for_outcome ◌==◌ make_response report_outcome post_notification_and_report_outcome
    process handle listen_for_messages
runs = tt

abbrev listener : EventsListener (Server Blob)
listener = redis_listener store

abbrev ask : Text → Text → EventRequest
ask id event = record { event = some (event_of event); config = text "orders"; id = id }

abbrev ship : EventRequest
ship = ask (text "o1") (text "ship")

abbrev refused : EventRequest
refused = ask (text "o1") (text "lose")

abbrev scene : Scene (Server Blob)
scene = record { world = server []; posted = [] }

name-IsPlain : IsPlain ship.config
name-IsPlain = omega arith

ship_ok : (handle listener ship scene).0 ≡ ok tt
unfolding runs
ship_ok = refl

ship_quiet : (handle listener ship scene).1.posted ≡ []
unfolding runs
ship_quiet = refl

abbrev lost : EventRequest
lost = ask (text "o2") (text "ship")

abbrev codes : List EventResponse → List StatusCode
codes [] = []
codes (r ∷ rs) = let later = codes rs in elim r.outcome [ none ↦ later | some o ↦ o.code ∷ later ]

-- One request of each kind; only the second one succeeds.
kinds :
    codes
      (listen_for_messages listener (ask [] (text "ship") ∷ ship ∷ ship ∷ lost ∷ []) scene).1.posted
    ≡ missing_destination ∷ internal_error ∷ fsm_not_found ∷ []
unfolding runs is_not_found_err
kinds = refl

handle-Handled_example : Handled listener ship scene
handle-Handled_example = handle-Handled listener ship scene (λ h. not_panic (sym ship_ok ∙ h))
  where
    not_panic : ◌≡◌ {A = Result (Unit {0})} (ok tt) panic → ⊥
    not_panic h = cc

listen-Notices_example :
    (new : List EventResponse) × Notices listener (ship ∷ ship ∷ lost ∷ []) new
    × ((listen_for_messages listener (ship ∷ ship ∷ lost ∷ []) scene).1.posted ≡ [] ++ new)
listen-Notices_example = listen-Notices listener (ship ∷ ship ∷ lost ∷ []) scene

quiet-Succeeded_example : Succeeded store memory-Laws ship (event_of (text "ship")) scene
quiet-Succeeded_example =
    quiet-Succeeded store memory-Laws ship (event_of (text "ship")) scene name-IsPlain refl ship_ok
      ship_quiet

-- An event without a transition.
abbrev bare : Event
bare = record (event_of []) { transition = none }

abbrev bare_request : EventRequest
bare_request = record ship { event = some bare }

bare-Calm : Calm listener bare_request bare
unfolding put_event add_event_outcome
bare-Calm = record {
  calm_put = λ w. put_calm store wires.event _ bare never_expire w (λ h. cc);
  calm_tx = λ w n. absurd (n refl);
  calm_outcome = λ response w. outcome_calm response.event_id response.outcome w;
}
  where
    outcome_calm :
        (id : Text) (o : Option EventOutcome) (w : Server Blob)
        → (add_event_outcome store id (text "orders") o never_expire w).0 ≢ panic
    outcome_calm id none w h = cc
    outcome_calm id (some o) w h = put_calm store wires.outcome _ o never_expire w (λ e. cc) h

handle_panics_iff_example : ((handle listener bare_request scene).0 ≡ panic) ↔ (
    (bare_request.id ≢ [])
    × (bare_request.config ≢ [])
    × (bare.transition ≡ none)
    × ((put_event store (some bare) bare_request.config never_expire scene.world).0 ≡ ok tt))
handle_panics_iff_example = handle_panics_iff listener bare_request bare scene refl bare-Calm

bare_panics : (handle listener bare_request scene).0 ≡ panic
unfolding runs
bare_panics = refl
