-- ===== src/Examples/Delivery.antt =====
-- The theorems on what later calls give back, over the store in memory.
use go_statemachine.Prelude.{◌∷◌, none, ◌⊎◌, text, ◌≡◌, refl, sym, ◌∙◌, some, [], ◌==◌}
use go_statemachine.Protos.{fsm, Event, PutResponse, EventRequest, EventResponse, success, config}
use go_statemachine.Go.Result.{Result, ok, panic}
use go_statemachine.Go.Strings.{split, contains}
use go_statemachine.Api.Configuration.{
  get_version_id, any_state, is_used, check_states, has_state, check_valid,
}
use go_statemachine.Api.Event.{update_event}
use go_statemachine.Api.Machine
use go_statemachine.Api.Machine.{ConfiguredStateMachine, find_transition}
use go_statemachine.Storage.Keys.{
  new_key_for_config, new_key_for_machine, new_key_for_machines_by_state, new_key_for_event,
  new_key_for_outcome,
}
use go_statemachine.Storage.Redis
use go_statemachine.Storage.Redis.{Cell, absent}
use go_statemachine.Storage.Redis.Memory.{Server, memory, memory-Laws}
use go_statemachine.Storage.RedisStore
use go_statemachine.Storage.RedisStore.{
  get_loop, put_loop, get_config, put_config, get_state_machine, put_state_machine, update_state,
  put_event, add_event_outcome, get_outcome_for_event,
}
use go_statemachine.Storage.RedisStore.Values.{Unanswered}
use go_statemachine.Storage.RedisStore.Tx.{pipelined, txf, watch_txf, tx_rounds}
use go_statemachine.Grpc.Status.{reply}
use go_statemachine.Grpc.Server.{
  Select, pending, send_event, put_configuration, get_configuration, put_finite_state_machine,
  get_all_in_state, get_event_outcome,
}
use go_statemachine.Grpc.Streams.{stream_machines, stream_all_instate}
use go_statemachine.Pubsub.Listener.{
  Scene, make_response, report_outcome, post_notification_and_report_outcome, process, handle,
}
use go_statemachine.Pubsub.Listener.Redis.{redis_listener}
use go_statemachine.Pubsub.Listener.Outcomes.{response_of}
use go_statemachine.System.Answers.{question, Told, handle-Told}
use go_statemachine.System.RoundTrips.{
  Delivered, send_event-Delivered, put_configuration-get_configuration,
}
use go_statemachine.Examples.Orders.{fresh, store-IsCalm, orders, Blob, store}
use go_statemachine.Main
use go_statemachine.Main.Shutdown.{Program, start, closed, send_on_closed}
use go_statemachine.Examples.World.{api, bare, configured, o2, holding_o2, ship}

runs : Unit {0}
unfolding memory Redis.contains get_loop put_loop get_config put_config get_state_machine
    put_state_machine update_state Machine.send_event find_transition pipelined txf watch_txf
    tx_rounds split contains new_key_for_config new_key_for_machine new_key_for_machines_by_state
    new_key_for_event new_key_for_outcome ◌==◌ put_finite_state_machine get_all_in_state
    RedisStore.get_all_in_state stream_machines stream_all_instate
runs = tt

-- The event comes to the listener.
abbrev asked : EventRequest
asked = record { event = some ship; config = orders.name; id = o2 }

abbrev scene : Scene (Server Blob)
scene = record { world = holding_o2; posted = [] }

answered :
    ((handle (redis_listener store) asked scene).0 ≡ ok tt)
    × ((get_event_outcome api
          (question asked)
          (handle (redis_listener store) asked scene).1.world).0
        ≡ reply (response_of asked success []))
unfolding runs handle process make_response report_outcome post_notification_and_report_outcome
    put_event add_event_outcome get_event_outcome get_outcome_for_event
answered = (refl, refl)

handle-Told_example : Told store api asked scene
handle-Told_example =
    handle-Told store memory-Laws api refl asked scene (λ h. not_panic (sym answered.0 ∙ h))
  where
    not_panic : ◌≡◌ {A = Result (Unit {0})} (ok tt) panic → ⊥
    not_panic h = cc

-- A client's event, by SendEvent.
abbrev unnamed : Event
unnamed = record ship { event_id = []; timestamp = none }

abbrev client_request : EventRequest
client_request = record { event = some unnamed; config = orders.name; id = o2 }

abbrev receipt : EventResponse
receipt = record { event_id = text "e9"; outcome = none }

replies : (send_event api Select.sent (text "e9") 5 client_request).0 ≡ reply receipt
unfolding runs send_event update_event
replies = refl

send_event-Delivered_example :
    Delivered store memory-Laws api refl client_request receipt
      (send_event api Select.sent (text "e9") 5 client_request).1
      scene
send_event-Delivered_example =
    send_event-Delivered store memory-Laws api refl Select.sent (text "e9") 5 client_request unnamed
      receipt scene refl replies store-IsCalm

abbrev config_response : PutResponse
config_response = record { id = text "orders:v1"; entity_response = config orders }

puts_config : (put_configuration api pending pending orders bare).0 ≡ reply config_response
unfolding runs put_configuration check_valid has_state any_state is_used check_states
puts_config = refl

same_cell :
    memory.look configured (new_key_for_config (text "orders:v1"))
    ≡ memory.look
        (put_configuration api pending pending orders bare).1
        (new_key_for_config (text "orders:v1"))
unfolding runs put_configuration check_valid has_state any_state is_used check_states
same_cell = refl

put_configuration-get_configuration_example :
    (check_valid orders ≡ none)
    × (config_response ≡ record { id = get_version_id orders; entity_response = config orders })
    × (((get_configuration api (text "orders:v1") configured).0 ≡ reply orders)
        ⊎ Unanswered store (new_key_for_config (text "orders:v1")) configured)
put_configuration-get_configuration_example =
    put_configuration-get_configuration store memory-Laws api refl pending pending orders bare
      configured config_response puts_config same_cell

-- The request is taken twice; the listener receives it once, and the other goroutine is still at its
-- send when the channel is closed, which panics.
abbrev handed : Program (Server Blob)
handed = record (start scene) {
  taken = asked ∷ asked ∷ [];
  in_flight = asked ∷ [];
  handled = asked ∷ [];
  scene = (handle (redis_listener store) asked scene).1;
}

abbrev crashed : Program (Server Blob)
crashed = record handed { phase = closed; ending = send_on_closed }

abbrev machine_response : PutResponse
machine_response = record { id = o2; entity_response = fsm fresh.fsm }
