-- ===== src/Examples/Grpc.antt =====
-- The theorems on pkg/grpc, over the store in memory.
use go_statemachine.Prelude.{
  Text, text, ◌≡◌, ◌≢◌, refl, Bool, true, false, none, some, [], ◌∷◌, ◌==◌, arith, if◌then◌else◌,
}
use go_statemachine.Protos.{
  EventRequest, EventResponse, Configuration, FiniteStateMachine, PutFsmRequest, PutResponse,
  config, fsm,
}
use go_statemachine.Go.Strings.{split, contains}
use go_statemachine.Api.Configuration.{
  any_state, is_used, check_states, has_state, check_valid, get_version_id,
}
use go_statemachine.Api.Event.{update_event}
use go_statemachine.Storage.Keys.{
  new_key_for_config, new_key_for_machine, new_key_for_machines_by_state, new_key_for_event,
  new_key_for_outcome,
}
use go_statemachine.Storage.Keys.Laws.{IsPlain}
use go_statemachine.Storage.Redis
use go_statemachine.Storage.Redis.{Cell, members, absent, has}
use go_statemachine.Storage.Redis.Memory.{Server, memory, memory-Laws}
use go_statemachine.Storage.RedisStore.{
  get_loop, put_loop, get_config, put_config, put_state_machine, update_state,
}
use go_statemachine.Storage.RedisStore.States.{is_in}
use go_statemachine.Storage.RedisStore.Tx.Index.{IsIndexed}
use go_statemachine.Storage.Manager.{redis_manager}
use go_statemachine.Grpc.Status.{reply}
use go_statemachine.Grpc.Server.{
  GrpcSubscriber, sent, pending, send_event, put_configuration, put_finite_state_machine,
}
use go_statemachine.Grpc.Server.Written.{Finds}
use go_statemachine.Grpc.Server.Machines.{
  put_finite_state_machine-IsIndexed, put_finite_state_machine-not-IsIndexed,
}
use go_statemachine.Examples.Orders.{orders, event_of, fresh, Blob, store, server}

runs : Unit {0}
unfolding memory Redis.contains get_loop put_loop get_config put_config put_state_machine
    update_state split contains new_key_for_config new_key_for_machine new_key_for_machines_by_state
    new_key_for_event new_key_for_outcome ◌==◌ check_valid has_state any_state is_used check_states
    send_event update_event put_configuration put_finite_state_machine
runs = tt

abbrev api : GrpcSubscriber (Server Blob)
api = record { store = some (redis_manager store); events_channel = true; tls_enabled = false }

abbrev orders_v2 : Configuration
orders_v2 = record orders { version = text "v2" }

valid : check_valid orders ≡ none
unfolding runs
valid = refl

abbrev taken : Text
taken = new_key_for_config (get_version_id orders)

abbrev stored_v2 : PutResponse
stored_v2 = record { id = text "orders:v2"; entity_response = config orders_v2 }

replies : (put_configuration api pending pending orders_v2 (server [])).0 ≡ reply stored_v2
unfolding runs
replies = refl

abbrev request : EventRequest
request = record {
  event = some (record (event_of (text "ship")) { event_id = []; timestamp = none });
  config = text "orders";
  id = text "o1";
}

abbrev answer : EventResponse
answer = record { event_id = text "new-id"; outcome = none }

posts : (send_event api sent (text "new-id") 5 request).0 ≡ reply answer
unfolding runs
posts = refl

name-IsPlain : IsPlain orders.name
name-IsPlain = omega arith

-- A machine without a state, under a new id, and one in another state under the id "o1".
abbrev stateless : FiniteStateMachine
stateless = record fresh.fsm { state = [] }

abbrev sent_again : FiniteStateMachine
sent_again = record fresh.fsm { state = text "sent" }

abbrev put_new : PutFsmRequest
put_new = record { id = []; fsm = some stateless }

abbrev put_again : PutFsmRequest
put_again = record { id = text "o1"; fsm = some sent_again }

abbrev placed : Text → FiniteStateMachine → PutResponse
placed id f = record { id = id; entity_response = fsm f }

puts :
    ((put_finite_state_machine api pending (text "o2") put_new (server [])).0
      ≡ reply (placed (text "o2") fresh.fsm))
    × ((put_finite_state_machine api pending [] put_again (server [])).0
        ≡ reply (placed (text "o1") sent_again))
unfolding runs
puts = (refl, refl)

put_new-Finds : Finds store put_new stateless orders (server [])
unfolding runs
put_new-Finds = (refl, refl, (_, refl, refl))

put_again-Finds : Finds store put_again sent_again orders (server [])
unfolding runs
put_again-Finds = (refl, refl, (_, refl, refl))

abbrev o1_set : Cell Blob
o1_set = members (text "o1" ∷ [])

o2_elsewhere : (b : Bool) → has (if b then o1_set else absent) (text "o2") ≡ false
unfolding runs
o2_elsewhere true = refl
o2_elsewhere false = refl

new_id : (st : Text) → st ≢ [] → is_in store orders.name st (text "o2") (server []) ≡ false
unfolding runs
new_id st n = o2_elsewhere (text "new" == st)

put_finite_state_machine-IsIndexed_example :
    IsIndexed store
      (text "o2")
      orders.name
      fresh.fsm
      (put_finite_state_machine api pending (text "o2") put_new (server [])).1
unfolding runs
put_finite_state_machine-IsIndexed_example =
    put_finite_state_machine-IsIndexed store memory-Laws api pending (text "o2") put_new
      (placed (text "o2") fresh.fsm) stateless orders (server []) refl name-IsPlain put_new-Finds
      new_id puts.0

o1_listed : (b : Bool) → has (if b then o1_set else absent) (text "o1") ≡ b
unfolding runs
o1_listed true = refl
o1_listed false = refl

index : IsIndexed store (text "o1") orders.name fresh.fsm (server [])
unfolding runs
index = record { stored = (_, refl, refl); listed = λ st n. o1_listed (text "new" == st) }

put_finite_state_machine-not-IsIndexed_example :
    ¬ IsIndexed store
      (text "o1")
      orders.name
      sent_again
      (put_finite_state_machine api pending [] put_again (server [])).1
unfolding runs
put_finite_state_machine-not-IsIndexed_example =
    put_finite_state_machine-not-IsIndexed store memory-Laws api pending [] put_again
      (placed (text "o1") sent_again) sent_again fresh.fsm orders (server []) refl name-IsPlain
      put_again-Finds index (λ h. cc) (λ h. cc) puts.1
