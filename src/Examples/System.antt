-- ===== src/Examples/System.antt =====
-- The theorems on the parts together, over the store in memory: a configuration, a machine and an
-- event.
use go_statemachine.Prelude.{
  Text, text, ◌≡◌, ◌↔◌, refl, sym, ◌∙◌, Bool, true, false, List, [], ◌∷◌, ◌++◌, map, All, Any, ◌==◌,
  arith, if◌then◌else◌,
}
use go_statemachine.Protos.{FiniteStateMachine, GetFsmRequest, PutResponse, fsm}
use go_statemachine.Go.Result.{ok}
use go_statemachine.Go.Strings.{split, contains}
use go_statemachine.Api.Machine
use go_statemachine.Api.Machine.{ConfiguredStateMachine, find_transition}
use go_statemachine.Storage.Keys.{
  new_key_for_config, new_key_for_machine, new_key_for_machines_by_state, new_key_for_event,
  new_key_for_outcome,
}
use go_statemachine.Storage.Keys.Laws.{IsPlain}
use go_statemachine.Storage.Redis
use go_statemachine.Storage.Redis.{Cell, absent}
use go_statemachine.Storage.Redis.Memory.{Server, memory, memory-Laws}
use go_statemachine.Storage.RedisStore
use go_statemachine.Storage.RedisStore.{
  get_loop, put_loop, get_config, put_config, get_state_machine, put_state_machine, update_state,
  put_event, add_event_outcome, get_outcome_for_event,
}
use go_statemachine.Storage.RedisStore.Values.{Reads}
use go_statemachine.Storage.RedisStore.Tx.{
  done, conflicted, pipelined, txf, watch_txf, tx_rounds, tx_process_event,
}
use go_statemachine.Storage.RedisStore.Tx.Live.{HoldsSet, Responsive, tx_process_event_lives}
use go_statemachine.Grpc.Status.{reply}
use go_statemachine.Grpc.Server.{pending, put_finite_state_machine, get_all_in_state}
use go_statemachine.Grpc.Streams.{stream_machines, stream_all_instate}
use go_statemachine.Grpc.Server.Written.{Finds}
use go_statemachine.System.Tracking.{IsConsistent}
use go_statemachine.System.Consistency.{
  Reachable, empty, later, configures, creates, processes, Reachable-IsConsistent,
}
use go_statemachine.System.Listing.{IsStoredIn, get_all_in_state_iff}
use go_statemachine.System.Streaming.{Entry, entry_message, Stream, stream_all_instate-exact}
use go_statemachine.Examples.Orders.{orders, fresh, Blob, machine_blob, store}
use go_statemachine.Examples.World.{api, bare, configured, o2, put_o2, holding_o2, ship}

runs : Unit {0}
unfolding memory Redis.contains get_loop put_loop get_config put_config get_state_machine
    put_state_machine update_state Machine.send_event find_transition pipelined txf watch_txf
    tx_rounds split contains new_key_for_config new_key_for_machine new_key_for_machines_by_state
    new_key_for_event new_key_for_outcome ◌==◌ put_finite_state_machine get_all_in_state
    RedisStore.get_all_in_state stream_machines stream_all_instate
runs = tt

abbrev shipped : Server Blob
shipped = (tx_process_event store o2 orders.name ship holding_o2).1

abbrev put_response : PutResponse
put_response = record { id = o2; entity_response = fsm fresh.fsm }

name-IsPlain : IsPlain orders.name
name-IsPlain = omega arith

finds : Finds store put_o2 fresh.fsm orders configured
unfolding runs
finds = (refl, refl, (_, refl, refl))

puts : (put_finite_state_machine api pending [] put_o2 configured).0 ≡ reply put_response
unfolding runs
puts = refl

ships :
    ((tx_process_event store o2 orders.name ship holding_o2).0 ≡ ok tt)
    × ((watch_txf store o2 orders.name ship holding_o2).0 ≡ ok done)
unfolding runs
ships = (refl, refl)

made : Reachable store memory-Laws api holding_o2
unfolding runs
made =
    later (later (empty bare (λ id name. refl) (λ name st x. refl)) (configures orders))
      (creates pending [] put_o2 put_response fresh.fsm orders name-IsPlain finds refl puts)

reached : Reachable store memory-Laws api shipped
reached = later made (
    processes o2 orders.name ship name-IsPlain ships.0
      (λ h. let e : ok done ≡ ok conflicted = sym ships.1 ∙ h in cc))

Reachable-IsConsistent_example : IsConsistent store shipped
Reachable-IsConsistent_example = Reachable-IsConsistent store memory-Laws api refl reached

-- The machines that were sent.
abbrev query : GetFsmRequest
query = record { config = orders.name; id = []; state = text "sent" }

lists : (get_all_in_state api query shipped).0 ≡ reply (o2 ∷ [])
unfolding runs
lists = refl

answers : Unit {0}
unfolding runs
answers = tt

get_all_in_state_iff_example :
    (Redis.contains o2 (o2 ∷ []) ≡ true) ↔ IsStoredIn store orders.name (text "sent") o2 shipped
unfolding runs
get_all_in_state_iff_example =
    get_all_in_state_iff store memory-Laws api refl query shipped (o2 ∷ []) o2 reached name-IsPlain
      tt lists

-- A stream that takes every message.
abbrev taken : Stream PutResponse (List PutResponse)
taken = record {
  send_msg = λ m t. (ok tt, t ++ m ∷ []);
  messages = λ t. t;
  messages-send_msg = λ m t h. refl;
}

streams : (stream_all_instate api taken.send_msg query (shipped, [])).0 ≡ reply tt
unfolding runs
streams = refl

stream_all_instate-exact_example :
    (entries : List Entry) × ((stream_all_instate api taken.send_msg query (shipped, [])).1.1
      ≡ map entry_message entries)
    × All
        (λ e.
          Reads store store.wires.machine (new_key_for_machine e.0 orders.name) e.1 shipped
          × (e.1.state ≡ text "sent"))
        entries
    × ((id : Text) (f : FiniteStateMachine)
        → Reads store store.wires.machine (new_key_for_machine id orders.name) f shipped
        → f.state ≡ text "sent"
        → Any (λ e. (e.0 ≡ id) × (e.1 ≡ f)) entries)
unfolding runs
stream_all_instate-exact_example =
    stream_all_instate-exact store memory-Laws taken api refl query shipped [] reached name-IsPlain
      tt streams

-- Without faults to come, the server in memory answers.
abbrev Healthy : Server Blob → Type 0
Healthy s = s.faults ≡ []

memory-Responsive : Responsive memory Healthy
unfolding memory
memory-Responsive = record {
  gets = λ k b s p h. ground arith;
  watches = λ k s p. ground arith;
  adds = λ k a s p h. ground arith;
  removes = λ k a s p h. ground arith;
  commits = λ k b s p. ground arith;
}

either-HoldsSet :
    (b : Bool) (c d : Cell Blob) → HoldsSet c → HoldsSet d → HoldsSet (if b then c else d)
either-HoldsSet true c d p q = p
either-HoldsSet false c d p q = q

o2_sets :
    (st : Text) → HoldsSet (memory.look holding_o2 (new_key_for_machines_by_state orders.name st))
unfolding runs
o2_sets st = either-HoldsSet (text "new" == st) _ _ tt tt

abbrev sent_o2 : ConfiguredStateMachine
sent_o2 = (Machine.send_event ship fresh).1

taken_by :
    (Machine.send_event ship (record { config = orders; fsm = fresh.fsm }) ≡ (ok tt, sent_o2))
    × Reads store store.wires.machine (new_key_for_machine o2 orders.name) fresh.fsm holding_o2
    × Reads store store.wires.configuration
        (new_key_for_config fresh.fsm.config_id)
        orders
        holding_o2
    × Healthy holding_o2
unfolding runs
taken_by = (refl, (_, refl, refl), (_, refl, refl), refl)

tx_process_event_lives_example : (tx_process_event store o2 orders.name ship holding_o2).0 ≡ ok tt
tx_process_event_lives_example =
    tx_process_event_lives store memory-Laws Healthy memory-Responsive o2 orders.name ship fresh.fsm
      orders sent_o2 (machine_blob sent_o2.fsm) holding_o2 taken_by.3 o2_sets taken_by.1 taken_by.2
      taken_by.0 refl
