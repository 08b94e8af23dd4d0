-- ===== src/Examples/Store.antt =====
-- The theorems on the store, over the server in memory.
use go_statemachine.Prelude.{
  Text, text, ◌≡◌, refl, Bool, true, false, not, ◌&&◌, ◌||◌, some, List, [], ◌∷◌, arith, ◌==◌,
  if◌then◌else◌,
}
use go_statemachine.Protos.{Event, Configuration, FiniteStateMachine}
use go_statemachine.Go.Result.{ok, err}
use go_statemachine.Go.Action.{fail}
use go_statemachine.Go.Strings.{split}
use go_statemachine.Api.Configuration.{get_version_id}
use go_statemachine.Api.Machine.{send_event, find_transition}
use go_statemachine.Storage.Errors.{already_exists_error, generic_store_error}
use go_statemachine.Storage.Keys.{
  new_key_for_config, new_key_for_machine, new_key_for_machines_by_state, new_key_for_event,
  new_key_for_outcome,
}
use go_statemachine.Storage.Keys.Laws.{IsPlain}
use go_statemachine.Storage.Redis.{Cell, members, contains, absent, has}
use go_statemachine.Storage.Redis.Memory.{
  Fault, healthy, slow, broken, conflict, Server, memory, memory-Laws, slow_error, broken_error,
}
use go_statemachine.Storage.RedisStore.{
  get_loop, put_loop, after_get, get, get_config, put_config, get_state_machine, put_state_machine,
  get_all_in_state, update_state,
}
use go_statemachine.Storage.RedisStore.Retry.{Attempts, get-Attempts}
use go_statemachine.Storage.RedisStore.Configs.{IsAnswered, HasConfig}
use go_statemachine.Storage.RedisStore.States.{marks, is_in, update_state_lem}
use go_statemachine.Storage.RedisStore.Tx.{
  done, conflicted, pipelined, txf, watch_txf, tx_rounds, tx_process_event,
}
use go_statemachine.Storage.RedisStore.Tx.Runs.{Ran}
use go_statemachine.Storage.RedisStore.Tx.Index.{IsIndexed, txf-IsIndexed}
use go_statemachine.Storage.RedisStore.Tx.Rounds.{Committed, tx_process_event-Committed}
use go_statemachine.Examples.Orders.{orders, event_of, fresh, Blob, wires, store, server}

runs : Unit {0}
unfolding memory contains get_loop put_loop get_config put_config get_state_machine
    put_state_machine get_all_in_state update_state send_event find_transition pipelined txf
    watch_txf tx_rounds split new_key_for_config new_key_for_machine new_key_for_machines_by_state
    new_key_for_event new_key_for_outcome ◌==◌
runs = tt

abbrev ship : Event
ship = event_of (text "ship")

abbrev o1 : Text
o1 = text "o1"

abbrev name : Text
name = text "orders"

name-IsPlain : IsPlain name
name-IsPlain = omega arith

-- Two refused transactions, then one that commits; three refused ones; a slow and a broken server.
replies :
    ((tx_process_event store o1 name ship (server [])).0 ≡ ok tt)
    × ((tx_process_event store o1 name ship (server [])).0 ≡ ok tt)
unfolding runs
replies = (refl, refl)

slow_reads :
    ((get_state_machine store o1 name (server (slow ∷ slow ∷ []))).0 ≡ ok fresh.fsm)
    × ((get_state_machine store o1 name (server (slow ∷ slow ∷ slow ∷ []))).0 ≡ err slow_error)
    × ((get_state_machine store o1 name (server (broken ∷ []))).0
        ≡ err (generic_store_error broken_error))
    × ((put_config store (some orders) (server [])).0
        ≡ err (already_exists_error (text "configs#orders:v1")))
    × ((put_config store (some orders) (server (broken ∷ []))).0 ≡ ok tt)
unfolding runs
slow_reads = (refl, refl, refl, refl, refl)

abbrev refusing : Server Blob
refusing = server (healthy ∷ healthy ∷ healthy ∷ healthy ∷ conflict ∷ [])

commits : (txf store o1 name ship (server [])).0 ≡ ok done
unfolding runs
commits = refl

refused : (txf store o1 name ship refusing).0 ≡ ok conflicted
unfolding runs
refused = refl

abbrev o1_set : Cell Blob
o1_set = members (o1 ∷ [])

listed_if : (b : Bool) → has (if b then o1_set else absent) o1 ≡ b
unfolding runs
listed_if true = refl
listed_if false = refl

index : (fs : List Fault) → IsIndexed store o1 name fresh.fsm (server fs)
unfolding runs
index fs = record { stored = (_, refl, refl); listed = λ st n. listed_if (text "new" == st) }

txf-IsIndexed_example :
    (ran : Ran store memory-Laws o1 name ship (server [])) × (ran.fsm ≡ fresh.fsm)
    × IsIndexed store o1 name ran.moved.fsm (txf store o1 name ship (server [])).1
txf-IsIndexed_example =
    txf-IsIndexed store o1 name memory-Laws ship (server []) fresh.fsm name-IsPlain (index [])
      commits

tx_process_event-Committed_example :
    Committed store o1 name ship memory-Laws
      (server [])
      (tx_process_event store o1 name ship (server [])).1
tx_process_event-Committed_example =
    tx_process_event-Committed store o1 name ship memory-Laws (server []) name-IsPlain replies.0

abbrev sent_fsm : FiniteStateMachine
sent_fsm = record fresh.fsm { state = text "sent" }

get-Attempts_example :
    Attempts
      (memory.get (text "k"))
      (after_get store wires.machine (text "k") fail)
      2
      (server (slow ∷ []))
      (get store wires.machine (text "k") (server (slow ∷ [])))
get-Attempts_example =
    get-Attempts store wires.machine (text "k") (server (slow ∷ [])) 2 refl (omega arith)

abbrev orders_v2 : Configuration
orders_v2 = record orders { version = text "v2" }

has_orders : HasConfig store orders (server [])
unfolding runs
has_orders = (_, refl, refl)

exists-IsAnswered :
    IsAnswered (memory.exists (new_key_for_config (get_version_id orders_v2)) (server [])).0
unfolding runs
exists-IsAnswered = tt

put_v2 : (put_config store (some orders_v2) (server [])).0 ≡ ok tt
unfolding runs
put_v2 = refl

moved_o1 : (update_state store name o1 (text "new") (text "sent") (server [])).0 ≡ ok tt
unfolding runs
moved_o1 = refl

update_state_lem_example :
    is_in store name
      (text "sent")
      o1
      (update_state store name o1 (text "new") (text "sent") (server [])).1
    ≡ (marks (text "sent") (text "sent") && o1 == o1
        || not (marks (text "new") (text "sent") && o1 == o1)
          && is_in store name (text "sent") o1 (server []))
update_state_lem_example =
    update_state_lem store memory-Laws name o1 (text "new") (text "sent") (text "sent") o1
      (server []) moved_o1
