-- ===== src/Examples/Concurrent.antt =====
-- Two clients that send an event to the same machine, over the server in memory.
use go_statemachine.Prelude.{ℕ, Text, text, ◌≡◌, refl, List, [], ◌∷◌, arith, ◌==◌}
use go_statemachine.Protos.{Event, FiniteStateMachine}
use go_statemachine.Go.Result.{ok}
use go_statemachine.Go.Strings.{split}
use go_statemachine.Api.Machine.{send_event, find_transition}
use go_statemachine.Storage.Keys.{
  new_key_for_config, new_key_for_machine, new_key_for_machines_by_state, new_key_for_event,
  new_key_for_outcome,
}
use go_statemachine.Storage.Keys.Laws.{IsPlain}
use go_statemachine.Storage.Redis.{contains, ExecReply}
use go_statemachine.Storage.Redis.Memory.{Fault, healthy, conflict, Server, memory, memory-Laws}
use go_statemachine.Storage.RedisStore.{
  get_loop, get_config, get_state_machine, update_state, leave_state, enter_state,
}
use go_statemachine.Storage.RedisStore.Values.{Reads}
use go_statemachine.Storage.RedisStore.Tx.{done, pipelined, txf, watch_txf}
use go_statemachine.Storage.RedisStore.Concurrent.{
  Attempt, Plan, Phase, idle, watching, has_read, ready, left, entered, was_sent, Cluster, goes,
  wrote, exec_of, watches, reads, prepares, leaves, enters, commits, conflicts, Reachable, starts,
  later,
}
use go_statemachine.Storage.RedisStore.Concurrent.Serial.{Serial, event_ids, trail}
use go_statemachine.Storage.RedisStore.Concurrent.Invariant.{Reachable-Serial}
use go_statemachine.Storage.RedisStore.Concurrent.Alone.{watch_txf-Reachable}
use go_statemachine.Examples.Orders.{orders, event_of, fresh, Blob, machine_blob, store, server}

runs : Unit {0}
unfolding memory contains get_loop get_config get_state_machine update_state send_event
    find_transition pipelined txf watch_txf split new_key_for_config new_key_for_machine
    new_key_for_machines_by_state new_key_for_event new_key_for_outcome ◌==◌
runs = tt

abbrev ship : Event
ship = event_of (text "ship")

abbrev o1 : Text
o1 = text "o1"

abbrev name : Text
name = text "orders"

name-IsPlain : IsPlain name
name-IsPlain = omega arith

abbrev o1_key : Text
o1_key = new_key_for_machine o1 name

abbrev World : Type 0
World = Cluster (Server Blob)

abbrev attempt : Attempt
attempt = record { evt = ship; seen = 0 }

abbrev plan : Plan
plan = record {
  attempt = attempt;
  fsm = fresh.fsm;
  cfg = orders;
  moved = (send_event ship fresh).1;
}

abbrev by : {X : Type 0} → ℕ → Phase → (Server Blob → X × Server Blob) → World → World
by c p command g = goes c p (command g.store).1 g

abbrev exec_plan : Server Blob → ExecReply × Server Blob
exec_plan = exec_of store o1 name (machine_blob plan.moved.fsm)

abbrev beginning : List Fault → World
beginning fs = record { store = server fs; clients = λ c. idle; log = [] }

-- WATCH and the GET of the machine.
abbrev read_by : ℕ → World → World
read_by c g =
    by c (has_read attempt fresh.fsm) (get_state_machine store o1 name)
      (by c (watching attempt) (memory.watch o1_key) g)

-- The GET of the configuration, and SendEvent.
abbrev sent_by : ℕ → World → World
sent_by c g = by c (ready plan) (get_config store fresh.fsm.config_id) g

-- The SREM and the SADD.
abbrev listed_by : ℕ → World → World
listed_by c g =
    by c (entered plan) (enter_state store name o1 plan.moved.fsm.state)
      (by c (left plan) (leave_state store name o1 fresh.fsm.state) g)

abbrev committed_by : ℕ → World → World
committed_by c g = wrote c plan (exec_plan g.store).1 g

-- The twelfth command is the EXEC of the first client.
abbrev one_refusal : List Fault
one_refusal =
    healthy ∷ healthy ∷ healthy ∷ healthy ∷ healthy ∷ healthy ∷ healthy ∷ healthy ∷ healthy
    ∷ healthy ∷ healthy ∷ conflict ∷ []

-- Both clients have read the machine before one of them writes.
abbrev read_both : World
read_both = sent_by 0 (read_by 1 (read_by 0 (beginning one_refusal)))

abbrev second_done : World
second_done = committed_by 1 (listed_by 1 (sent_by 1 read_both))

abbrev first_refused : World
first_refused = by 0 idle exec_plan (listed_by 0 second_done)

begins : (fs : List Fault) → Reachable store o1 name fresh.fsm (beginning fs)
unfolding runs
begins fs = starts (server fs) (_, refl, refl)

both_read : Reachable store o1 name fresh.fsm read_both
unfolding runs
both_read =
    later
      (later
        (later
          (later (later (begins one_refusal) (watches 0 ship refl refl))
            (reads 0 attempt fresh.fsm refl refl))
          (watches 1 ship refl refl))
        (reads 1 attempt fresh.fsm refl refl))
      (prepares 0 plan refl refl refl)

second_commits : Reachable store o1 name fresh.fsm second_done
unfolding runs
second_commits =
    later
      (later (later (later both_read (prepares 1 plan refl refl refl)) (leaves 1 plan refl refl))
        (enters 1 plan refl refl))
      (commits 1 plan (machine_blob plan.moved.fsm) refl refl refl refl)

first_conflicts : Reachable store o1 name fresh.fsm first_refused
unfolding runs
first_conflicts =
    later (later (later second_commits (leaves 0 plan refl refl)) (enters 0 plan refl refl))
      (conflicts 0 plan (machine_blob plan.moved.fsm) refl refl (omega arith))

Reachable-Serial_example :
    (fsm : FiniteStateMachine) × Reads store store.wires.machine o1_key fsm first_refused.store
    × Serial store fresh.fsm first_refused.store first_refused.log fsm
    × (event_ids fsm ≡ trail fresh.fsm first_refused.log)
Reachable-Serial_example =
    Reachable-Serial store o1 name memory-Laws name-IsPlain fresh.fsm first_refused first_conflicts

abbrev calm : World
calm = beginning []

sent_once : (watch_txf store o1 name ship calm.store).0 ≡ ok done
unfolding runs
sent_once = refl

watch_txf-Reachable_example :
    (g' : World) × Reachable store o1 name fresh.fsm g'
    × (g'.store ≡ (watch_txf store o1 name ship calm.store).1)
    × ((p : Plan) × (g'.log ≡ was_sent p ∷ []) × (p.attempt.evt ≡ ship))
watch_txf-Reachable_example =
    watch_txf-Reachable store memory-Laws o1 name fresh.fsm 0 ship calm (begins []) refl sent_once
