-- ===== src/Examples/Orders.antt =====
-- A configuration of orders, and a store in memory that holds it with one machine.
use go_statemachine.Prelude.{
  Text, text, some, [], ◌∷◌, ◌==◌, if◌then◌else◌, List, ◌++◌, ◌≡◌, ◌≢◌, refl, ap, sym, ◌∙◌,
}
use go_statemachine.Protos.{Transition, Event, Configuration, FiniteStateMachine, EventOutcome}
use go_statemachine.Go.Result.{Result, ok, err, panic}
use go_statemachine.Api.Machine.{ConfiguredStateMachine}
use go_statemachine.Storage.Keys.{
  new_key_for_config, new_key_for_machine, new_key_for_machines_by_state,
}
use go_statemachine.Storage.Redis.{Cell, absent, value, members, Wire, Wires}
use go_statemachine.Storage.Redis.Memory.{Fault, Server, memory}
use go_statemachine.Storage.RedisStore.{RedisStore}
use go_statemachine.Storage.RedisStore.Tx.Calm.{IsCalm}

abbrev pub step : Text → Text → Text → Transition
step from to event = record { from = from; to = to; event = event }

abbrev pub orders : Configuration
orders = record {
  name = text "orders";
  version = text "v1";
  states = text "new" ∷ text "sent" ∷ [];
  transitions = step (text "new") (text "sent") (text "ship") ∷ [];
  starting_state = text "new";
}

-- Two transitions lead to a state that is not listed.
abbrev pub leaky : Configuration
leaky = record orders {
  transitions =
      step (text "new") (text "sent") (text "ship")
      ∷ step (text "new") (text "lost") (text "lose")
      ∷ [];
}

abbrev pub event_of : Text → Event
event_of name = record {
  event_id = text "e1";
  timestamp = some 7;
  transition = some (step [] [] name);
  originator = [];
  details = [];
}

abbrev pub machine_in : Configuration → Text → List Event → ConfiguredStateMachine
machine_in c state history = record {
  config = c;
  fsm = record { config_id = c.name ++ (text ":" ++ c.version); state = state; history = history };
}

abbrev pub fresh : ConfiguredStateMachine
fresh = machine_in orders (text "new") []

-- An encoding that keeps the message.
pub data Blob : Type 0 where
  config_blob : Configuration → Blob
  machine_blob : FiniteStateMachine → Blob
  event_blob : Event → Blob
  outcome_blob : EventOutcome → Blob

pub round_trip :
    {A : Type 0} (f : A → Blob) (g : Blob → Result A) (a : A) (b : Blob)
    → g (f a) ≡ ok a
    → ok (f a) ≡ ok b
    → g b ≡ ok a
round_trip f g a b e h = let same : f a ≡ b = cc in ap g (sym same) ∙ e

-- An encoding by one of the constructors.
abbrev wire :
    {A : Type 0} (f : A → Blob) (g : Blob → Result A) → ((a : A) → g (f a) ≡ ok a) → Wire Blob A
wire f g e = record {
  marshal = λ a. ok (f a);
  unmarshal = g;
  unmarshal-marshal = λ a b h. round_trip f g a b (e a) h;
}

abbrev pub wires : Wires Blob
wires = record {
  configuration = wire config_blob (λ b. elim b [ config_blob c ↦ ok c | _ ↦ err [] ]) (λ a. refl);
  machine = wire machine_blob (λ b. elim b [ machine_blob c ↦ ok c | _ ↦ err [] ]) (λ a. refl);
  event = wire event_blob (λ b. elim b [ event_blob c ↦ ok c | _ ↦ err [] ]) (λ a. refl);
  outcome = wire outcome_blob (λ b. elim b [ outcome_blob c ↦ ok c | _ ↦ err [] ]) (λ a. refl);
}

abbrev pub store : RedisStore (Server Blob) Blob
store = record { client = memory; wires = wires; timeout_nanos = 200; max_retries = 3 }

-- The configuration, the machine "o1" in the state "new", and the set of that state.
abbrev pub holding : Text → Cell Blob
holding key =
    if new_key_for_config (text "orders:v1") == key
    then value (config_blob orders)
    else if new_key_for_machine (text "o1") (text "orders") == key
    then value (machine_blob fresh.fsm)
    else if new_key_for_machines_by_state (text "orders") (text "new") == key
    then members (text "o1" ∷ [])
    else absent

abbrev pub server : List Fault → Server Blob
server faults = record { cells = holding; faults = faults }

pub store-IsCalm : IsCalm store
store-IsCalm = record {
  marshals = λ f h. cc;
  marshals_event = λ e h. cc;
  marshals_outcome = λ o h. cc;
  reads_machine = λ b h. reads_machine b h;
  reads_config = λ b h. reads_config b h;
}
  where
    reads_machine : (b : Blob) → store.wires.machine.unmarshal b ≢ panic
    reads_machine (config_blob c) h = cc
    reads_machine (machine_blob c) h = cc
    reads_machine (event_blob c) h = cc
    reads_machine (outcome_blob c) h = cc

    reads_config : (b : Blob) → store.wires.configuration.unmarshal b ≢ panic
    reads_config (config_blob c) h = cc
    reads_config (machine_blob c) h = cc
    reads_config (event_blob c) h = cc
    reads_config (outcome_blob c) h = cc
