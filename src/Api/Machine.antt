-- ===== src/Api/Machine.antt =====
-- pkg/api/fsm.go: ConfiguredStateMachine and its methods. A method returns the machine that it
-- leaves behind.
pub mod Step
pub mod History
pub mod Reachable
use go_statemachine.Prelude.{
  Text, Bool, true, false, ◌&&◌, ◌||◌, Option, none, some, List, [], ◌∷◌, ◌++◌, ◌==◌, if◌then◌else◌,
}
use go_statemachine.Protos.{Transition, Event, Configuration, FiniteStateMachine}
use go_statemachine.Go.Result.{Result, ok, err, panic}
use go_statemachine.Go.Action.{Action}
use go_statemachine.Go.Strings.{join}
use go_statemachine.Api.Errors.{malformed_configuration_error, unexpected_transition_error}
use go_statemachine.Api.Configuration.{
  configuration_version_separator, get_version_id, cfg_has_state, check_valid,
}

pub record ConfiguredStateMachine : Type 0 where
  pub config : Configuration
  pub fsm : FiniteStateMachine

unfoldable pub new_state_machine : Configuration → Result ConfiguredStateMachine
new_state_machine configuration =
    if configuration.name == [] || configuration.version == []
    then err malformed_configuration_error
    else ok (record {
      config = configuration;
      fsm = record {
        config_id =
            join (configuration.name ∷ configuration.version ∷ []) configuration_version_separator;
        state = configuration.starting_state;
        history = [];
      };
    })

-- The loop of SendEvent: the first transition from the state for the event. The event's transition is
-- read only behind `t.From == x.FSM.State`, and it is a panic if it is nil.
unfoldable pub find_transition : Text → Option Transition → List Transition → Result Transition
find_transition state sent [] = err unexpected_transition_error
find_transition state sent (t ∷ transitions) =
    let rest = find_transition state sent transitions in
    if t.from == state
    then (elim sent [ none ↦ panic | some w ↦ if t.event == w.event then ok t else rest ])
    else rest

-- newEvent.Transition.From = from, newEvent.Transition.To = to, on the clone
abbrev pub set_ends : Text → Text → Option Transition → Option Transition
set_ends from to none = none
set_ends from to (some w) = some (record w { from = from; to = to })

-- What the loop does with the transition that it found.
abbrev pub follow : Event → ConfiguredStateMachine → Transition → ConfiguredStateMachine
follow evt x t = record x {
  fsm = record x.fsm {
    state = t.to;
    history =
        x.fsm.history ++ record evt { transition = set_ends x.fsm.state t.to evt.transition } ∷ [];
  };
}

abbrev pub conclude :
    Event → ConfiguredStateMachine → Result Transition → Result (Unit {0}) × ConfiguredStateMachine
conclude evt x (ok t) = (ok tt, follow evt x t)
conclude evt x (err e) = (err e, x)
conclude evt x panic = (panic, x)

unfoldable pub send_event : Event → Action ConfiguredStateMachine (Unit {0})
send_event evt x = conclude evt x (find_transition x.fsm.state evt.transition x.config.transitions)

unfoldable pub reset : ConfiguredStateMachine → ConfiguredStateMachine
reset x = record x { fsm = record x.fsm { state = x.config.starting_state; history = [] } }

abbrev is_nil : Option Text → Bool
is_nil none = true
is_nil (some e) = false

-- CheckValid of a machine; of its configuration it is `check_valid`.
unfoldable pub is_valid : ConfiguredStateMachine → Bool
is_valid x =
    is_nil (check_valid x.config)
    && cfg_has_state x.config x.fsm.state
    && x.fsm.config_id == get_version_id x.config
