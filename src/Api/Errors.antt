-- ===== src/Api/Errors.antt =====
-- pkg/api/fsm.go: the errors of the package.
use go_statemachine.Prelude.{Text, text}
use go_statemachine.Go.Fmt.{errorf}
use go_statemachine.Go.Result.{Error}

abbrev pub malformed_configuration_error : Error
malformed_configuration_error = text "this configuration cannot be parsed"

abbrev pub missing_name_configuration_error : Error
missing_name_configuration_error =
    text "configuration must always specify a name (and optionally a version)"

abbrev pub missing_states_configuration_error : Error
missing_states_configuration_error = text "configuration must always specify at least one state"

abbrev pub missing_destination_error : Error
missing_destination_error = text "event must always have a `Destination` statemachine"

abbrev pub missing_event_name_error : Error
missing_event_name_error = text "events must always specify the event type"

abbrev pub mismatch_starting_state_configuration_error : Error
mismatch_starting_state_configuration_error =
    text "the StartingState must be one of the possible FSM states"

abbrev pub empty_starting_state_configuration_error : Error
empty_starting_state_configuration_error = text "the StartingState must be non-empty"

abbrev pub unexpected_transition_error : Error
unexpected_transition_error = text "unexpected event transition"

-- The text of UnreachableStateConfigurationError with its state.
abbrev pub unreachable_state_configuration_error : Text → Error
unreachable_state_configuration_error =
    errorf (text "state %s is not used in any of the transitions")
