-- ===== src/Api/Configuration.antt =====
-- pkg/api/fsm.go: CheckValid of a configuration and what it calls. An `error` that is the only
-- result is an `Option`, `none` for nil.
pub mod Validity
use go_statemachine.Prelude.{
  Text, text, Bool, true, false, not, ◌||◌, Option, none, some, List, [], ◌∷◌, ◌++◌, ◌==◌,
  if◌then◌else◌,
}
use go_statemachine.Protos.{Transition, Configuration}
use go_statemachine.Go.Result.{Error}
use go_statemachine.Api.Errors.{
  missing_name_configuration_error, missing_states_configuration_error,
  mismatch_starting_state_configuration_error, empty_starting_state_configuration_error,
  unreachable_state_configuration_error,
}

abbrev pub configuration_version_separator : Text
configuration_version_separator = text ":"

abbrev pub get_version_id : Configuration → Text
get_version_id c = c.name ++ (configuration_version_separator ++ c.version)

unfoldable pub has_state : Transition → Text → Bool
has_state transition state = state == transition.from || state == transition.to

-- The loop of CfgHasState.
unfoldable pub any_state : Text → List Text → Bool
any_state state [] = false
any_state state (s ∷ states) = if s == state then true else any_state state states

abbrev pub cfg_has_state : Configuration → Text → Bool
cfg_has_state configuration state = any_state state configuration.states

-- The inner loop of CheckValid: `found`.
unfoldable pub is_used : List Transition → Text → Bool
unfolding has_state
is_used [] s = false
is_used (t ∷ transitions) s = if has_state t s then true else is_used transitions s

-- The outer loop of CheckValid.
unfoldable pub check_states : List Transition → List Text → Option Error
check_states transitions [] = none
check_states transitions (s ∷ states) =
    if not (is_used transitions s)
    then some (unreachable_state_configuration_error s)
    else check_states transitions states

-- len(states) == 0
abbrev is_empty : List Text → Bool
is_empty [] = true
is_empty (s ∷ states) = false

unfoldable pub check_valid : Configuration → Option Error
check_valid c =
    if c.name == []
    then some missing_name_configuration_error
    else if is_empty c.states
    then some missing_states_configuration_error
    else if c.starting_state == []
    then some empty_starting_state_configuration_error
    else if not (cfg_has_state c c.starting_state)
    then some mismatch_starting_state_configuration_error
    else check_states c.transitions c.states
