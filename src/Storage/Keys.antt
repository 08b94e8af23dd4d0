-- ===== src/Storage/Keys.antt =====
-- pkg/storage/keys.go: the keys of the Redis collections.
pub mod Laws
use go_statemachine.Prelude.{Text, text, [], ◌∷◌}
use go_statemachine.Go.Strings.{join}

abbrev pub configs_prefix : Text
configs_prefix = text "configs"

abbrev pub events_prefix : Text
events_prefix = text "events"

abbrev pub fsm_prefix : Text
fsm_prefix = text "fsm"

abbrev pub key_prefix_components_separator : Text
key_prefix_components_separator = text ":"

abbrev pub key_prefix_id_separator : Text
key_prefix_id_separator = text "#"

unfoldable pub new_key_for_config : Text → Text
new_key_for_config id = join (configs_prefix ∷ id ∷ []) key_prefix_id_separator

unfoldable pub new_key_for_machine : Text → Text → Text
new_key_for_machine id cfg_name =
    let prefix = join (fsm_prefix ∷ cfg_name ∷ []) key_prefix_components_separator in
    join (prefix ∷ id ∷ []) key_prefix_id_separator

unfoldable pub new_key_for_machines_by_state : Text → Text → Text
new_key_for_machines_by_state cfg_name state =
    let prefix = join (fsm_prefix ∷ cfg_name ∷ text "state" ∷ []) key_prefix_components_separator in
    join (prefix ∷ state ∷ []) key_prefix_id_separator

unfoldable pub new_key_for_event : Text → Text → Text
new_key_for_event id cfg_name =
    let prefix = join (events_prefix ∷ cfg_name ∷ []) key_prefix_components_separator in
    join (prefix ∷ id ∷ []) key_prefix_id_separator

unfoldable pub new_key_for_outcome : Text → Text → Text
new_key_for_outcome id cfg_name =
    let prefix =
      join (events_prefix ∷ cfg_name ∷ text "outcome" ∷ []) key_prefix_components_separator in
    join (prefix ∷ id ∷ []) key_prefix_id_separator
