-- ===== src/Storage/Manager.antt =====
-- pkg/storage/types.go: the interface StoreManager, and the Redis store as one of its
-- implementations.
use go_statemachine.Prelude.{ℕ, Text, Option, List}
use go_statemachine.Protos.{Event, Configuration, FiniteStateMachine, EventOutcome}
use go_statemachine.Go.Action.{Action}
use go_statemachine.Storage.RedisStore
use go_statemachine.Storage.RedisStore.{RedisStore}
use go_statemachine.Storage.RedisStore.Tx

-- ConfigStore, FSMStore, EventStore and Health.
pub record StoreManager (S : Type 0) : Type 0 where
  pub get_config : Text → Action S Configuration
  pub put_config : Option Configuration → Action S (Unit {0})
  pub get_all_configs : S → List Text × S
  pub get_all_versions : Text → S → List Text × S
  pub get_state_machine : Text → Text → Action S FiniteStateMachine
  pub put_state_machine : Text → Option FiniteStateMachine → Action S (Unit {0})
  pub get_all_in_state : Text → Text → S → List Text × S
  pub update_state : Text → Text → Text → Text → Action S (Unit {0})
  pub tx_process_event : Text → Text → Event → Action S (Unit {0})
  pub get_event : Text → Text → Action S Event
  pub put_event : Option Event → Text → ℕ → Action S (Unit {0})
  pub add_event_outcome : Text → Text → Option EventOutcome → ℕ → Action S (Unit {0})
  pub get_outcome_for_event : Text → Text → Action S EventOutcome
  pub health : Action S (Unit {0})

-- What NewRedisStore returns, as a StoreManager.
abbrev pub redis_manager : {S Bytes : Type 0} → RedisStore S Bytes → StoreManager S
redis_manager csm = record {
  get_config = RedisStore.get_config csm;
  put_config = RedisStore.put_config csm;
  get_all_configs = RedisStore.get_all_configs csm;
  get_all_versions = RedisStore.get_all_versions csm;
  get_state_machine = RedisStore.get_state_machine csm;
  put_state_machine = RedisStore.put_state_machine csm;
  get_all_in_state = RedisStore.get_all_in_state csm;
  update_state = RedisStore.update_state csm;
  tx_process_event = Tx.tx_process_event csm;
  get_event = RedisStore.get_event csm;
  put_event = RedisStore.put_event csm;
  add_event_outcome = RedisStore.add_event_outcome csm;
  get_outcome_for_event = RedisStore.get_outcome_for_event csm;
  health = RedisStore.health csm;
}
