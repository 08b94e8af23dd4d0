-- ===== src/Storage/RedisStore.antt =====
-- pkg/storage/redis_store.go: RedisStore. The pauses between attempts and the logs are left out:
-- neither changes what the store holds or returns.
pub mod Retry
pub mod Values
pub mod Configs
pub mod States
pub mod Tx
pub mod Concurrent
pub mod Typed
pub mod New
use go_statemachine.Prelude.{
  ℕ, zero, suc, ◌+◌, ◌-◌, ◌%◌, ◌^◌, Text, text, Bool, true, false, Option, none, some, List, [],
  ◌∷◌, ◌++◌, ◌==◌, nat_eq, if◌then◌else◌,
}
use go_statemachine.Protos.{Event, Configuration, FiniteStateMachine, EventOutcome}
use go_statemachine.Go.Result.{Error, Result, ok, err, panic}
use go_statemachine.Go.Action.{Action, return, fail, lift, on_err, ◌>>=◌, ◌>>◌}
use go_statemachine.Go.Strings.{split, head}
use go_statemachine.Api.Configuration.{get_version_id}
use go_statemachine.Storage.Keys.{
  configs_prefix, new_key_for_config, new_key_for_machine, new_key_for_machines_by_state,
  new_key_for_event, new_key_for_outcome,
}
use go_statemachine.Storage.Errors.{
  already_exists_error, generic_store_error, invalid_data_error, not_found_error, too_many_attempts,
}
use go_statemachine.Storage.Redis.{Reply, answer, timeout, failure, Client, Wire, Wires}

abbrev pub never_expire : ℕ
never_expire = 0

abbrev pub default_max_retries : ℕ
default_max_retries = 3

-- `client` is the parameter of the model, `wires` the encodings that it stores. `max_retries` is the
-- bit pattern of a 64-bit int.
pub record RedisStore (S Bytes : Type 0) : Type 0 where
  pub client : Client S Bytes
  pub wires : Wires Bytes
  pub timeout_nanos : ℕ
  pub max_retries : ℕ

-- attemptsLeft--
abbrev pub decrement : ℕ → ℕ
decrement n = (n + 2 ^ 64 - 1) % 2 ^ 64

-- attemptsLeft == 0
abbrev pub is_zero : ℕ → Bool
is_zero zero = true
is_zero (suc n) = false

module _ {S Bytes : Type 0} (csm : RedisStore S Bytes) where
  module _ {A : Type 0} (w : Wire Bytes A) (key : Text) where
    abbrev pub found : Option Bytes → Result A
    found none = err (not_found_error key)
    found (some b) = w.unmarshal b

    -- What one round of the loop of `get` makes of the reply; `again` is the next round.
    abbrev pub after_get : (Error → Action S A) → Reply (Option Bytes) × S → Result A × S
    after_get again (answer o, s) = (found o, s)
    after_get again (failure e, s) = (err (generic_store_error e), s)
    after_get again (timeout e, s) = again e s

    -- The loop of `get`; the argument is attemptsLeft after its decrement.
    unfoldable pub get_loop : ℕ → Action S A
    get_loop zero s = after_get fail (csm.client.get key s)
    get_loop (suc left) s = after_get (λ e. get_loop left) (csm.client.get key s)

    abbrev pub get : Action S A
    get = get_loop (decrement csm.max_retries)

    abbrev pub after_set : Action S (Unit {0}) → Reply (Unit {0}) × S → Result (Unit {0}) × S
    after_set again (answer u, s) = (ok tt, s)
    after_set again (failure e, s) = (err (generic_store_error e), s)
    after_set again (timeout e, s) = again s

    -- One round of the loop of `put`, with the encoded value.
    abbrev store : Action S (Unit {0}) → ℕ → Result Bytes → Action S (Unit {0})
    store again ttl (ok b) s = after_set again (csm.client.set key b ttl s)
    store again ttl (err e) s = (err (invalid_data_error e), s)
    store again ttl panic s = (panic, s)

    unfoldable pub put_loop : A → ℕ → ℕ → Action S (Unit {0})
    put_loop a ttl zero s = store (fail (too_many_attempts [])) ttl (w.marshal a) s
    put_loop a ttl (suc left) s = store (put_loop a ttl left) ttl (w.marshal a) s

    abbrev pub put : A → ℕ → Action S (Unit {0})
    put a ttl = put_loop a ttl (decrement csm.max_retries)

  -- A command whose reply only matters for its error.
  abbrev pub must : {A : Type 0} → (Error → Error) → Reply A × S → Result A × S
  must f (answer a, s) = (ok a, s)
  must f (timeout e, s) = (err (f e), s)
  must f (failure e, s) = (err (f e), s)

  unfoldable pub health : Action S (Unit {0})
  health s = must generic_store_error (csm.client.ping s)

  -- ConfigStore
  unfoldable pub get_config : Text → Action S Configuration
  get_config id = get csm.wires.configuration (new_key_for_config id)

  -- Exists(…).Val() == 1: an error leaves the value at 0.
  abbrev pub val : Reply ℕ → ℕ
  val (answer n) = n
  val (timeout e) = 0
  val (failure e) = 0

  -- The two SAdd, whose errors nobody looks at, and the value.
  abbrev add_config : Configuration → Action S (Unit {0})
  add_config cfg s =
      let named = (csm.client.sadd configs_prefix cfg.name s).1 in
      let listed = (csm.client.sadd (new_key_for_config cfg.name) (get_version_id cfg) named).1 in
      put csm.wires.configuration (new_key_for_config (get_version_id cfg)) cfg never_expire listed

  unfoldable pub put_config : Option Configuration → Action S (Unit {0})
  put_config none s = (err (invalid_data_error (text "nil config")), s)
  put_config (some cfg) s =
      let key = new_key_for_config (get_version_id cfg) in
      let (reply, s') = csm.client.exists key s in
      if nat_eq (val reply) 1 then (err (already_exists_error key), s') else add_config cfg s'

  -- An error gives the nil slice.
  abbrev pub members_or_nil : Reply (List Text) × S → List Text × S
  members_or_nil (answer l, s) = (l, s)
  members_or_nil (timeout e, s) = ([], s)
  members_or_nil (failure e, s) = ([], s)

  unfoldable pub get_all_configs : S → List Text × S
  get_all_configs s = members_or_nil (csm.client.smembers configs_prefix s)

  unfoldable pub get_all_versions : Text → S → List Text × S
  get_all_versions name s = members_or_nil (csm.client.smembers (new_key_for_config name) s)

  -- FSMStore
  unfoldable pub get_state_machine : Text → Text → Action S FiniteStateMachine
  get_state_machine id cfg = get csm.wires.machine (new_key_for_machine id cfg)

  unfoldable pub put_state_machine : Text → Option FiniteStateMachine → Action S (Unit {0})
  put_state_machine id none = fail (invalid_data_error (text "nil statemachine"))
  put_state_machine id (some fsm) =
      let config_name = head (split fsm.config_id b':') in
      put csm.wires.machine (new_key_for_machine id config_name) fsm never_expire

  unfoldable pub get_all_in_state : Text → Text → S → List Text × S
  get_all_in_state cfg state s =
      members_or_nil (csm.client.smembers (new_key_for_machines_by_state cfg state) s)

  -- fmt.Errorf("cannot … FSM [%s#%s] … state set `%s`: %s", …)
  abbrev state_set_error : Text → Text → Text → Text → Text → Error → Error
  state_set_error verb side cfg_name id state e =
      text "cannot "
      ++ verb
      ++ text " FSM ["
      ++ cfg_name
      ++ text "#"
      ++ id
      ++ text "] "
      ++ side
      ++ text " state set `"
      ++ state
      ++ text "`: "
      ++ e

  abbrev pub leave_state : Text → Text → Text → Action S (Unit {0})
  leave_state cfg_name id old_state s =
      if old_state == []
      then (ok tt, s)
      else must (state_set_error (text "remove") (text "from") cfg_name id old_state)
          (csm.client.srem (new_key_for_machines_by_state cfg_name old_state) id s)

  abbrev pub enter_state : Text → Text → Text → Action S (Unit {0})
  enter_state cfg_name id new_state s =
      if new_state == []
      then (ok tt, s)
      else must (state_set_error (text "add") (text "to") cfg_name id new_state)
          (csm.client.sadd (new_key_for_machines_by_state cfg_name new_state) id s)

  unfoldable pub update_state : Text → Text → Text → Text → Action S (Unit {0})
  update_state cfg_name id old_state new_state = do
    leave_state cfg_name id old_state
    enter_state cfg_name id new_state

  -- EventStore
  unfoldable pub get_event : Text → Text → Action S Event
  get_event id cfg = get csm.wires.event (new_key_for_event id cfg)

  unfoldable pub put_event : Option Event → Text → ℕ → Action S (Unit {0})
  put_event none cfg ttl = fail (invalid_data_error (text "nil event"))
  put_event (some event) cfg ttl =
      put csm.wires.event (new_key_for_event event.event_id cfg) event ttl

  unfoldable pub add_event_outcome : Text → Text → Option EventOutcome → ℕ → Action S (Unit {0})
  add_event_outcome id cfg none ttl = fail (invalid_data_error (text "nil response"))
  add_event_outcome id cfg (some response) ttl =
      put csm.wires.outcome (new_key_for_outcome id cfg) response ttl

  unfoldable pub get_outcome_for_event : Text → Text → Action S EventOutcome
  get_outcome_for_event id cfg = get csm.wires.outcome (new_key_for_outcome id cfg)
