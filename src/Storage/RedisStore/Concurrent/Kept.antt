-- ===== src/Storage/RedisStore/Concurrent/Kept.antt =====
-- pkg/storage/redis_store.go, TxProcessEvent: the keys that each of its commands leaves alone.
use go_statemachine.Prelude.{Text, ◌≡◌, ◌≢◌, ◌∙◌, sym}
use go_statemachine.Protos.{FiniteStateMachine}
use go_statemachine.Go.Result.{ok}
use go_statemachine.Storage.Keys.{
  new_key_for_config, new_key_for_machine, new_key_for_machines_by_state,
}
use go_statemachine.Storage.Keys.Laws.{
  config, machine, by_state, IsPlain, machine_key_ne, key_text_injective,
}
use go_statemachine.Storage.Redis.{Cell, absent, value, Laws}
use go_statemachine.Storage.RedisStore.{
  RedisStore, leave_state, enter_state, get_config, get_state_machine,
}
use go_statemachine.Storage.RedisStore.Values.{Reads, look-get, get_sound}
use go_statemachine.Storage.RedisStore.States.{leave_state-frame, enter_state-frame}
use go_statemachine.Storage.RedisStore.Concurrent.{Plan, exec_of, KeepsConfigs}
use go_statemachine.Storage.RedisStore.Concurrent.Serial.{KnowsConfig}

config_not_machine :
    (id name i : Text) → IsPlain name → new_key_for_machine id name ≢ new_key_for_config i
config_not_machine id name i p e = differ (key_text_injective (machine id name) (config i) p tt e)
  where
    differ : machine id name ≡ config i → ⊥
    differ h = cc

config_not_state :
    (name st i : Text) → IsPlain name → new_key_for_machines_by_state name st ≢ new_key_for_config i
config_not_state name st i p e = differ (key_text_injective (by_state name st) (config i) p tt e)
  where
    differ : by_state name st ≡ config i → ⊥
    differ h = cc

value_not_absent : {Bytes : Type 0} (b : Bytes) (c : Cell Bytes) → c ≡ value b → c ≢ absent
value_not_absent b c h e = cc

module _ {S Bytes : Type 0} (csm : RedisStore S Bytes) where
  pub KnowsConfig-keeps :
      {s t : S} → KeepsConfigs csm s t → (p : Plan) → KnowsConfig csm p s → KnowsConfig csm p t
  KnowsConfig-keeps keep p (b, held, decoded) =
      (b, keep p.fsm.config_id (value_not_absent b _ held) ∙ held, decoded)

module _ {S Bytes : Type 0} (csm : RedisStore S Bytes) (id name : Text) where
  -- The machine's key and the configurations are as they were.
  pub record Quiet (s t : S) : Type 0 where
    pub machine_kept :
        csm.client.look t (new_key_for_machine id name)
        ≡ csm.client.look s (new_key_for_machine id name)
    pub configs_kept : KeepsConfigs csm s t

  pub unchanged-Quiet :
      {s t : S} → ((j : Text) → csm.client.look t j ≡ csm.client.look s j) → Quiet s t
  unchanged-Quiet h = record { machine_kept = h _; configs_kept = λ i n. h _ }

  module _ (laws : Laws csm.client) where
    pub get_state_machine-Quiet : (s : S) → Quiet s (get_state_machine csm id name s).1
    unfolding get_state_machine
    get_state_machine-Quiet s =
        unchanged-Quiet (λ j. look-get csm laws csm.wires.machine (new_key_for_machine id name) j s)

    -- The machine that a client has read is stored.
    pub get_state_machine_sound :
        (fsm : FiniteStateMachine) (s : S)
        → (get_state_machine csm id name s).0 ≡ ok fsm
        → Reads csm csm.wires.machine (new_key_for_machine id name) fsm s
    unfolding get_state_machine
    get_state_machine_sound fsm s h =
        get_sound csm laws csm.wires.machine (new_key_for_machine id name) fsm s h

    pub get_config_sound :
        (p : Plan) (s : S) → (get_config csm p.fsm.config_id s).0 ≡ ok p.cfg → KnowsConfig csm p s
    unfolding get_config
    get_config_sound p s h =
        get_sound csm laws csm.wires.configuration (new_key_for_config p.fsm.config_id) p.cfg s h

    pub get_config-Quiet : (i : Text) (s : S) → Quiet s (get_config csm i s).1
    unfolding get_config
    get_config-Quiet i s =
        unchanged-Quiet (λ j. look-get csm laws csm.wires.configuration (new_key_for_config i) j s)

  module _ (laws : Laws csm.client) (plain : IsPlain name) where
    no_state_key : (st : Text) → new_key_for_machines_by_state name st ≢ new_key_for_machine id name
    no_state_key st e = machine_key_ne id name name st plain plain (sym e)

    pub leave_state-Quiet : (st : Text) (s : S) → Quiet s (leave_state csm name id st s).1
    leave_state-Quiet st s = record {
      machine_kept = leave_state-frame csm laws name id st _ s no_state_key;
      configs_kept = λ i n.
          leave_state-frame csm laws name id st _ s (λ old. config_not_state name old i plain);
    }

    pub enter_state-Quiet : (st : Text) (s : S) → Quiet s (enter_state csm name id st s).1
    enter_state-Quiet st s = record {
      machine_kept = enter_state-frame csm laws name id st _ s no_state_key;
      configs_kept = λ i n.
          enter_state-frame csm laws name id st _ s (λ new. config_not_state name new i plain);
    }

    pub exec_of-KeepsConfigs : (b : Bytes) (s : S) → KeepsConfigs csm s (exec_of csm id name b s).1
    exec_of-KeepsConfigs b s i n =
        laws.exec_frame (new_key_for_machine id name) _ b s (config_not_machine id name i plain)
