-- ===== src/System/Consistency.antt =====
-- pkg/storage/redis_store.go under the calls of the gRPC server and of the listener: every machine is
-- in the set of its state, and in no other, after any sequence of calls.
use go_statemachine.Prelude.{ℕ, Text, ◌≡◌, ◌≢◌, true, false, some}
use go_statemachine.Protos.{
  Event, EventOutcome, Configuration, FiniteStateMachine, PutFsmRequest, PutResponse,
}
use go_statemachine.Go.Result.{ok}
use go_statemachine.Storage.Keys.{new_key_for_machine}
use go_statemachine.Storage.Keys.Laws.{IsPlain}
use go_statemachine.Storage.Redis.{is_absent, Laws}
use go_statemachine.Storage.RedisStore.{
  RedisStore, get_config, get_state_machine, get_event, get_outcome_for_event, get_all_configs,
  get_all_versions, get_all_in_state, put_config, put_event, add_event_outcome,
}
use go_statemachine.Storage.RedisStore.States.{is_in}
use go_statemachine.Storage.RedisStore.Tx.{conflicted, watch_txf, tx_process_event}
use go_statemachine.Storage.Manager.{redis_manager}
use go_statemachine.Grpc.Status.{reply}
use go_statemachine.Grpc.Server.{GrpcSubscriber, Deadline, machine_id, put_finite_state_machine}
use go_statemachine.Grpc.Server.Written.{Finds}
use go_statemachine.System.Tracking.{unknown, IsConsistent, Local-IsConsistent}
use go_statemachine.System.Aside.{
  Aside, Aside-IsConsistent, put_config-frame, put-Aside, get-Aside, smembers-Aside, config_key_ne,
  configs_key_ne, event_key_ne, outcome_key_ne,
}
use go_statemachine.System.Effects.{
  creates-IsTracked, creates-Local, processes-Local, processes-IsTracked,
}

module _ {S Bytes : Type 0} (csm : RedisStore S Bytes) (laws : Laws csm.client)
    (server : GrpcSubscriber S) where
  -- The calls that change or read the store: any result of those that touch no machine; a reply of
  -- PutFiniteStateMachine for an id without a machine, of a configuration that is stored under its
  -- own identifier and whose name is without # and :; a TxProcessEvent for a configuration name
  -- without # and : that returns nil and whose first EXEC was not refused.
  pub data Step (s : S) : S → Type 0 where
    gets_config : (id : Text) → Step s (get_config csm id s).1
    gets_machine : (id name : Text) → Step s (get_state_machine csm id name s).1
    gets_event : (id name : Text) → Step s (get_event csm id name s).1
    gets_outcome : (id name : Text) → Step s (get_outcome_for_event csm id name s).1
    lists_configs : Step s (get_all_configs csm s).1
    lists_versions : (name : Text) → Step s (get_all_versions csm name s).1
    lists_state : (name st : Text) → Step s (get_all_in_state csm name st s).1
    configures : (cfg : Configuration) → Step s (put_config csm (some cfg) s).1
    stores_event :
        (evt : Event) (name : Text) (ttl : ℕ) → Step s (put_event csm (some evt) name ttl s).1
    adds_outcome :
        (id name : Text) (o : EventOutcome) (ttl : ℕ)
        → Step s (add_event_outcome csm id name (some o) ttl s).1
    creates :
        (deadline : Deadline) (fresh : Text) (request : PutFsmRequest) (response : PutResponse)
        (f : FiniteStateMachine) (cfg : Configuration)
        → IsPlain cfg.name
        → Finds csm request f cfg s
        → is_absent (csm.client.look s (new_key_for_machine (machine_id fresh request) cfg.name))
          ≡ true
        → (put_finite_state_machine server deadline fresh request s).0 ≡ reply response
        → Step s (put_finite_state_machine server deadline fresh request s).1
    processes :
        (id name : Text) (evt : Event)
        → IsPlain name
        → (tx_process_event csm id name evt s).0 ≡ ok tt
        → (watch_txf csm id name evt s).0 ≢ ok conflicted
        → Step s (tx_process_event csm id name evt s).1

  -- Any number of calls, from a store in which nothing is held for any machine.
  pub data Reachable : S → Type 0 where
    empty :
        (s : S)
        → ((id name : Text) → is_absent (csm.client.look s (new_key_for_machine id name)) ≡ true)
        → ((name st x : Text) → is_in csm name st x s ≡ false)
        → Reachable s
    later : {s s' : S} → Reachable s → Step s s' → Reachable s'

  module _ (running : server.store ≡ some (redis_manager csm)) where
    step_config : (c : Configuration) (s : S) → Aside csm laws s (put_config csm (some c) s).1
    step_config c s = record {
      machines = λ id name.
          put_config-frame csm laws c _ s (configs_key_ne id name).0
            (λ x. (config_key_ne x id name).0);
      sets = λ name st.
          put_config-frame csm laws c _ s (configs_key_ne name st).1
            (λ x. (config_key_ne x name st).1);
    }

    -- Every call keeps the store consistent.
    pub Step-IsConsistent : {s s' : S} → Step s s' → IsConsistent csm s → IsConsistent csm s'
    unfolding get_config get_state_machine get_event get_outcome_for_event get_all_configs
        get_all_versions get_all_in_state put_event add_event_outcome
    Step-IsConsistent {s} (gets_config id) before =
        Aside-IsConsistent csm laws s _ (get-Aside csm laws csm.wires.configuration _ s) before
    Step-IsConsistent {s} (gets_machine id name) before =
        Aside-IsConsistent csm laws s _ (get-Aside csm laws csm.wires.machine _ s) before
    Step-IsConsistent {s} (gets_event id name) before =
        Aside-IsConsistent csm laws s _ (get-Aside csm laws csm.wires.event _ s) before
    Step-IsConsistent {s} (gets_outcome id name) before =
        Aside-IsConsistent csm laws s _ (get-Aside csm laws csm.wires.outcome _ s) before
    Step-IsConsistent {s} lists_configs before =
        Aside-IsConsistent csm laws s _ (smembers-Aside csm laws _ s) before
    Step-IsConsistent {s} (lists_versions name) before =
        Aside-IsConsistent csm laws s _ (smembers-Aside csm laws _ s) before
    Step-IsConsistent {s} (lists_state name st) before =
        Aside-IsConsistent csm laws s _ (smembers-Aside csm laws _ s) before
    Step-IsConsistent {s} (configures cfg) before =
        Aside-IsConsistent csm laws s _ (step_config cfg s) before
    Step-IsConsistent {s} (stores_event evt name ttl) before =
        Aside-IsConsistent csm laws s _
          (put-Aside csm laws csm.wires.event _ evt ttl s (event_key_ne _ _)) before
    Step-IsConsistent {s} (adds_outcome id name o ttl) before =
        Aside-IsConsistent csm laws s _
          (put-Aside csm laws csm.wires.outcome _ o ttl s (outcome_key_ne _ _)) before
    Step-IsConsistent {s} (creates deadline fresh request response f cfg plain finds free h)
          before =
        Local-IsConsistent csm (machine_id fresh request) cfg.name s _ plain
          (creates-Local csm laws server deadline fresh request response f cfg s running plain finds
            h)
          before
          (creates-IsTracked csm laws server deadline fresh request response f cfg s running plain
            finds free h (before (machine_id fresh request) cfg.name plain))
    Step-IsConsistent {s} (processes id name evt plain h first) before =
        Local-IsConsistent csm id name s _ plain
          (processes-Local csm laws id name evt s plain h first) before
          (processes-IsTracked csm laws id name evt s plain h first (before id name plain))

    -- From a store in which nothing is held for any machine, after any sequence of the calls of
    -- `Step`, every id of every configuration name without # and : either has no machine and is in
    -- none of the sets of the states that have a name, or has a machine and is, of these sets, in
    -- exactly that of its state. PutFiniteStateMachine and TxProcessEvent are called with
    -- configuration names without # and : only; PutFiniteStateMachine replies, for ids without a
    -- machine and configurations stored under their own identifiers; TxProcessEvent returns nil, and
    -- its first EXEC was not refused.
    pub Reachable-IsConsistent : {s : S} → Reachable s → IsConsistent csm s
    Reachable-IsConsistent (empty s free out) id name plain =
        unknown (free id name) (λ st n. out name st id)
    Reachable-IsConsistent (later r step) id name plain =
        Step-IsConsistent step (Reachable-IsConsistent r) id name plain
