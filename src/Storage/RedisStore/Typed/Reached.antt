-- ===== src/Storage/RedisStore/Typed/Reached.antt =====
-- pkg/storage/redis_store.go: the kinds of the values, after any calls of the store, whatever they return.
use go_statemachine.Prelude.{
  ℕ, Text, text, ◌≡◌, refl, ◌∙◌, sym, ap, subst, Bool-cases, inl, inr, some, List,
}
use go_statemachine.Protos.{Event, EventOutcome, Configuration, FiniteStateMachine}
use go_statemachine.Go.Strings.{split, head, contains}
use go_statemachine.Go.Strings.Laws.{Lacks}
use go_statemachine.Storage.Keys.Laws.{
  Key, all_configs, config, machine, by_state, event, outcome, key_text, IsPlain,
}
use go_statemachine.Storage.Keys.{configs_prefix}
use go_statemachine.Storage.Redis.{Reply, answer, timeout, failure, absent, Laws}
use go_statemachine.Storage.RedisStore.{
  RedisStore, get_config, put_config, get_all_configs, get_all_versions, get_state_machine,
  put_state_machine, get_all_in_state, update_state, get_event, put_event, add_event_outcome,
  get_outcome_for_event, never_expire, members_or_nil,
}
use go_statemachine.Storage.RedisStore.Tx.{tx_process_event}
use go_statemachine.Storage.RedisStore.Typed.{WritesWhole, HasKind, IsTyped, IsTyped-keeps}
use go_statemachine.Storage.RedisStore.Typed.Calls.{get-IsTyped, put-IsTyped, update_state-IsTyped}
use go_statemachine.Storage.RedisStore.Typed.Changes.{put_config-IsTyped, tx_process_event-IsTyped}

module _ {S Bytes : Type 0} (csm : RedisStore S Bytes) where
  -- The calls of ConfigStore, FSMStore and EventStore, with any result; the names of configurations
  -- have no # and no :, and those that are put no :.
  pub data Call (s : S) : S → Type 0 where
    gets_config : (id : Text) → Call s (get_config csm id s).1
    puts_config :
        (cfg : Configuration) → Lacks b':' cfg.name → Call s (put_config csm (some cfg) s).1
    lists_configs : Call s (get_all_configs csm s).1
    lists_versions : (name : Text) → Call s (get_all_versions csm name s).1
    gets_machine : (id name : Text) → Call s (get_state_machine csm id name s).1
    puts_machine :
        (id : Text) (fsm : FiniteStateMachine)
        → IsPlain (head (split fsm.config_id b':'))
        → Call s (put_state_machine csm id (some fsm) s).1
    lists_state : (name st : Text) → Call s (get_all_in_state csm name st s).1
    updates_state :
        (name id old new : Text) → IsPlain name → Call s (update_state csm name id old new s).1
    processes :
        (id name : Text) (evt : Event)
        → IsPlain name
        → Call s (tx_process_event csm id name evt s).1
    gets_event : (id name : Text) → Call s (get_event csm id name s).1
    puts_event :
        (evt : Event) (name : Text) (ttl : ℕ)
        → IsPlain name
        → Call s (put_event csm (some evt) name ttl s).1
    gets_outcome : (id name : Text) → Call s (get_outcome_for_event csm id name s).1
    adds_outcome :
        (id name : Text) (o : EventOutcome) (ttl : ℕ)
        → IsPlain name
        → Call s (add_event_outcome csm id name (some o) ttl s).1

  -- Any number of calls, from a store that holds nothing.
  pub data Called : S → Type 0 where
    empty : (s : S) → ((j : Text) → csm.client.look s j ≡ absent) → Called s
    later : {s s' : S} → Called s → Call s s' → Called s'

  module _ (laws : Laws csm.client) (whole : WritesWhole csm.client) where
    listed_state : (r : Reply (List Text) × S) → (members_or_nil csm r).1 ≡ r.1
    listed_state (answer l, s) = refl
    listed_state (timeout e, s) = refl
    listed_state (failure e, s) = refl

    smembers-IsTyped :
        (k : Text) (s : S)
        → IsTyped csm s
        → IsTyped csm (members_or_nil csm (csm.client.smembers k s)).1
    smembers-IsTyped k s typed =
        IsTyped-keeps csm s _
          (λ j. ap (λ t. csm.client.look t j) (listed_state _) ∙ laws.look-smembers k j s) typed

    Call-IsTyped : {s s' : S} → Call s s' → IsTyped csm s → IsTyped csm s'
    unfolding get_config get_all_configs get_all_versions get_state_machine put_state_machine
        get_all_in_state get_event put_event add_event_outcome get_outcome_for_event
    Call-IsTyped {s} (gets_config id) = get-IsTyped csm laws whole csm.wires.configuration _ s
    Call-IsTyped {s} (puts_config cfg plain) = put_config-IsTyped csm laws whole cfg s plain
    Call-IsTyped {s} lists_configs = smembers-IsTyped configs_prefix s
    Call-IsTyped {s} (lists_versions name) = smembers-IsTyped _ s
    Call-IsTyped {s} (gets_machine id name) = get-IsTyped csm laws whole csm.wires.machine _ s
    Call-IsTyped {s} (puts_machine id fsm plain) =
        put-IsTyped csm laws whole csm.wires.machine (machine id (head (split fsm.config_id b':')))
          plain (λ a b m. (a, m)) fsm never_expire s
    Call-IsTyped {s} (lists_state name st) = smembers-IsTyped _ s
    Call-IsTyped {s} (updates_state name id old new plain) =
        update_state-IsTyped csm laws whole name id plain old new s
    Call-IsTyped {s} (processes id name evt plain) =
        tx_process_event-IsTyped csm laws whole id name plain evt s
    Call-IsTyped {s} (gets_event id name) = get-IsTyped csm laws whole csm.wires.event _ s
    Call-IsTyped {s} (puts_event evt name ttl plain) =
        put-IsTyped csm laws whole csm.wires.event (event evt.event_id name) plain (λ a b m. (a, m))
          evt ttl s
    Call-IsTyped {s} (gets_outcome id name) = get-IsTyped csm laws whole csm.wires.outcome _ s
    Call-IsTyped {s} (adds_outcome id name o ttl plain) =
        put-IsTyped csm laws whole csm.wires.outcome (outcome id name) plain (λ a b m. (a, m)) o ttl
          s

    nothing : (k : Key) → HasKind csm k absent
    nothing all_configs = tt
    nothing (config id) = elim (Bool-cases (contains id (text ":"))) [
      | inl e ↦ rw e tt
      | inr e ↦ rw e tt
    ]
    nothing (machine id name) = tt
    nothing (by_state name st) = tt
    nothing (event id name) = tt
    nothing (outcome id name) = tt

    empty-IsTyped : (s : S) → ((j : Text) → csm.client.look s j ≡ absent) → IsTyped csm s
    empty-IsTyped s free k plain = subst (HasKind csm k) (sym (free (key_text k))) (nothing k)

    -- From a store that holds nothing, after any calls of ConfigStore, FSMStore and EventStore, whatever
    -- they return, with configuration names without # and :, each key of the collections holds
    -- nothing or a value of its kind: those of machines, events, outcomes and identifiers of
    -- configurations, which have a colon, the encoding of such a message; those of the state sets, of
    -- the versions of a name, and of the list of names, a set. A write leaves at its key what it
    -- writes or what was there.
    pub Called-IsTyped : {s : S} → Called s → IsTyped csm s
    Called-IsTyped (empty s free) = empty-IsTyped s free
    Called-IsTyped (later r call) = Call-IsTyped call (Called-IsTyped r)
