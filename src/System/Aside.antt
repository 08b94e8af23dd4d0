-- ===== src/System/Aside.antt =====
-- pkg/storage/redis_store.go: the calls that touch neither the machines nor their sets.
use go_statemachine.Prelude.{
  ℕ, Text, ◌≡◌, ◌≢◌, inl, inr, refl, ◌∙◌, ap, Bool-cases, List, some, arith, nat_eq,
}
use go_statemachine.Protos.{Configuration}
use go_statemachine.Api.Configuration.{get_version_id}
use go_statemachine.Storage.Keys.{
  configs_prefix, new_key_for_config, new_key_for_machine, new_key_for_machines_by_state,
  new_key_for_event, new_key_for_outcome,
}
use go_statemachine.Storage.Redis.{Reply, answer, timeout, failure, has, Wire, Laws}
use go_statemachine.Storage.RedisStore
use go_statemachine.Storage.RedisStore.{
  RedisStore, members_or_nil, val, get, get_config, get_state_machine, get_event,
  get_outcome_for_event, get_all_configs, get_all_versions, get_all_in_state, put_config, put_event,
  add_event_outcome,
}
use go_statemachine.Storage.RedisStore.Values.{look-get, look-put}
use go_statemachine.System.Tracking.{IsConsistent, Untouched-IsTracked}

-- No other collection shares a key with the machines or their sets.
pub config_key_ne :
    (c id name : Text)
    → (new_key_for_config c ≢ new_key_for_machine id name)
      × (new_key_for_config c ≢ new_key_for_machines_by_state id name)
unfolding new_key_for_config new_key_for_machine new_key_for_machines_by_state
config_key_ne c id name = (λ e. ground arith, λ e. ground arith)

pub configs_key_ne :
    (id name : Text)
    → (configs_prefix ≢ new_key_for_machine id name)
      × (configs_prefix ≢ new_key_for_machines_by_state id name)
unfolding new_key_for_machine new_key_for_machines_by_state
configs_key_ne id name = (λ e. ground arith, λ e. ground arith)

pub event_key_ne :
    (i n id name : Text)
    → (new_key_for_event i n ≢ new_key_for_machine id name)
      × (new_key_for_event i n ≢ new_key_for_machines_by_state id name)
unfolding new_key_for_event new_key_for_machine new_key_for_machines_by_state
event_key_ne i n id name = (λ e. ground arith, λ e. ground arith)

pub outcome_key_ne :
    (i n id name : Text)
    → (new_key_for_outcome i n ≢ new_key_for_machine id name)
      × (new_key_for_outcome i n ≢ new_key_for_machines_by_state id name)
unfolding new_key_for_outcome new_key_for_machine new_key_for_machines_by_state
outcome_key_ne i n id name = (λ e. ground arith, λ e. ground arith)

module _ {S Bytes : Type 0} (csm : RedisStore S Bytes) (laws : Laws csm.client) where
  -- The machines and their sets are as they were.
  pub record Aside (s s' : S) : Type 0 where
    pub machines :
        (id name : Text)
        → csm.client.look s' (new_key_for_machine id name)
          ≡ csm.client.look s (new_key_for_machine id name)
    pub sets :
        (name st : Text)
        → csm.client.look s' (new_key_for_machines_by_state name st)
          ≡ csm.client.look s (new_key_for_machines_by_state name st)

  pub Aside-IsConsistent : (s s' : S) → Aside s s' → IsConsistent csm s → IsConsistent csm s'
  Aside-IsConsistent s s' aside before id name plain =
      Untouched-IsTracked csm id name s s'
        (record {
          machine_kept = aside.machines id name;
          sets_kept = λ st. ap (λ c. has c id) (aside.sets name st);
        })
        (before id name plain)

  pub put_config-frame :
      (c : Configuration) (j : Text) (s : S)
      → configs_prefix ≢ j
      → ((x : Text) → new_key_for_config x ≢ j)
      → csm.client.look (put_config csm (some c) s).1 j ≡ csm.client.look s j
  unfolding put_config
  put_config-frame c j s m n =
      let key = new_key_for_config (get_version_id c) in
      let found = (csm.client.exists key s).1 in
      let named = (csm.client.sadd configs_prefix c.name found).1 in
      let listed = (csm.client.sadd (new_key_for_config c.name) (get_version_id c) named).1 in
      let same = laws.look-exists key j s in
      elim (Bool-cases (nat_eq (val csm (csm.client.exists key s).0) 1)) [
        | inl one ↦ rw one same
        | inr other ↦ rw other (
            look-put csm laws csm.wires.configuration key c 0 j listed (n (get_version_id c))
            ∙ laws.sadd_frame (new_key_for_config c.name) j (get_version_id c) named (n c.name)
            ∙ laws.sadd_frame configs_prefix j c.name found m
            ∙ same)
      ]

  pub put-Aside :
      {A : Type 0} (w : Wire Bytes A) (key : Text) (a : A) (ttl : ℕ) (s : S)
      → ((id name : Text)
          → (key ≢ new_key_for_machine id name) × (key ≢ new_key_for_machines_by_state id name))
      → Aside s (RedisStore.put csm w key a ttl s).1
  put-Aside w key a ttl s n = record {
    machines = λ id name. look-put csm laws w key a ttl _ s (n id name).0;
    sets = λ name st. look-put csm laws w key a ttl _ s (n name st).1;
  }

  pub get-Aside : {A : Type 0} (w : Wire Bytes A) (key : Text) (s : S) → Aside s (get csm w key s).1
  get-Aside w key s = record {
    machines = λ id name. look-get csm laws w key _ s;
    sets = λ name st. look-get csm laws w key _ s;
  }

  listed-state : (r : Reply (List Text) × S) → (members_or_nil csm r).1 ≡ r.1
  listed-state (answer l, s) = refl
  listed-state (timeout e, s) = refl
  listed-state (failure e, s) = refl

  pub smembers-Aside :
      (key : Text) (s : S) → Aside s (members_or_nil csm (csm.client.smembers key s)).1
  smembers-Aside key s = record {
    machines = λ id name.
        ap (λ t. csm.client.look t (new_key_for_machine id name)) (listed-state _)
        ∙ laws.look-smembers key _ s;
    sets = λ name st.
        ap (λ t. csm.client.look t (new_key_for_machines_by_state name st)) (listed-state _)
        ∙ laws.look-smembers key _ s;
  }
