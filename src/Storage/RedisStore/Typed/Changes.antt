-- ===== src/Storage/RedisStore/Typed/Changes.antt =====
-- pkg/storage/redis_store.go, PutConfig and TxProcessEvent: they leave at each key a value of its kind.
use go_statemachine.Prelude.{
  ℕ, zero, suc, Text, text, ◌≡◌, refl, sym, subst, true, false, some, [], ◌∷◌, ◌++◌, Bool-cases,
  inl, inr, nat_eq, arith,
}
use go_statemachine.Protos.{Event, Configuration, FiniteStateMachine}
use go_statemachine.Go.Result.{Result, ok, err, panic}
use go_statemachine.Go.Action.{Action, on_err}
use go_statemachine.Go.Strings.{contains}
use go_statemachine.Go.Strings.Laws.{Lacks}
use go_statemachine.Api.Configuration.{get_version_id}
use go_statemachine.Api.Machine.{send_event}
use go_statemachine.Storage.Keys.{configs_prefix, new_key_for_config, new_key_for_machine}
use go_statemachine.Storage.Keys.Laws.{all_configs, config, machine, IsPlain}
use go_statemachine.Storage.Errors.{not_found_error}
use go_statemachine.Storage.Redis.{Reply, answer, timeout, failure, Laws}
use go_statemachine.Storage.RedisStore.{
  RedisStore, update_state, get_config, put_config, get_state_machine, val,
}
use go_statemachine.Storage.RedisStore.Tx.{
  TxEnd, done, conflicted, exec_result, sent_machine, pipelined, txf, watched, watch_txf,
  after_watch, tx_rounds, tx_process_event,
}
use go_statemachine.Storage.RedisStore.Tx.Runs.{with_config, with_machine, on_err_state}
use go_statemachine.Storage.RedisStore.Tx.Commit.{write_machine, exec_at, exec_result_state}
use go_statemachine.Storage.RedisStore.Typed.{
  WritesWhole, IsTyped, IsTyped-keeps, exec-IsTyped, KeepsSets, sadd-IsTyped,
}
use go_statemachine.Storage.RedisStore.Typed.Calls.{
  continue-Keeps, encoded-Keeps, get-IsTyped, put-IsTyped, update_state-IsTyped,
}

pub not_contains : (s : Text) → Lacks b':' s → contains s (text ":") ≡ false
unfolding contains
not_contains [] h = refl
not_contains (c ∷ s) h = ground (arith, not_contains s h.1)

pub contains_middle : (s t : Text) → contains (s ++ b':' ∷ t) (text ":") ≡ true
unfolding contains
contains_middle [] t = refl
contains_middle (c ∷ s) t = ground (arith, contains_middle s t)

id_contains : (c : Configuration) → contains (get_version_id c) (text ":") ≡ true
id_contains c = contains_middle c.name c.version

module _ {S Bytes : Type 0} (csm : RedisStore S Bytes) (laws : Laws csm.client)
    (whole : WritesWhole csm.client) where
  abbrev Typed : S → Type 0
  Typed = IsTyped csm

  versions-KeepsSets : (name : Text) → Lacks b':' name → KeepsSets csm laws whole (config name)
  versions-KeepsSets name h c d = rw (not_contains name h) (λ u k. k u)

  -- PutConfig of a configuration whose name has no colon.
  pub put_config-IsTyped :
      (c : Configuration) (s : S)
      → Lacks b':' c.name
      → Typed s
      → Typed (put_config csm (some c) s).1
  unfolding put_config
  put_config-IsTyped c s plain typed =
      let key = new_key_for_config (get_version_id c) in
      let start = (csm.client.exists key s).1 in
      let named = (csm.client.sadd configs_prefix c.name start).1 in
      let asked : Typed start = IsTyped-keeps csm s start (λ j. laws.look-exists key j s) typed in
      elim (Bool-cases (nat_eq (val csm (csm.client.exists key s).0) 1)) [
        | inl one ↦ rw one asked
        | inr none ↦ rw none (
            put-IsTyped csm laws whole csm.wires.configuration (config (get_version_id c)) tt
              (λ a b m. rw (id_contains c) (a, m)) c 0 _
              (sadd-IsTyped csm laws whole (config c.name) (get_version_id c) named tt
                (versions-KeepsSets c.name plain)
                (sadd-IsTyped csm laws whole all_configs c.name start tt (λ c d h k. k h) asked)))
      ]

  module _ (id name : Text) (plain : IsPlain name) where
    write_machine-IsTyped :
        (old : Text) (fsm : FiniteStateMachine) (b : Bytes) (s : S)
        → csm.wires.machine.marshal fsm ≡ ok b
        → Typed s
        → Typed (write_machine csm laws id name old fsm b s).1
    write_machine-IsTyped old fsm b s m typed =
        continue-Keeps Typed (λ _ s. exec_result (exec_at csm laws id name b s))
          (update_state csm name id old fsm.state s)
          (λ u t p.
            subst Typed (sym (exec_result_state (exec_at csm laws id name b t)))
              (exec-IsTyped csm laws whole (machine id name) b t plain (fsm, m) p))
          (update_state-IsTyped csm laws whole name id plain old fsm.state s typed)

    pipelined-IsTyped :
        (old : Text) (fsm : FiniteStateMachine) (s : S)
        → Typed s
        → Typed (pipelined csm id name old fsm s).1
    unfolding pipelined
    pipelined-IsTyped old fsm s typed =
        encoded-Keeps Typed (write_machine csm laws id name old fsm) (csm.wires.machine.marshal fsm)
          s (λ b m p. write_machine-IsTyped old fsm b s m p) typed

    txf-IsTyped : (evt : Event) (s : S) → Typed s → Typed (txf csm id name evt s).1
    unfolding txf get_state_machine get_config
    txf-IsTyped evt s typed =
        let read = get_state_machine csm id name s in
        let first = on_err (λ e. not_found_error (new_key_for_machine id name)) read in
        continue-Keeps Typed (with_machine csm laws id name evt) first
          (λ fsm t p.
            let config_of = get_config csm fsm.config_id t in
            continue-Keeps Typed (with_config csm laws id name evt fsm)
              (on_err not_found_error config_of)
              (λ cfg t q.
                continue-Keeps Typed (pipelined csm id name fsm.state)
                  (sent_machine (send_event evt (record { config = cfg; fsm = fsm })), t)
                  (λ moved t r. pipelined-IsTyped fsm.state moved t r) q)
              (subst Typed (sym (on_err_state not_found_error config_of)) (
                get-IsTyped csm laws whole csm.wires.configuration
                  (new_key_for_config fsm.config_id) t p)))
          (subst Typed (sym (on_err_state _ read))
            (get-IsTyped csm laws whole csm.wires.machine (new_key_for_machine id name) s typed))

    watched-IsTyped :
        (evt : Event) (r : Reply (Unit {0}) × S)
        → Typed r.1
        → Typed (watched csm id name (txf csm id name evt) r).1
    watched-IsTyped evt (answer u, s) typed = txf-IsTyped evt s typed
    watched-IsTyped evt (timeout e, s) typed = typed
    watched-IsTyped evt (failure e, s) typed = typed

    after_watch-IsTyped :
        (again : Action S (Unit {0})) (r : Result TxEnd × S)
        → ((s : S) → Typed s → Typed (again s).1)
        → Typed r.1
        → Typed (after_watch csm id name again r).1
    after_watch-IsTyped again (ok done, s) rest typed = typed
    after_watch-IsTyped again (ok conflicted, s) rest typed = rest s typed
    after_watch-IsTyped again (err e, s) rest typed = typed
    after_watch-IsTyped again (panic, s) rest typed = typed

    tx_rounds-IsTyped :
        (n : ℕ) (evt : Event) (s : S) → Typed s → Typed (tx_rounds csm id name n evt s).1
    unfolding tx_rounds watch_txf
    tx_rounds-IsTyped zero evt s typed = typed
    tx_rounds-IsTyped (suc n) evt s typed =
        after_watch-IsTyped (tx_rounds csm id name n evt) (watch_txf csm id name evt s)
          (tx_rounds-IsTyped n evt)
          (watched-IsTyped evt (csm.client.watch (new_key_for_machine id name) s)
            (IsTyped-keeps csm s _ (λ j. laws.look-watch _ j s) typed))

    pub tx_process_event-IsTyped :
        (evt : Event) (s : S) → Typed s → Typed (tx_process_event csm id name evt s).1
    tx_process_event-IsTyped evt s typed = tx_rounds-IsTyped 3 evt s typed
