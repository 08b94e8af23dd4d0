-- ===== src/Storage/RedisStore/Tx/Frame.antt =====
-- pkg/storage/redis_store.go, TxProcessEvent: the keys that it leaves alone, whatever it returns.
use go_statemachine.Prelude.{ℕ, zero, suc, Text, ◌≡◌, ◌≢◌, refl, ◌∙◌, ap}
use go_statemachine.Protos.{Event, FiniteStateMachine}
use go_statemachine.Go.Result.{Result, ok, err, panic}
use go_statemachine.Go.Action.{on_err, continue-keeps}
use go_statemachine.Storage.Keys.{
  new_key_for_config, new_key_for_machine, new_key_for_machines_by_state,
}
use go_statemachine.Storage.Errors.{not_found_error}
use go_statemachine.Api.Machine.{send_event}
use go_statemachine.Storage.Redis.{Cell, Reply, answer, timeout, failure, Laws}
use go_statemachine.Storage.RedisStore.{RedisStore, get_config, get_state_machine, update_state}
use go_statemachine.Storage.RedisStore.Values.{look-get}
use go_statemachine.Storage.RedisStore.States.{update_state-frame}
use go_statemachine.Storage.RedisStore.Tx.{
  encoded, exec_result, sent_machine, TxEnd, done, conflicted, pipelined, txf, watched, watch_txf,
  after_watch, tx_rounds, tx_process_event,
}
use go_statemachine.Storage.RedisStore.Tx.Runs.{with_config, with_machine, on_err_state}
use go_statemachine.Storage.RedisStore.Tx.Commit.{write_machine, exec_at, exec_result_state}

module _ {S Bytes : Type 0} (csm : RedisStore S Bytes) (laws : Laws csm.client) (id name : Text)
    (j : Text) (other : new_key_for_machine id name ≢ j)
    (no_set : (st : Text) → new_key_for_machines_by_state name st ≢ j) where
  abbrev at_key : S → Cell Bytes
  at_key t = csm.client.look t j

  pipelined-frame :
      (old : Text) (fsm : FiniteStateMachine) (s : S)
      → csm.client.look (pipelined csm id name old fsm s).1 j ≡ csm.client.look s j
  unfolding pipelined
  pipelined-frame old fsm s =
      continue-keeps at_key (write_machine csm laws id name old fsm)
        (encoded (csm.wires.machine.marshal fsm), s)
        (λ b t.
          continue-keeps at_key (λ _ s. exec_result (exec_at csm laws id name b s))
            (update_state csm name id old fsm.state t)
            (λ u t.
              ap at_key (exec_result_state (exec_at csm laws id name b t))
              ∙ laws.exec_frame (new_key_for_machine id name) j b t other)
          ∙ update_state-frame csm laws name id old fsm.state j t no_set)

  txf-frame :
      (evt : Event) (s : S) → csm.client.look (txf csm id name evt s).1 j ≡ csm.client.look s j
  unfolding txf get_state_machine get_config
  txf-frame evt s =
      let read = get_state_machine csm id name s in
      let first = on_err (λ e. not_found_error (new_key_for_machine id name)) read in
      continue-keeps at_key (with_machine csm laws id name evt) first (λ fsm t.
        let config_of = get_config csm fsm.config_id t in
        continue-keeps at_key (with_config csm laws id name evt fsm)
          (on_err not_found_error config_of)
          (λ cfg t.
            continue-keeps at_key (pipelined csm id name fsm.state)
              (sent_machine (send_event evt (record { config = cfg; fsm = fsm })), t)
              (λ moved t. pipelined-frame fsm.state moved t))
        ∙ ap at_key (on_err_state not_found_error config_of)
        ∙ look-get csm laws csm.wires.configuration (new_key_for_config fsm.config_id) j t)
      ∙ ap at_key (on_err_state _ read)
      ∙ look-get csm laws csm.wires.machine (new_key_for_machine id name) j s

  watched-frame :
      (evt : Event) (r : Reply (Unit {0}) × S)
      → csm.client.look (watched csm id name (txf csm id name evt) r).1 j ≡ csm.client.look r.1 j
  watched-frame evt (answer u, s) = txf-frame evt s
  watched-frame evt (timeout e, s) = refl
  watched-frame evt (failure e, s) = refl

  after_watch-frame :
      (again : S → Result (Unit {0}) × S)
      → ((s : S) → csm.client.look (again s).1 j ≡ csm.client.look s j)
      → (r : Result TxEnd × S)
      → csm.client.look (after_watch csm id name again r).1 j ≡ csm.client.look r.1 j
  after_watch-frame again k (ok done, s) = refl
  after_watch-frame again k (ok conflicted, s) = k s
  after_watch-frame again k (err e, s) = refl
  after_watch-frame again k (panic, s) = refl

  tx_rounds-frame :
      (left : ℕ) (evt : Event) (s : S)
      → csm.client.look (tx_rounds csm id name left evt s).1 j ≡ csm.client.look s j
  unfolding tx_rounds watch_txf
  tx_rounds-frame zero evt s = refl
  tx_rounds-frame (suc left) evt s =
      let watch = csm.client.watch (new_key_for_machine id name) s in
      after_watch-frame (tx_rounds csm id name left evt) (tx_rounds-frame left evt)
        (watched csm id name (txf csm id name evt) watch)
      ∙ watched-frame evt watch
      ∙ laws.look-watch (new_key_for_machine id name) j s

  -- No key changes but the machine's own and those of the state sets of its configuration's name.
  pub tx_process_event-frame :
      (evt : Event) (s : S)
      → csm.client.look (tx_process_event csm id name evt s).1 j ≡ csm.client.look s j
  tx_process_event-frame evt s = tx_rounds-frame 3 evt s
