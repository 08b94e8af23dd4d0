-- ===== src/Storage/RedisStore/Tx.antt =====
-- pkg/storage/redis_store.go, TxProcessEvent. The context's deadline shows in the replies to WATCH and
-- EXEC. A SET that is queued has no error before EXEC. UpdateState does not use the pipeline: its
-- commands run at once, before EXEC.
pub mod Runs
pub mod Commit
pub mod Index
pub mod Rounds
pub mod Calm
pub mod Frame
pub mod Live
use go_statemachine.Prelude.{ℕ, zero, suc, Text, text, List, [], ◌∷◌}
use go_statemachine.Protos.{Event, Configuration, FiniteStateMachine}
use go_statemachine.Go.Result.{Error, Result, ok, err, panic}
use go_statemachine.Go.Action.{Action, return, fail, lift, on_err, ◌>>=◌, ◌>>◌}
use go_statemachine.Api.Machine.{ConfiguredStateMachine, send_event}
use go_statemachine.Storage.Keys.{new_key_for_machine}
use go_statemachine.Storage.Errors.{not_found_error, invalid_data_error, too_many_attempts}
use go_statemachine.Storage.Redis.{
  Reply, answer, timeout, failure, ExecReply, committed, tx_failed, exec_failure, Wire,
}
use go_statemachine.Storage.RedisStore.{
  RedisStore, default_max_retries, get_config, get_state_machine, update_state,
}

-- How a transaction without an error ends; TxFailed is redis.TxFailedErr.
pub data TxEnd : Type 0 where
  done conflicted : TxEnd

-- The machine that SendEvent leaves behind, if it returns nil.
abbrev pub sent_machine : Result (Unit {0}) × ConfiguredStateMachine → Result FiniteStateMachine
sent_machine (ok u, x) = ok x.fsm
sent_machine (err e, x) = err e
sent_machine (panic, x) = panic

abbrev pub exec_result : {S : Type 0} → ExecReply × S → Result TxEnd × S
exec_result (committed, s) = (ok done, s)
exec_result (tx_failed, s) = (ok conflicted, s)
exec_result (exec_failure e, s) = (err e, s)

abbrev pub encoded : {Bytes : Type 0} → Result Bytes → Result Bytes
encoded (ok b) = ok b
encoded (err e) = err (invalid_data_error e)
encoded panic = panic

module _ {S Bytes : Type 0} (csm : RedisStore S Bytes) (id cfg_name : Text) where
  -- The TxPipelined block.
  unfoldable pub pipelined : Text → FiniteStateMachine → Action S TxEnd
  pipelined old_state fsm = do
    data_bytes ← lift (encoded (csm.wires.machine.marshal fsm))
    update_state csm cfg_name id old_state fsm.state
    λ s. exec_result (csm.client.exec ((new_key_for_machine id cfg_name, data_bytes) ∷ []) s)

  -- The function `txf`.
  unfoldable pub txf : Event → Action S TxEnd
  txf evt = do
    fsm ← λ s.
        on_err (λ e. not_found_error (new_key_for_machine id cfg_name))
          (get_state_machine csm id cfg_name s)
    cfg ← λ s. on_err not_found_error (get_config csm fsm.config_id s)
    moved ← lift (sent_machine (send_event evt (record { config = cfg; fsm = fsm })))
    pipelined fsm.state moved

  abbrev pub watched : Action S TxEnd → Reply (Unit {0}) × S → Result TxEnd × S
  watched body (answer u, s) = body s
  watched body (timeout e, s) = (err e, s)
  watched body (failure e, s) = (err e, s)

  -- client.Watch(ctx, txf, key)
  unfoldable pub watch_txf : Event → Action S TxEnd
  watch_txf evt s = watched (txf evt) (csm.client.watch (new_key_for_machine id cfg_name) s)

  abbrev pub after_watch : Action S (Unit {0}) → Result TxEnd × S → Result (Unit {0}) × S
  after_watch again (ok done, s) = (ok tt, s)
  after_watch again (ok conflicted, s) = again s
  after_watch again (err e, s) = (err e, s)
  after_watch again (panic, s) = (panic, s)

  -- The loop, with the rounds that are left.
  unfoldable pub tx_rounds : ℕ → Event → Action S (Unit {0})
  tx_rounds zero evt s = (err (too_many_attempts []), s)
  tx_rounds (suc n) evt s = after_watch (tx_rounds n evt) (watch_txf evt s)

  abbrev pub tx_process_event : Event → Action S (Unit {0})
  tx_process_event evt = tx_rounds default_max_retries evt
