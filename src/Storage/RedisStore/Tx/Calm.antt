-- ===== src/Storage/RedisStore/Tx/Calm.antt =====
-- pkg/storage/redis_store.go: which calls cannot panic, if the encodings do not.
use go_statemachine.Prelude.{
  ℕ, zero, suc, Text, ◌≡◌, ◌≢◌, refl, ◌∙◌, sym, ap, Bool, true, false, Option, none, some, List, [],
  ◌∷◌, arith, ◌==◌, if◌then◌else◌,
}
use go_statemachine.Protos.{Transition, Event, FiniteStateMachine, EventOutcome}
use go_statemachine.Go.Result.{Error, Result, ok, err, panic}
use go_statemachine.Go.Action.{Action, on_err, continue}
use go_statemachine.Api.Machine.{ConfiguredStateMachine, find_transition, conclude, send_event}
use go_statemachine.Storage.Redis.{
  Reply, answer, timeout, failure, ExecReply, committed, tx_failed, exec_failure, Wire,
}
use go_statemachine.Storage.RedisStore.{
  RedisStore, after_get, get_loop, must, get_config, get_state_machine, leave_state, update_state,
}
use go_statemachine.Storage.RedisStore.Tx.{
  TxEnd, done, conflicted, sent_machine, exec_result, encoded, pipelined, txf, watched, watch_txf,
  after_watch, tx_rounds, tx_process_event,
}

continue_calm :
    {S A B : Type 0} (f : A → Action S B) (m : Result A × S)
    → m.0 ≢ panic
    → ((a : A) (s : S) → (f a s).0 ≢ panic)
    → (continue f m).0 ≢ panic
continue_calm f (ok a, s) n k h = k a s h
continue_calm f (err e, s) n k h = cc
continue_calm f (panic, s) n k h = n refl

on_err_calm :
    {S A : Type 0} (f : Error → Error) (m : Result A × S) → m.0 ≢ panic → (on_err f m).0 ≢ panic
on_err_calm f (ok a, s) n h = cc
on_err_calm f (err e, s) n h = cc
on_err_calm f (panic, s) n h = n refl

find_transition_calm :
    (state : Text) (w : Transition) (ts : List Transition)
    → find_transition state (some w) ts ≢ panic
unfolding find_transition
find_transition_calm state w [] h = cc
find_transition_calm state w (t ∷ ts) h = ground (arith, find_transition_calm state w ts)

sent_machine_calm :
    (evt : Event) (w : Transition) (x : ConfiguredStateMachine)
    → evt.transition ≡ some w
    → sent_machine (send_event evt x) ≢ panic
unfolding send_event
sent_machine_calm evt w x e h =
    concluded (find_transition x.fsm.state evt.transition x.config.transitions)
      (λ p.
        find_transition_calm x.fsm.state w x.config.transitions
          (sym (ap (λ o. find_transition x.fsm.state o x.config.transitions) e) ∙ p))
      h
  where
    concluded : (r : Result Transition) → r ≢ panic → sent_machine (conclude evt x r) ≢ panic
    concluded (ok t) n h = cc
    concluded (err e) n h = cc
    concluded panic n h = n refl

encoded_calm : {Bytes : Type 0} (r : Result Bytes) → r ≢ panic → encoded r ≢ panic
encoded_calm (ok b) n h = cc
encoded_calm (err e) n h = cc
encoded_calm panic n h = n refl

exec_result_calm : {S : Type 0} (r : ExecReply × S) → (exec_result r).0 ≢ panic
exec_result_calm (committed, s) h = cc
exec_result_calm (tx_failed, s) h = cc
exec_result_calm (exec_failure e, s) h = cc

module _ {S Bytes : Type 0} (csm : RedisStore S Bytes) where
  -- The encodings do not panic.
  pub record IsCalm : Type 0 where
    pub marshals : (fsm : FiniteStateMachine) → csm.wires.machine.marshal fsm ≢ panic
    pub marshals_event : (evt : Event) → csm.wires.event.marshal evt ≢ panic
    pub marshals_outcome : (o : EventOutcome) → csm.wires.outcome.marshal o ≢ panic
    pub reads_machine : (b : Bytes) → csm.wires.machine.unmarshal b ≢ panic
    pub reads_config : (b : Bytes) → csm.wires.configuration.unmarshal b ≢ panic

  module _ {A : Type 0} (w : Wire Bytes A) (key : Text)
      (calm : (b : Bytes) → w.unmarshal b ≢ panic) where
    after_get_calm :
        (again : Error → Action S A)
        → ((e : Error) (s : S) → (again e s).0 ≢ panic)
        → (r : Reply (Option Bytes) × S) → (after_get csm w key again r).0 ≢ panic
    after_get_calm again k (answer none, s) h = cc
    after_get_calm again k (answer (some b), s) h = calm b h
    after_get_calm again k (timeout e, s) h = k e s h
    after_get_calm again k (failure e, s) h = cc

    get_loop_calm : (left : ℕ) (s : S) → (get_loop csm w key left s).0 ≢ panic
    unfolding get_loop
    get_loop_calm zero s = after_get_calm _ (λ e s h. cc) (csm.client.get key s)
    get_loop_calm (suc left) s = after_get_calm _ (λ e. get_loop_calm left) (csm.client.get key s)

  must_calm : {A : Type 0} (f : Error → Error) (r : Reply A × S) → (must csm f r).0 ≢ panic
  must_calm f (answer a, s) h = cc
  must_calm f (timeout e, s) h = cc
  must_calm f (failure e, s) h = cc

  skip_calm :
      (b : Bool) (s : S) (r : Result (Unit {0}) × S)
      → r.0 ≢ panic
      → (if b then (ok tt, s) else r).0 ≢ panic
  skip_calm true s r n h = cc
  skip_calm false s r n h = n h

  update_state_calm :
      (name id old new : Text) (s : S) → (update_state csm name id old new s).0 ≢ panic
  unfolding update_state
  update_state_calm name id old new s =
      continue_calm _ (leave_state csm name id old s) (skip_calm (old == []) s _ (must_calm _ _))
        (λ u s. skip_calm (new == []) s _ (must_calm _ _))

  module _ (calm : IsCalm) (id name : Text) (evt : Event) (w : Transition)
      (named : evt.transition ≡ some w) where
    pipelined_calm :
        (old : Text) (fsm : FiniteStateMachine) (s : S)
        → (pipelined csm id name old fsm s).0 ≢ panic
    unfolding pipelined
    pipelined_calm old fsm s = continue_calm _ _ (encoded_calm _ (calm.marshals fsm)) (λ b s.
        continue_calm _ _ (update_state_calm name id old fsm.state s) (λ u s. exec_result_calm _))

    txf_calm : (s : S) → (txf csm id name evt s).0 ≢ panic
    unfolding txf get_state_machine get_config
    txf_calm s =
        continue_calm _ _
          (on_err_calm _ _ (get_loop_calm csm.wires.machine _ calm.reads_machine _ s))
          (λ fsm s.
            continue_calm _ _
              (on_err_calm _ _ (get_loop_calm csm.wires.configuration _ calm.reads_config _ s))
              (λ cfg s.
                continue_calm _ _ (sent_machine_calm evt w _ named)
                  (λ moved s. pipelined_calm fsm.state moved s)))

    watched_calm :
        (r : Reply (Unit {0}) × S) → (watched csm id name (txf csm id name evt) r).0 ≢ panic
    watched_calm (answer u, s) h = txf_calm s h
    watched_calm (timeout e, s) h = cc
    watched_calm (failure e, s) h = cc

    after_watch_calm :
        (again : S → Result (Unit {0}) × S)
        → ((s : S) → (again s).0 ≢ panic)
        → (r : Result TxEnd × S) → r.0 ≢ panic
        → (after_watch csm id name again r).0 ≢ panic
    after_watch_calm again k (ok done, s) n h = cc
    after_watch_calm again k (ok conflicted, s) n h = k s h
    after_watch_calm again k (err e, s) n h = cc
    after_watch_calm again k (panic, s) n h = n refl

    tx_rounds_calm : (left : ℕ) (s : S) → (tx_rounds csm id name left evt s).0 ≢ panic
    unfolding tx_rounds watch_txf
    tx_rounds_calm zero s h = cc
    tx_rounds_calm (suc left) s h = after_watch_calm _ (tx_rounds_calm left) _ (watched_calm _) h

    pub tx_process_event_calm : (s : S) → (tx_process_event csm id name evt s).0 ≢ panic
    tx_process_event_calm s = tx_rounds_calm 3 s
