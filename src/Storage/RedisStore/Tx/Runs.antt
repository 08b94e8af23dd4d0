-- ===== src/Storage/RedisStore/Tx/Runs.antt =====
-- pkg/storage/redis_store.go, TxProcessEvent: what a run of the transaction reads and sends before it
-- writes.
use go_statemachine.Prelude.{Text, ◌≡◌, refl, ◌∙◌, sym, ap, arith}
use go_statemachine.Protos.{Event, Configuration, FiniteStateMachine}
use go_statemachine.Go.Result.{Error, Result, ok, err, panic}
use go_statemachine.Go.Action.{Action, lift, on_err, ◌>>=◌, continue-eq-ok}
use go_statemachine.Api.Machine.{ConfiguredStateMachine, send_event}
use go_statemachine.Storage.Keys.{new_key_for_config, new_key_for_machine}
use go_statemachine.Storage.Errors.{not_found_error}
use go_statemachine.Storage.Redis.{Laws}
use go_statemachine.Storage.RedisStore.{RedisStore, get_config, get_state_machine}
use go_statemachine.Storage.RedisStore.Values.{Reads, look-get, get_sound}
use go_statemachine.Storage.RedisStore.Tx.{TxEnd, sent_machine, pipelined, txf}

pub sent_ok :
    (r : Result (Unit {0}) × ConfiguredStateMachine) (fsm : FiniteStateMachine)
    → sent_machine r ≡ ok fsm
    → (x : ConfiguredStateMachine) × (r ≡ (ok tt, x)) × (x.fsm ≡ fsm)
sent_ok (ok u, x) fsm h = (x, refl, ground arith)
sent_ok (err e, x) fsm h = cc
sent_ok (panic, x) fsm h = cc

pub on_err_ok :
    {S A : Type 0} (f : Error → Error) (r : Result A × S) (a : A)
    → (on_err f r).0 ≡ ok a
    → r.0 ≡ ok a
on_err_ok f (ok b, s) a h = h
on_err_ok f (err e, s) a h = cc
on_err_ok f (panic, s) a h = cc

pub on_err_state : {S A : Type 0} (f : Error → Error) (r : Result A × S) → (on_err f r).1 ≡ r.1
on_err_state f (ok b, s) = refl
on_err_state f (err e, s) = refl
on_err_state f (panic, s) = refl

module _ {S Bytes : Type 0} (csm : RedisStore S Bytes) (laws : Laws csm.client)
    (id name : Text) where
  -- The stored machine, its stored configuration, and the machine that the event makes of it.
  pub record Ran (evt : Event) (s : S) : Type 0 where
    pub fsm : FiniteStateMachine
    pub cfg : Configuration
    pub moved : ConfiguredStateMachine
    pub fsm_read : Reads csm csm.wires.machine (new_key_for_machine id name) fsm s
    pub cfg_read : Reads csm csm.wires.configuration (new_key_for_config fsm.config_id) cfg s
    pub sent : send_event evt (record { config = cfg; fsm = fsm }) ≡ (ok tt, moved)
    pub start : S
    pub unchanged : (j : Text) → csm.client.look start j ≡ csm.client.look s j
    pub result : txf csm id name evt s ≡ pipelined csm id name fsm.state moved.fsm start

  Reads-cast :
      (s t : S) (key : Text) (cfg : Configuration)
      → ((j : Text) → csm.client.look t j ≡ csm.client.look s j)
      → Reads csm csm.wires.configuration key cfg t
      → Reads csm csm.wires.configuration key cfg s
  Reads-cast s t key cfg same (b, held, decoded) = (b, sym (same key) ∙ held, decoded)

  abbrev pub with_config : Event → FiniteStateMachine → Configuration → Action S TxEnd
  with_config evt fsm cfg =
      lift (sent_machine (send_event evt (record { config = cfg; fsm = fsm })))
      >>= pipelined csm id name fsm.state

  abbrev pub with_machine : Event → FiniteStateMachine → Action S TxEnd
  with_machine evt fsm =
      (λ s. on_err not_found_error (get_config csm fsm.config_id s)) >>= with_config evt fsm

  -- Every run that gets as far as EXEC has read both, and sent the event.
  pub txf-Ran : (evt : Event) (s : S) (end : TxEnd) → (txf csm id name evt s).0 ≡ ok end → Ran evt s
  unfolding txf get_state_machine get_config
  txf-Ran evt s end h =
      let read = get_state_machine csm id name s in
      let first = on_err (λ e. not_found_error (new_key_for_machine id name)) read in
      let (fsm, found, by_machine) = continue-eq-ok (with_machine evt) first h in
      let config_of = get_config csm fsm.config_id first.1 in
      let second = on_err not_found_error config_of in
      let (cfg, known, by_config) =
        continue-eq-ok (with_config evt fsm) second (ap (λ r. r.0) (sym by_machine) ∙ h) in
      let sent = send_event evt (record { config = cfg; fsm = fsm }) in
      let (next, accepted, by_event) =
        continue-eq-ok (pipelined csm id name fsm.state) (sent_machine sent, second.1)
          (ap (λ r. r.0) (sym (by_machine ∙ by_config)) ∙ h) in
      let (x, is_sent, same_fsm) = sent_ok sent next accepted in
      let kept_1 : (j : Text) → csm.client.look first.1 j ≡ csm.client.look s j = λ j.
        ap (λ t. csm.client.look t j) (on_err_state _ read)
        ∙ look-get csm laws csm.wires.machine (new_key_for_machine id name) j s in
      let kept_2 : (j : Text) → csm.client.look second.1 j ≡ csm.client.look first.1 j = λ j.
        ap (λ t. csm.client.look t j) (on_err_state _ config_of)
        ∙ look-get csm laws csm.wires.configuration (new_key_for_config fsm.config_id) j first.1 in
      record {
        fsm = fsm;
        cfg = cfg;
        moved = x;
        fsm_read =
            get_sound csm laws csm.wires.machine (new_key_for_machine id name) fsm s
              (on_err_ok _ read fsm found);
        cfg_read = Reads-cast s first.1 (new_key_for_config fsm.config_id) cfg kept_1 (
            get_sound csm laws csm.wires.configuration (new_key_for_config fsm.config_id) cfg
              first.1 (on_err_ok _ config_of cfg known));
        sent = is_sent;
        start = second.1;
        unchanged = λ j. kept_2 j ∙ kept_1 j;
        result =
            by_machine
            ∙ by_config
            ∙ by_event
            ∙ ap (λ (f : FiniteStateMachine). pipelined csm id name fsm.state f second.1)
                (sym same_fsm);
      }
