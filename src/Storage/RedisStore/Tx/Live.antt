-- ===== src/Storage/RedisStore/Tx/Live.antt =====
-- pkg/storage/redis_store.go, TxProcessEvent on a server that answers: it returns nil.
use go_statemachine.Prelude.{
  ℕ, zero, suc, Text, ◌≡◌, refl, ◌∙◌, sym, ap, subst, Bool, true, false, Bool-cases, inl, inr,
  Option, some, [], ◌∷◌, ◌==◌, eq_iff, false≢true, if◌then◌else◌,
}
use go_statemachine.Protos.{Event, Configuration, FiniteStateMachine}
use go_statemachine.Go.Result.{Error, Result, ok, err, panic}
use go_statemachine.Go.Action.{continue_ok, Action, on_err, continue}
use go_statemachine.Api.Machine.{ConfiguredStateMachine, send_event}
use go_statemachine.Storage.Keys.{
  new_key_for_config, new_key_for_machine, new_key_for_machines_by_state,
}
use go_statemachine.Storage.Errors.{not_found_error}
use go_statemachine.Storage.Redis.{
  Reply, answer, ExecReply, committed, Cell, absent, value, members, Client, Wire, Laws,
}
use go_statemachine.Storage.RedisStore.{
  RedisStore, after_get, get_loop, get, decrement, must, leave_state, enter_state, update_state,
  get_config, get_state_machine,
}
use go_statemachine.Storage.RedisStore.Values.{Reads, look-get}
use go_statemachine.Storage.RedisStore.Tx.{
  done, sent_machine, exec_result, encoded, pipelined, txf, watched, watch_txf, after_watch,
  tx_rounds, tx_process_event,
}
use go_statemachine.Storage.RedisStore.Tx.Runs.{with_config, with_machine}
use go_statemachine.Storage.RedisStore.Tx.Commit.{write_machine, exec_at}

-- SADD and SREM are commands for sets.
abbrev pub HoldsSet : {Bytes : Type 0} → Cell Bytes → Type 0
HoldsSet absent = Unit
HoldsSet (value b) = ⊥
HoldsSet (members xs) = Unit

-- In the states of `P` the server answers at once each command that fits what is at its key, and
-- refuses no EXEC.
pub record Responsive {S Bytes : Type 0} (r : Client S Bytes) (P : S → Type 0) : Type 0 where
  pub gets :
      (k : Text) (b : Bytes) (s : S)
      → P s
      → r.look s k ≡ value b
      → ((r.get k s).0 ≡ answer (some b)) × P (r.get k s).1
  pub watches : (k : Text) (s : S) → P s → ((r.watch k s).0 ≡ answer tt) × P (r.watch k s).1
  pub adds :
      (k a : Text) (s : S)
      → P s
      → HoldsSet (r.look s k)
      → ((r.sadd k a s).0 ≡ answer tt) × P (r.sadd k a s).1
  pub removes :
      (k a : Text) (s : S)
      → P s
      → HoldsSet (r.look s k)
      → ((r.srem k a s).0 ≡ answer tt) × P (r.srem k a s).1 × HoldsSet (r.look (r.srem k a s).1 k)
  pub commits : (k : Text) (b : Bytes) (s : S) → P s → (r.exec ((k, b) ∷ []) s).0 ≡ committed

on_err_of_ok :
    {S A : Type 0} (f : Error → Error) (r : Result A × S) (a : A)
    → r.0 ≡ ok a
    → on_err f r ≡ (ok a, r.1)
on_err_of_ok f (ok b, s) a h = ap (λ (r : Result _). on_err f (r, s)) h
on_err_of_ok f (err e, s) a h = cc
on_err_of_ok f (panic, s) a h = cc

module _ {S Bytes : Type 0} (csm : RedisStore S Bytes) where
  after_get_ok :
      {A : Type 0} (w : Wire Bytes A) (key : Text) (again : Error → Action S A) (a : A) (b : Bytes)
      (r : Reply (Option Bytes) × S)
      → r.0 ≡ answer (some b)
      → w.unmarshal b ≡ ok a
      → after_get csm w key again r ≡ (ok a, r.1)
  after_get_ok w key again a b (r, s) h e =
      ap (λ r. after_get csm w key again (r, s)) h ∙ ap (λ (v : Result _). (v, s)) e

  get_loop_ok :
      {A : Type 0} (w : Wire Bytes A) (key : Text) (left : ℕ) (a : A) (b : Bytes) (s : S)
      → (csm.client.get key s).0 ≡ answer (some b)
      → w.unmarshal b ≡ ok a
      → get_loop csm w key left s ≡ (ok a, (csm.client.get key s).1)
  unfolding get_loop
  get_loop_ok w key zero a b s h e = after_get_ok w key _ a b (csm.client.get key s) h e
  get_loop_ok w key (suc left) a b s h e = after_get_ok w key _ a b (csm.client.get key s) h e

  must_ok :
      {A : Type 0} (f : Error → Error) (r : Reply A × S) (a : A)
      → r.0 ≡ answer a
      → must csm f r ≡ (ok a, r.1)
  must_ok f (r, s) a h = ap (λ r. must csm f (r, s)) h

  module _ (laws : Laws csm.client) (P : S → Type 0) (live : Responsive csm.client P)
      (id name : Text) where
    get_lives :
        {A : Type 0} (w : Wire Bytes A) (key : Text) (a : A) (s : S)
        → P s
        → Reads csm w key a s
        → ((get csm w key s).0 ≡ ok a) × P (get csm w key s).1
    get_lives w key a s p (b, held, decoded) =
        let (h, q) = live.gets key b s p held in
        let e = get_loop_ok w key (decrement csm.max_retries) a b s h decoded in
        (ap (λ r. r.0) e, subst P (ap (λ r. r.1) (sym e)) q)

    -- Every state set of the name is one, in a state of `P`.
    abbrev Sets : S → Type 0
    Sets s = (st : Text) → HoldsSet (csm.client.look s (new_key_for_machines_by_state name st))

    abbrev Left : Result (Unit {0}) × S → Type 0
    Left r = (r.0 ≡ ok tt) × P r.1 × Sets r.1

    abbrev Entered : Result (Unit {0}) × S → Type 0
    Entered r = (r.0 ≡ ok tt) × P r.1

    skip {ℓ} :
        (Q : Result (Unit {0}) × S → Type ℓ) (b : Bool) (s : S) (r : Result (Unit {0}) × S)
        → Q (ok tt, s)
        → Q r
        → Q (if b then (ok tt, s) else r)
    skip Q true s r p q = p
    skip Q false s r p q = q

    leave_lives : (old : Text) (s : S) → P s → Sets s → Left (leave_state csm name id old s)
    leave_lives old s p sets =
        let key = new_key_for_machines_by_state name old in
        let (h, q, own) = live.removes key id s p (sets old) in
        skip Left (old == []) s _ (refl, p, sets)
          (subst Left (sym (must_ok _ (csm.client.srem key id s) tt h)) (
            refl,
            q,
            λ st. elim (Bool-cases (key == new_key_for_machines_by_state name st)) [
              | inl same ↦
                  subst (λ j. HoldsSet (csm.client.look (csm.client.srem key id s).1 j))
                    ((eq_iff key _).0 same) own
              | inr other ↦
                  subst HoldsSet
                    (sym (
                      laws.srem_frame key _ id s
                        (λ e. false≢true (sym other ∙ (eq_iff key _).1 e))))
                    (sets st)
            ],
          ))

    enter_lives : (new : Text) (s : S) → P s → Sets s → Entered (enter_state csm name id new s)
    enter_lives new s p sets =
        let key = new_key_for_machines_by_state name new in
        let (h, q) = live.adds key id s p (sets new) in
        skip Entered (new == []) s _ (refl, p)
          (subst Entered (sym (must_ok _ (csm.client.sadd key id s) tt h)) (refl, q))

    update_lives :
        (old new : Text) (s : S) → P s → Sets s → Entered (update_state csm name id old new s)
    unfolding update_state
    update_lives old new s p sets =
        let left = leave_state csm name id old s in
        let (h, q, sets') = leave_lives old s p sets in
        subst Entered (sym (continue_ok (λ _. enter_state csm name id new) left tt h))
          (enter_lives new left.1 q sets')

    pipelined_lives :
        (old : Text) (fsm : FiniteStateMachine) (b : Bytes) (s : S)
        → csm.wires.machine.marshal fsm ≡ ok b
        → P s
        → Sets s
        → (pipelined csm id name old fsm s).0 ≡ ok done
    unfolding pipelined
    pipelined_lives old fsm b s m p sets =
        let key = new_key_for_machine id name in
        let updated = update_state csm name id old fsm.state s in
        let (h, q) = update_lives old fsm.state s p sets in
        ap (λ r. r.0)
          (ap (λ v. continue (write_machine csm laws id name old fsm) (encoded v, s)) m
            ∙ continue_ok (λ _ s. exec_result (exec_at csm laws id name b s)) updated tt h)
        ∙ ap (λ (v : ExecReply). (exec_result (v, (exec_at csm laws id name b updated.1).1)).0)
            (live.commits key b updated.1 q)

    txf_lives :
        (evt : Event) (fsm : FiniteStateMachine) (cfg : Configuration) (x : ConfiguredStateMachine)
        (b : Bytes) (s : S)
        → P s
        → Sets s
        → Reads csm csm.wires.machine (new_key_for_machine id name) fsm s
        → Reads csm csm.wires.configuration (new_key_for_config fsm.config_id) cfg s
        → send_event evt (record { config = cfg; fsm = fsm }) ≡ (ok tt, x)
        → csm.wires.machine.marshal x.fsm ≡ ok b
        → (txf csm id name evt s).0 ≡ ok done
    unfolding txf get_state_machine get_config
    txf_lives evt fsm cfg x b s p sets reads_fsm (c, held, decoded) sent m =
        let key = new_key_for_machine id name in
        let read = get_state_machine csm id name s in
        let (got, q) = get_lives csm.wires.machine key fsm s p reads_fsm in
        let kept = λ (j : Text). look-get csm laws csm.wires.machine key j s in
        let config_of = get_config csm fsm.config_id read.1 in
        let (known, q') =
          get_lives csm.wires.configuration (new_key_for_config fsm.config_id) cfg read.1 q
            (c, kept _ ∙ held, decoded) in
        let kept' = λ (j : Text).
          look-get csm laws csm.wires.configuration (new_key_for_config fsm.config_id) j read.1
          ∙ kept j in
        ap (λ r. r.0)
          (ap (continue (with_machine csm laws id name evt)) (on_err_of_ok _ read fsm got)
            ∙ ap (continue (with_config csm laws id name evt fsm))
                (on_err_of_ok not_found_error config_of cfg known)
            ∙ ap
                (λ (r : Result (Unit {0}) × ConfiguredStateMachine).
                  continue (pipelined csm id name fsm.state) (sent_machine r, config_of.1))
                sent)
        ∙ pipelined_lives fsm.state x.fsm b config_of.1 m q'
            (λ st. subst HoldsSet (sym (kept' _)) (sets st))

    -- On a server that answers, TxProcessEvent returns nil if the machine and its configuration are
    -- stored, SendEvent takes the event, the machine that it makes can be encoded, and the keys of
    -- the state sets hold sets.
    pub tx_process_event_lives :
        (evt : Event) (fsm : FiniteStateMachine) (cfg : Configuration) (x : ConfiguredStateMachine)
        (b : Bytes) (s : S)
        → P s
        → ((st : Text) → HoldsSet (csm.client.look s (new_key_for_machines_by_state name st)))
        → Reads csm csm.wires.machine (new_key_for_machine id name) fsm s
        → Reads csm csm.wires.configuration (new_key_for_config fsm.config_id) cfg s
        → send_event evt (record { config = cfg; fsm = fsm }) ≡ (ok tt, x)
        → csm.wires.machine.marshal x.fsm ≡ ok b
        → (tx_process_event csm id name evt s).0 ≡ ok tt
    unfolding tx_rounds watch_txf
    tx_process_event_lives evt fsm cfg x b s p sets (d, held, decoded) (c, held', decoded') sent m =
        let key = new_key_for_machine id name in
        let (h, q) = live.watches key s p in
        let watch = csm.client.watch key s in
        let same = λ (j : Text). laws.look-watch key j s in
        let ends =
          txf_lives evt fsm cfg x b watch.1 q (λ st. subst HoldsSet (sym (same _)) (sets st))
            (d, same _ ∙ held, decoded) (c, same _ ∙ held', decoded') sent m in
        ap
          (λ r.
            (after_watch csm id name (tx_rounds csm id name 2 evt)
              (watched csm id name (txf csm id name evt) (r, watch.1))).0)
          h
        ∙ ap
            (λ r.
              (after_watch csm id name (tx_rounds csm id name 2 evt)
                (r, (txf csm id name evt watch.1).1)).0)
            ends
