-- ===== src/Storage/RedisStore/Tx/Commit.antt =====
-- pkg/storage/redis_store.go, TxProcessEvent: what one run of the transaction does to the store.
use go_statemachine.Prelude.{
  Text, ◌≡◌, ◌≢◌, refl, ◌∙◌, sym, ap, subst, not, ◌&&◌, ◌||◌, [], ◌∷◌, ◌==◌,
}
use go_statemachine.Protos.{Event, FiniteStateMachine}
use go_statemachine.Go.Result.{Result, ok, err, panic}
use go_statemachine.Go.Action.{Action, ◌>>=◌, continue-eq-ok}
use go_statemachine.Storage.Keys.{new_key_for_machine, new_key_for_machines_by_state}
use go_statemachine.Storage.Keys.Laws.{machine, by_state, IsPlain, key_text_injective}
use go_statemachine.Storage.Redis.{ExecReply, committed, tx_failed, exec_failure, has, Laws}
use go_statemachine.Storage.RedisStore.{RedisStore, update_state}
use go_statemachine.Storage.RedisStore.Values.{Stored}
use go_statemachine.Storage.RedisStore.States.{marks, is_in, update_state_lem}
use go_statemachine.Storage.RedisStore.Tx.{
  TxEnd, done, conflicted, exec_result, encoded, pipelined, txf,
}
use go_statemachine.Storage.RedisStore.Tx.Runs.{Ran, txf-Ran}

machine_key_ne :
    (id name st : Text)
    → IsPlain name
    → new_key_for_machines_by_state name st ≢ new_key_for_machine id name
machine_key_ne id name st p e =
    differ (key_text_injective (by_state name st) (machine id name) p p e)
  where
    differ : by_state name st ≡ machine id name → ⊥
    differ h = cc

encoded_ok : {Bytes : Type 0} (r : Result Bytes) (b : Bytes) → encoded r ≡ ok b → r ≡ ok b
encoded_ok (ok c) b h = h
encoded_ok (err e) b h = cc
encoded_ok panic b h = cc

pub exec_result_done :
    {S : Type 0} (r : ExecReply × S) → (exec_result r).0 ≡ ok done → r.0 ≡ committed
exec_result_done (committed, s) h = refl
exec_result_done (tx_failed, s) h = cc
exec_result_done (exec_failure e, s) h = cc

exec_result_conflicted :
    {S : Type 0} (r : ExecReply × S) → (exec_result r).0 ≡ ok conflicted → r.0 ≡ tx_failed
exec_result_conflicted (committed, s) h = cc
exec_result_conflicted (tx_failed, s) h = refl
exec_result_conflicted (exec_failure e, s) h = cc

pub exec_result_state : {S : Type 0} (r : ExecReply × S) → (exec_result r).1 ≡ r.1
exec_result_state (committed, s) = refl
exec_result_state (tx_failed, s) = refl
exec_result_state (exec_failure e, s) = refl

-- The state sets of `name` after the machine has gone from one state to another.
abbrev pub MovedSets :
    {S Bytes : Type 0} → RedisStore S Bytes → Text → Text → Text → Text → S → S → Type 0
MovedSets csm id name old new s s' =
    (st x : Text)
    → is_in csm name st x s'
      ≡ (marks new st && id == x || not (marks old st && id == x) && is_in csm name st x s)

module _ {S Bytes : Type 0} (csm : RedisStore S Bytes) (laws : Laws csm.client)
    (id name : Text) where
  abbrev pub write_machine : Text → FiniteStateMachine → Bytes → Action S TxEnd
  write_machine old fsm b = (update_state csm name id old fsm.state) >>= λ _ s.
      exec_result (csm.client.exec ((new_key_for_machine id name, b) ∷ []) s)

  abbrev pub exec_at : Bytes → S → ExecReply × S
  exec_at b = csm.client.exec ((new_key_for_machine id name, b) ∷ [])

  -- What the pipeline has done when EXEC has replied.
  pub record Piped (old : Text) (fsm : FiniteStateMachine) (s : S) : Type 0 where
    pub bytes : Bytes
    pub is_encoded : csm.wires.machine.marshal fsm ≡ ok bytes
    pub updated : (update_state csm name id old fsm.state s).0 ≡ ok tt
    pub result :
        pipelined csm id name old fsm s
        ≡ exec_result (exec_at bytes (update_state csm name id old fsm.state s).1)

  pub pipelined-Piped :
      (old : Text) (fsm : FiniteStateMachine) (s : S) (end : TxEnd)
      → (pipelined csm id name old fsm s).0 ≡ ok end
      → Piped old fsm s
  unfolding pipelined
  pipelined-Piped old fsm s end h =
      let (b, is_encoded, by_bytes) =
        continue-eq-ok (write_machine old fsm) (encoded (csm.wires.machine.marshal fsm), s) h in
      let (u, updated, by_update) =
        continue-eq-ok (λ _ s. exec_result (exec_at b s)) (update_state csm name id old fsm.state s)
          (ap (λ r. r.0) (sym by_bytes) ∙ h) in
      record {
        bytes = b;
        is_encoded = encoded_ok _ b is_encoded;
        updated = updated;
        result = by_bytes ∙ by_update;
      }

  pipelined-MovedSets :
      (old : Text) (fsm : FiniteStateMachine) (s : S)
      → IsPlain name
      → (p : Piped old fsm s)
      → MovedSets csm id name old fsm.state s
          (exec_at p.bytes (update_state csm name id old fsm.state s).1).1
  pipelined-MovedSets old fsm s plain p st x =
      ap (λ c. has c x)
        (laws.exec_frame (new_key_for_machine id name) (new_key_for_machines_by_state name st)
          p.bytes (update_state csm name id old fsm.state s).1
          (λ e. machine_key_ne id name st plain (sym e)))
      ∙ update_state_lem csm laws name id old fsm.state st x s p.updated

  MovedSets-cast :
      (old new : Text) (s t s' : S)
      → ((j : Text) → csm.client.look t j ≡ csm.client.look s j)
      → MovedSets csm id name old new t s'
      → MovedSets csm id name old new s s'
  MovedSets-cast old new s t s' same m st x =
      m st x
      ∙ ap (λ c. marks new st && id == x || not (marks old st && id == x) && has c x)
          (same (new_key_for_machines_by_state name st))

  ended :
      (evt : Event) (s : S) (end : TxEnd) (ran : Ran csm laws id name evt s)
      → (txf csm id name evt s).0 ≡ ok end
      → (pipelined csm id name ran.fsm.state ran.moved.fsm ran.start).0 ≡ ok end
  ended evt s end ran h = ap (λ r. r.0) (sym ran.result) ∙ h

  -- A run that commits has stored the machine that the event makes of the stored one, and has moved
  -- its id between the state sets.
  pub txf-commits :
      (evt : Event) (s : S)
      → IsPlain name
      → (txf csm id name evt s).0 ≡ ok done
      → (ran : Ran csm laws id name evt s) × Stored csm csm.wires.machine
          (new_key_for_machine id name)
          ran.moved.fsm
          (txf csm id name evt s).1
        × MovedSets csm id name ran.fsm.state ran.moved.fsm.state s (txf csm id name evt s).1
  txf-commits evt s plain h =
      let ran = txf-Ran csm laws id name evt s done h in
      let p = pipelined-Piped ran.fsm.state ran.moved.fsm ran.start done (ended evt s done ran h) in
      let mid = (update_state csm name id ran.fsm.state ran.moved.fsm.state ran.start).1 in
      let reply = exec_at p.bytes mid in
      let state : (txf csm id name evt s).1 ≡ reply.1 =
        ap (λ (r : Result TxEnd × S). r.1) (ran.result ∙ p.result) ∙ exec_result_state reply in
      let answered = exec_result_done reply (ap (λ r. r.0) (sym (ran.result ∙ p.result)) ∙ h) in
      (
        ran,
        (
          p.bytes,
          p.is_encoded,
          ap (λ t. csm.client.look t (new_key_for_machine id name)) state
              ∙ laws.exec_committed (new_key_for_machine id name) p.bytes mid answered,
        ),
        subst (λ t. MovedSets csm id name ran.fsm.state ran.moved.fsm.state s t) (sym state)
            (MovedSets-cast ran.fsm.state ran.moved.fsm.state s ran.start reply.1 ran.unchanged
              (pipelined-MovedSets ran.fsm.state ran.moved.fsm ran.start plain p)),
      )
