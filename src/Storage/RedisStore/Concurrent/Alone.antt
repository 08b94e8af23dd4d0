-- ===== src/Storage/RedisStore/Concurrent/Alone.antt =====
-- pkg/storage/redis_store.go, TxProcessEvent: a run of the transaction that nobody interrupts, as
-- commands of one client.
use go_statemachine.Prelude.{ℕ, Text, ◌≡◌, refl, ◌∙◌, sym, ap, true, ◌∷◌, nat_eq, length, arith}
use go_statemachine.Protos.{Event, Configuration, FiniteStateMachine}
use go_statemachine.Go.Result.{Result, ok}
use go_statemachine.Go.Action.{on_err, continue-eq-ok}
use go_statemachine.Api.Machine.{ConfiguredStateMachine, send_event}
use go_statemachine.Storage.Keys.{new_key_for_machine}
use go_statemachine.Storage.Errors.{not_found_error}
use go_statemachine.Storage.Redis.{Reply, answer, timeout, failure, committed, Laws}
use go_statemachine.Storage.RedisStore.{
  RedisStore, leave_state, enter_state, update_state, get_config, get_state_machine,
}
use go_statemachine.Storage.RedisStore.Tx.{
  TxEnd, done, sent_machine, exec_result, pipelined, txf, watched, watch_txf,
}
use go_statemachine.Storage.RedisStore.Tx.Runs.{
  sent_ok, on_err_ok, on_err_state, with_config, with_machine,
}
use go_statemachine.Storage.RedisStore.Tx.Commit.{
  exec_at, exec_result_done, exec_result_state, pipelined-Piped,
}
use go_statemachine.Storage.RedisStore.Concurrent.{
  Attempt, Plan, Phase, idle, watching, has_read, ready, left, entered, was_sent, Cluster,
  set_phase, goes, wrote, watches, reads, prepares, leaves, enters, commits, Reachable, later,
}

set_phase_own : (c : ℕ) (p : Phase) (clients : ℕ → Phase) → set_phase c p clients c ≡ p
set_phase_own c p clients = let e : nat_eq c c ≡ true = ground arith in rw e

module _ {S Bytes : Type 0} (csm : RedisStore S Bytes) (laws : Laws csm.client)
    (id name : Text) where
  watched_ok :
      (body : S → Result TxEnd × S) (r : Reply (Unit {0}) × S)
      → (watched csm id name body r).0 ≡ ok done
      → (r.0 ≡ answer tt) × (watched csm id name body r ≡ body r.1)
  watched_ok body (answer u, s) h = (refl, refl)
  watched_ok body (timeout e, s) h = cc
  watched_ok body (failure e, s) h = cc

  abbrev read_at : S → S
  read_at s = (get_state_machine csm id name s).1

  abbrev config_at : FiniteStateMachine → S → S
  config_at fsm s = (get_config csm fsm.config_id (read_at s)).1

  abbrev left_at : FiniteStateMachine → S → S
  left_at fsm s = (leave_state csm name id fsm.state (config_at fsm s)).1

  abbrev entered_at : FiniteStateMachine → FiniteStateMachine → S → S
  entered_at fsm moved s = (enter_state csm name id moved.state (left_at fsm s)).1

  -- What each command of `txf` has replied where there was no error.
  record Sequence (evt : Event) (s : S) : Type 0 where
    pub fsm : FiniteStateMachine
    pub cfg : Configuration
    pub moved : ConfiguredStateMachine
    pub bytes : Bytes
    pub found : (get_state_machine csm id name s).0 ≡ ok fsm
    pub known : (get_config csm fsm.config_id (read_at s)).0 ≡ ok cfg
    pub answered : send_event evt (record { config = cfg; fsm = fsm }) ≡ (ok tt, moved)
    pub is_encoded : csm.wires.machine.marshal moved.fsm ≡ ok bytes
    pub has_left : (leave_state csm name id fsm.state (config_at fsm s)).0 ≡ ok tt
    pub has_entered : (enter_state csm name id moved.fsm.state (left_at fsm s)).0 ≡ ok tt
    pub done_there : (exec_at csm laws id name bytes (entered_at fsm moved.fsm s)).0 ≡ committed
    pub result :
        (txf csm id name evt s).1 ≡ (exec_at csm laws id name bytes (entered_at fsm moved.fsm s)).1

  -- The pipeline, by the commands of UpdateState.
  updates :
      (old new : Text) (s : S)
      → (update_state csm name id old new s).0 ≡ ok tt
      → ((leave_state csm name id old s).0 ≡ ok tt)
        × ((enter_state csm name id new (leave_state csm name id old s).1).0 ≡ ok tt)
        × (update_state csm name id old new s
            ≡ enter_state csm name id new (leave_state csm name id old s).1)
  unfolding update_state
  updates old new s h =
      let (u, gone, by_leave) =
        continue-eq-ok (λ _. enter_state csm name id new) (leave_state csm name id old s) h in
      (gone, ap (λ r. r.0) (sym by_leave) ∙ h, by_leave)

  -- What follows the two reads.
  reads-Sequence :
      (evt : Event) (s : S) (fsm : FiniteStateMachine) (cfg : Configuration)
      → (get_state_machine csm id name s).0 ≡ ok fsm
      → (get_config csm fsm.config_id (read_at s)).0 ≡ ok cfg
      → txf csm id name evt s ≡ with_config csm laws id name evt fsm cfg (config_at fsm s)
      → (txf csm id name evt s).0 ≡ ok done
      → Sequence evt s
  reads-Sequence evt s fsm cfg found known path h =
      let t = config_at fsm s in
      let event_sent = send_event evt (record { config = cfg; fsm = fsm }) in
      let (next, accepted, by_event) =
        continue-eq-ok (pipelined csm id name fsm.state) (sent_machine event_sent, t)
          (ap (λ r. r.0) (sym path) ∙ h) in
      let (x, is_sent, same_fsm) = sent_ok event_sent next accepted in
      let to_pipeline : txf csm id name evt s ≡ pipelined csm id name fsm.state x.fsm t =
        path
        ∙ by_event
        ∙ ap (λ (f : FiniteStateMachine). pipelined csm id name fsm.state f t) (sym same_fsm) in
      let piped =
        pipelined-Piped csm laws id name fsm.state x.fsm t done
          (ap (λ r. r.0) (sym to_pipeline) ∙ h) in
      let (gone, there, by_update) = updates fsm.state x.fsm.state t piped.updated in
      let to_exec =
        to_pipeline
        ∙ piped.result
        ∙ ap (λ (r : Result (Unit {0}) × S). exec_result (exec_at csm laws id name piped.bytes r.1))
            by_update in
      record {
        fsm = fsm;
        cfg = cfg;
        moved = x;
        bytes = piped.bytes;
        found = found;
        known = known;
        answered = is_sent;
        is_encoded = piped.is_encoded;
        has_left = gone;
        has_entered = there;
        done_there = exec_result_done _ (ap (λ r. r.0) (sym to_exec) ∙ h);
        result = ap (λ r. r.1) to_exec ∙ exec_result_state _;
      }

  txf-Sequence : (evt : Event) (s : S) → (txf csm id name evt s).0 ≡ ok done → Sequence evt s
  txf-Sequence evt s h =
      let read = get_state_machine csm id name s in
      let first = on_err (λ e. not_found_error (new_key_for_machine id name)) read in
      let (fsm, found, by_machine) =
        continue-eq-ok (with_machine csm laws id name evt) first {b = done} (unfold txf in h) in
      let to_config : txf csm id name evt s ≡ with_machine csm laws id name evt fsm read.1 =
        unfold txf in
        by_machine ∙ ap (with_machine csm laws id name evt fsm) (on_err_state _ read) in
      let config_of = get_config csm fsm.config_id read.1 in
      let (cfg, known, by_config) =
        continue-eq-ok (with_config csm laws id name evt fsm) (on_err not_found_error config_of)
          (ap (λ r. r.0) (sym to_config) ∙ h) in
      reads-Sequence evt s fsm cfg (on_err_ok _ read fsm found) (on_err_ok _ config_of cfg known)
        (to_config
          ∙ by_config
          ∙ ap (with_config csm laws id name evt fsm cfg) (on_err_state _ config_of))
        h

  -- The commands of one client, one after the other.
  run_alone :
      (start : FiniteStateMachine) (c : ℕ) (evt : Event) (g : Cluster S)
      → Reachable csm id name start g
      → g.clients c ≡ idle
      → (csm.client.watch (new_key_for_machine id name) g.store).0 ≡ answer tt
      → (q : Sequence evt (csm.client.watch (new_key_for_machine id name) g.store).1)
      → (g' : Cluster S) × Reachable csm id name start g'
        × (g'.store
            ≡ (txf csm id name evt (csm.client.watch (new_key_for_machine id name) g.store).1).1)
        × ((p : Plan) × (g'.log ≡ was_sent p ∷ g.log) × (p.attempt.evt ≡ evt))
  run_alone start c evt g r free w q =
      let a : Attempt = record { evt = evt; seen = length g.log } in
      let p : Plan = record { attempt = a; fsm = q.fsm; cfg = q.cfg; moved = q.moved } in
      let s = (csm.client.watch (new_key_for_machine id name) g.store).1 in
      let g1 : Cluster S = goes c (watching a) s g in
      let g2 : Cluster S = goes c (has_read a q.fsm) (read_at s) g1 in
      let g3 : Cluster S = goes c (ready p) (config_at q.fsm s) g2 in
      let g4 : Cluster S = goes c (left p) (left_at q.fsm s) g3 in
      let g5 : Cluster S = goes c (entered p) (entered_at q.fsm q.moved.fsm s) g4 in
      let r1 : Reachable csm id name start g1 = later r (watches c evt free w) in
      let r2 : Reachable csm id name start g2 =
        later r1 (reads c a q.fsm (set_phase_own c _ g.clients) q.found) in
      let r3 : Reachable csm id name start g3 =
        later r2 (prepares c p (set_phase_own c _ g1.clients) q.known q.answered) in
      let r4 : Reachable csm id name start g4 =
        later r3 (leaves c p (set_phase_own c _ g2.clients) q.has_left) in
      let r5 : Reachable csm id name start g5 =
        later r4 (enters c p (set_phase_own c _ g3.clients) q.has_entered) in
      (
        wrote c p (exec_at csm laws id name q.bytes g5.store).1 g5,
        later r5
            (commits c p q.bytes (set_phase_own c _ g4.clients) q.is_encoded q.done_there refl),
        sym q.result,
        (p, refl, refl),
      )

  -- If no other client interrupts it, a round of TxProcessEvent that returns nil is a sequence of the
  -- commands of an idle client: from a moment that clients who take turns can reach, they reach one
  -- with the store that the round leaves, and with one more write, a transaction of its event.
  pub watch_txf-Reachable :
      (start : FiniteStateMachine) (c : ℕ) (evt : Event) (g : Cluster S)
      → Reachable csm id name start g
      → g.clients c ≡ idle
      → (watch_txf csm id name evt g.store).0 ≡ ok done
      → (g' : Cluster S) × Reachable csm id name start g'
        × (g'.store ≡ (watch_txf csm id name evt g.store).1)
        × ((p : Plan) × (g'.log ≡ was_sent p ∷ g.log) × (p.attempt.evt ≡ evt))
  unfolding watch_txf
  watch_txf-Reachable start c evt g r free h =
      let key = new_key_for_machine id name in
      let (w, by_watch) = watched_ok (txf csm id name evt) (csm.client.watch key g.store) h in
      let q =
        txf-Sequence evt (csm.client.watch key g.store).1 (ap (λ r. r.0) (sym by_watch) ∙ h) in
      let (g', reached, same, (p, logged, about)) = run_alone start c evt g r free w q in
      (g', reached, same ∙ ap (λ r. r.1) (sym by_watch), (p, logged, about))
