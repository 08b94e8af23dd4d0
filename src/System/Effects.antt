-- ===== src/System/Effects.antt =====
-- pkg/storage/redis_store.go and pkg/grpc/grpc_server.go: what making a
-- machine and a transaction do to the machines and their sets.
use go_statemachine.Prelude.{
  Text, ◌≡◌, ◌≢◌, ◌∙◌, sym, ap, subst, true, false≢true, Bool, not, ◌&&◌, ◌||◌, some, arith, ◌==◌,
  eq_iff,
}
use go_statemachine.Protos.{Event, Configuration, FiniteStateMachine, PutFsmRequest, PutResponse}
use go_statemachine.Go.Result.{ok}
use go_statemachine.Storage.Keys.{new_key_for_machine, new_key_for_machines_by_state}
use go_statemachine.Storage.Keys.Laws.{IsPlain}
use go_statemachine.Storage.Redis.{has, is_absent, Laws}
use go_statemachine.Storage.RedisStore.{RedisStore}
use go_statemachine.Storage.RedisStore.States.{marks, is_in}
use go_statemachine.Storage.RedisStore.Tx.{done, conflicted, txf, watch_txf, tx_process_event}
use go_statemachine.Storage.RedisStore.Tx.Commit.{txf-commits}
use go_statemachine.Storage.RedisStore.Tx.Index.{txf-IsIndexed}
use go_statemachine.Storage.RedisStore.Tx.Rounds.{tx_process_event_first}
use go_statemachine.Storage.RedisStore.Tx.Frame.{tx_process_event-frame}
use go_statemachine.Storage.Manager.{redis_manager}
use go_statemachine.Grpc.Status.{reply}
use go_statemachine.Grpc.Server.{
  GrpcSubscriber, Deadline, with_state, machine_id, put_finite_state_machine,
}
use go_statemachine.Grpc.Server.Written.{Finds, put_finite_state_machine-Written}
use go_statemachine.Grpc.Server.Machines.{put_finite_state_machine-IsIndexed}
use go_statemachine.System.Tracking.{IsTracked, unknown, known, Local, Untouched-IsTracked}

module _ {S Bytes : Type 0} (csm : RedisStore S Bytes) (laws : Laws csm.client) where
  module _ (server : GrpcSubscriber S) where
    pub creates-IsTracked :
        (deadline : Deadline) (fresh : Text) (request : PutFsmRequest) (response : PutResponse)
        (f : FiniteStateMachine) (cfg : Configuration) (s : S)
        → server.store ≡ some (redis_manager csm)
        → IsPlain cfg.name
        → Finds csm request f cfg s
        → is_absent (csm.client.look s (new_key_for_machine (machine_id fresh request) cfg.name))
          ≡ true
        → (put_finite_state_machine server deadline fresh request s).0 ≡ reply response
        → IsTracked csm (machine_id fresh request) cfg.name s
        → IsTracked csm
            (machine_id fresh request)
            cfg.name
            (put_finite_state_machine server deadline fresh request s).1
    creates-IsTracked deadline fresh request response f cfg s m plain finds free h (unknown _ out) =
        known (with_state cfg f) (
          put_finite_state_machine-IsIndexed csm laws server deadline fresh request response f cfg s
            m plain finds out h)
    creates-IsTracked deadline fresh request response f cfg s m plain finds free h
          (known old index) =
        let (b, held, decoded) = index.stored in
        absurd (false≢true (sym (ap is_absent held) ∙ free))

    pub creates-Local :
        (deadline : Deadline) (fresh : Text) (request : PutFsmRequest) (response : PutResponse)
        (f : FiniteStateMachine) (cfg : Configuration) (s : S)
        → server.store ≡ some (redis_manager csm)
        → IsPlain cfg.name
        → Finds csm request f cfg s
        → (put_finite_state_machine server deadline fresh request s).0 ≡ reply response
        → Local csm
            (machine_id fresh request)
            cfg.name
            s
            (put_finite_state_machine server deadline fresh request s).1
    creates-Local deadline fresh request response f cfg s m plain finds h =
        let r =
          put_finite_state_machine-Written csm laws server deadline fresh request response f cfg s m
            plain finds h in
        record {
          kept = r.kept;
          others = λ st x n.
              r.joined st x
              ∙ out (machine_id fresh request) x (marks (with_state cfg f).state st) _ n;
        }
      where
        out : (id x : Text) (b before : Bool) → id ≢ x → (b && id == x || before) ≡ before
        out id x b before n = ground (arith, eq_iff id x)

  -- What a transaction does whose EXEC was not refused.
  module _ (id name : Text) (evt : Event) (s : S) (plain : IsPlain name)
      (returned : (tx_process_event csm id name evt s).0 ≡ ok tt)
      (first : (watch_txf csm id name evt s).0 ≢ ok conflicted) where
    abbrev watching : S
    watching = (csm.client.watch (new_key_for_machine id name) s).1

    same_look : (j : Text) → csm.client.look watching j ≡ csm.client.look s j
    same_look j = laws.look-watch (new_key_for_machine id name) j s

    pub processes-Local : Local csm id name s (tx_process_event csm id name evt s).1
    processes-Local =
        let (ended, state) = tx_process_event_first csm id name evt s returned first in
        let (ran, stored, moved) = txf-commits csm laws id name evt watching plain ended in
        record {
          kept = λ j n m. tx_process_event-frame csm laws id name j n m evt s;
          others = λ st x n.
              ap (λ t. is_in csm name st x t) state
              ∙ moved st x
              ∙ out (marks ran.moved.fsm.state st) (marks ran.fsm.state st) x _ n
              ∙ ap (λ c. has c x) (same_look (new_key_for_machines_by_state name st));
        }
      where
        out :
            (b c : Bool) (x : Text) (before : Bool)
            → id ≢ x
            → (b && id == x || not (c && id == x) && before) ≡ before
        out b c x before n = ground (arith, eq_iff id x)

    pub processes-IsTracked :
        IsTracked csm id name s → IsTracked csm id name (tx_process_event csm id name evt s).1
    processes-IsTracked tracked =
        let (ended, state) = tx_process_event_first csm id name evt s returned first in
        subst (IsTracked csm id name) (sym state) (
          committed ended (
            Untouched-IsTracked csm id name s watching
              (record {
                machine_kept = same_look (new_key_for_machine id name);
                sets_kept =
                    λ st. ap (λ c. has c id) (same_look (new_key_for_machines_by_state name st));
              })
              tracked))
      where
        committed :
            (txf csm id name evt watching).0 ≡ ok done
            → IsTracked csm id name watching
            → IsTracked csm id name (txf csm id name evt watching).1
        committed ended (known fsm index) =
            let (ran, same, after) =
              txf-IsIndexed csm id name laws evt watching fsm plain index ended in
            known ran.moved.fsm after
        committed ended (unknown free out) =
            let (ran, stored, moved) = txf-commits csm laws id name evt watching plain ended in
            let (b, held, decoded) = ran.fsm_read in
            absurd (false≢true (sym (ap is_absent held) ∙ free))
