-- ===== src/Grpc/Server/Machines.antt =====
-- pkg/grpc/grpc_server.go, PutFiniteStateMachine over the Redis store: the machines and the sets of
-- the machines in a state.
use go_statemachine.Prelude.{
  Text, ◌≡◌, ◌≢◌, ◌∙◌, Bool, false, ◌&&◌, ◌||◌, some, [], arith, ◌==◌, eq_iff, eq_refl,
}
use go_statemachine.Protos.{Configuration, FiniteStateMachine, PutFsmRequest, PutResponse}
use go_statemachine.Storage.Keys.Laws.{IsPlain}
use go_statemachine.Storage.Redis.{Laws}
use go_statemachine.Storage.RedisStore.{RedisStore}
use go_statemachine.Storage.RedisStore.States.{marks, is_in}
use go_statemachine.Storage.RedisStore.Tx.Index.{IsIndexed, Reads-of_Stored}
use go_statemachine.Storage.Manager.{redis_manager}
use go_statemachine.Grpc.Status.{reply}
use go_statemachine.Grpc.Server.{
  GrpcSubscriber, Deadline, with_state, machine_id, put_finite_state_machine,
}
use go_statemachine.Grpc.Server.Written.{Finds, put_finite_state_machine-Written}

module _ {S Bytes : Type 0} (csm : RedisStore S Bytes) (laws : Laws csm.client)
    (server : GrpcSubscriber S) where
  -- If PutFiniteStateMachine replies for an id that was in no state set of the configuration's
  -- name, the machine is stored, in the starting state if it had none, and exactly the set of
  -- its state holds its id (the configuration stored under its own identifier, its name without
  -- # and :).
  pub put_finite_state_machine-IsIndexed :
      (deadline : Deadline) (fresh : Text) (request : PutFsmRequest) (response : PutResponse)
      (f : FiniteStateMachine) (cfg : Configuration) (w : S)
      → server.store ≡ some (redis_manager csm)
      → IsPlain cfg.name
      → Finds csm request f cfg w
      → ((st : Text) → st ≢ [] → is_in csm cfg.name st (machine_id fresh request) w ≡ false)
      → (put_finite_state_machine server deadline fresh request w).0 ≡ reply response
      → IsIndexed csm
          (machine_id fresh request)
          cfg.name
          (with_state cfg f)
          (put_finite_state_machine server deadline fresh request w).1
  put_finite_state_machine-IsIndexed deadline fresh request response f cfg w m plain finds new h =
      let r =
        put_finite_state_machine-Written csm laws server deadline fresh request response f cfg w m
          plain finds h in
      record {
        stored = Reads-of_Stored csm csm.wires.machine _ _ _ r.stored;
        listed = λ st n. r.joined st id ∙ alone (with_state cfg f).state st _ n (new st n);
      }
    where
      id : Text
      id = machine_id fresh request

      alone :
          (state st : Text) (before : Bool)
          → st ≢ []
          → before ≡ false
          → (marks state st && id == id || before) ≡ (state == st)
      alone state st before n e = ground (arith, eq_refl id, eq_iff state [], eq_iff state st)

  -- If PutFiniteStateMachine replies for an id that was in exactly the set of another state,
  -- which has a name, then it is not in exactly the set of the new state afterwards (the
  -- configuration stored under its own identifier, its name without # and :).
  pub put_finite_state_machine-not-IsIndexed :
      (deadline : Deadline) (fresh : Text) (request : PutFsmRequest) (response : PutResponse)
      (f old : FiniteStateMachine) (cfg : Configuration) (w : S)
      → server.store ≡ some (redis_manager csm)
      → IsPlain cfg.name
      → Finds csm request f cfg w
      → IsIndexed csm (machine_id fresh request) cfg.name old w
      → old.state ≢ []
      → old.state ≢ (with_state cfg f).state
      → (put_finite_state_machine server deadline fresh request w).0 ≡ reply response
      → ¬ IsIndexed csm
          (machine_id fresh request)
          cfg.name
          (with_state cfg f)
          (put_finite_state_machine server deadline fresh request w).1
  put_finite_state_machine-not-IsIndexed deadline fresh request response f old cfg w m plain finds
        index named moved h now =
      let r =
        put_finite_state_machine-Written csm laws server deadline fresh request response f cfg w m
          plain finds h in
      both old.state (with_state cfg f).state _ _ moved (index.listed old.state named)
        (now.listed old.state named) (r.joined old.state id)
    where
      id : Text
      id = machine_id fresh request

      both :
          (old new : Text) (before afterwards : Bool)
          → old ≢ new
          → before ≡ (old == old)
          → afterwards ≡ (new == old)
          → afterwards ≡ (marks new old && id == id || before)
          → ⊥
      both old new before afterwards n a b c =
          ground (arith, eq_refl old, eq_refl id, eq_iff new old)
