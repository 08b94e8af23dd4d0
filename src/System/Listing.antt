-- ===== src/System/Listing.antt =====
-- pkg/grpc/grpc_server.go, GetAllInState and StreamAllInstate over a store that the calls of the
-- program have made: the sets that they read are those of the stored machines.
use go_statemachine.Prelude.{
  Text, ◌≡◌, ◌≢◌, ◌↔◌, refl, ◌∙◌, sym, ap, true, false≢true, some, List, [], arith, eq_iff,
}
use go_statemachine.Protos.{FiniteStateMachine, GetFsmRequest}
use go_statemachine.Storage.Keys.{new_key_for_machine, new_key_for_machines_by_state}
use go_statemachine.Storage.Keys.Laws.{IsPlain}
use go_statemachine.Storage.Redis.{Reply, answer, timeout, failure, contains, is_absent, Laws}
use go_statemachine.Storage.RedisStore
use go_statemachine.Storage.RedisStore.{RedisStore, get_state_machine, members_or_nil}
use go_statemachine.Storage.RedisStore.Configs.{IsAnswered}
use go_statemachine.Storage.RedisStore.Values.{Reads}
use go_statemachine.Storage.RedisStore.States.{is_in}
use go_statemachine.Storage.RedisStore.Tx.Index.{Reads-unique}
use go_statemachine.Storage.Manager.{redis_manager}
use go_statemachine.Grpc.Status.{reply}
use go_statemachine.Grpc.Server.{GrpcSubscriber, get_all_in_state}
use go_statemachine.System.Tracking.{IsTracked, unknown, known}
use go_statemachine.System.Consistency.{Reachable, Reachable-IsConsistent}

-- The key of the set that GetAllInState reads.
abbrev pub set_key : GetFsmRequest → Text
set_key request = new_key_for_machines_by_state request.config request.state

-- The machine that is stored for the id is in the state.
abbrev pub IsStoredIn : {S Bytes : Type 0} → RedisStore S Bytes → Text → Text → Text → S → Type 0
IsStoredIn csm name st id s =
    (fsm : FiniteStateMachine) × Reads csm csm.wires.machine (new_key_for_machine id name) fsm s
    × (fsm.state ≡ st)

module _ {S Bytes : Type 0} (csm : RedisStore S Bytes) (laws : Laws csm.client)
    (server : GrpcSubscriber S) (running : server.store ≡ some (redis_manager csm)) where
  listed_iff :
      (name st id : Text) (s : S)
      → st ≢ []
      → IsTracked csm id name s
      → (is_in csm name st id s ≡ true) ↔ IsStoredIn csm name st id s
  listed_iff name st id s n (unknown free out) = (
    λ h. absurd (false≢true (sym (out st n) ∙ h)),
    λ (fsm, (b, held, decoded), e). absurd (false≢true (sym (ap is_absent held) ∙ free)),
  )
  listed_iff name st id s n (known fsm index) = (
    λ h. (fsm, index.stored, (eq_iff fsm.state st).0 (sym (index.listed st n) ∙ h)),
    λ (f, read, e).
        let same : f ≡ fsm = Reads-unique csm csm.wires.machine _ f fsm s read index.stored in
        index.listed st n ∙ (eq_iff fsm.state st).1 (ap (λ f. f.state) (sym same) ∙ e),
  )

  answered :
      (r : Reply (List Text) × S)
      → IsAnswered r.0
      → (l : List Text) × (r.0 ≡ answer l) × (members_or_nil csm r ≡ (l, r.1))
  answered (answer l, s) h = (l, refl, refl)
  answered (timeout e, s) h = elim h [ ]
  answered (failure e, s) h = elim h [ ]

  -- A reply is what SMEMBERS answered.
  pub replied :
      (request : GetFsmRequest) (s : S) (ids : List Text)
      → IsAnswered (csm.client.smembers (set_key request) s).0
      → (get_all_in_state server request s).0 ≡ reply ids
      → (request.state ≢ [])
        × ((csm.client.smembers (set_key request) s).0 ≡ answer ids)
        × ((get_all_in_state server request s).1 ≡ (csm.client.smembers (set_key request) s).1)
  unfolding get_all_in_state RedisStore.get_all_in_state
  replied request s ids a h =
      let (l, e, same) = answered (csm.client.smembers (set_key request) s) a in
      ground (arith, eq_iff request.state [], eq_iff request.config [])

  -- In a store that the calls of `Step` have made, for a configuration name without # and :, if
  -- SMEMBERS is answered: what GetAllInState replies is exactly the ids of the machines that are
  -- stored in the state. Among these calls, those of PutFiniteStateMachine and TxProcessEvent have
  -- configuration names without # and :, those of PutFiniteStateMachine reply, for ids without a
  -- machine and configurations stored under their own identifiers, and those of TxProcessEvent
  -- return nil, their first EXEC not refused.
  pub get_all_in_state_iff :
      (request : GetFsmRequest) (s : S) (ids : List Text) (id : Text)
      → Reachable csm laws server s
      → IsPlain request.config
      → IsAnswered (csm.client.smembers (set_key request) s).0
      → (get_all_in_state server request s).0 ≡ reply ids
      → (contains id ids ≡ true) ↔ IsStoredIn csm request.config request.state id s
  get_all_in_state_iff request s ids id r plain a h =
      let (n, e, same) = replied request s ids a h in
      let all = laws.smembers_iff (set_key request) id s ids e in
      let (there, back) =
        listed_iff request.config request.state id s n
          (Reachable-IsConsistent csm laws server running r id request.config plain) in
      (λ m. there (sym all ∙ m), λ stored. all ∙ back stored)
