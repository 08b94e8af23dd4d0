-- ===== src/Grpc/Server/Written.antt =====
-- pkg/grpc/grpc_server.go, PutFiniteStateMachine over the Redis store: what its two writes do.
use go_statemachine.Prelude.{
  Text, ◌≡◌, ◌≢◌, ◌∙◌, sym, ap, subst, Bool, not, ◌&&◌, ◌||◌, some, [], arith, ◌==◌, eq_refl,
}
use go_statemachine.Protos.{Configuration, FiniteStateMachine, PutFsmRequest, PutResponse}
use go_statemachine.Go.Result.{Error, Result, ok}
use go_statemachine.Go.Strings.{split, head}
use go_statemachine.Go.Strings.Laws.{head-split-append}
use go_statemachine.Api.Configuration.{get_version_id}
use go_statemachine.Storage.Keys.{
  new_key_for_config, new_key_for_machine, new_key_for_machines_by_state,
}
use go_statemachine.Storage.Keys.Laws.{IsPlain, machine_key_ne}
use go_statemachine.Storage.Errors.{not_found_error}
use go_statemachine.Storage.Redis.{has, Laws}
use go_statemachine.Storage.RedisStore.{
  RedisStore, put, never_expire, get_config, put_state_machine, update_state,
}
use go_statemachine.Storage.RedisStore.Values.{
  Reads, Stored, look-get, look-put, put-Stored, get_sound,
}
use go_statemachine.Storage.RedisStore.States.{marks, is_in, update_state_lem, update_state-frame}
use go_statemachine.Storage.RedisStore.Tx.Index.{Reads-unique}
use go_statemachine.Storage.Manager.{redis_manager}
use go_statemachine.Grpc.Status.{Rpc, reply, status, raw, after, after_reply, failed_precondition}
use go_statemachine.Grpc.Server.{
  GrpcSubscriber, Deadline, pending, passed, in_time, with_state, machine_id, put_machine,
  put_finite_state_machine,
}

module _ {S Bytes : Type 0} (csm : RedisStore S Bytes) where
  -- What the call finds: the machine of the request, and the stored configuration that it names.
  abbrev pub Finds : PutFsmRequest → FiniteStateMachine → Configuration → S → Type 0
  Finds request f cfg w =
      (request.fsm ≡ some f)
      × (get_version_id cfg ≡ f.config_id)
      × Reads csm csm.wires.configuration (new_key_for_config f.config_id) cfg w

module _ {S Bytes : Type 0} (csm : RedisStore S Bytes) (laws : Laws csm.client) where
  -- A reply of the writes means that the machine is stored, that its id has joined the set of its
  -- state, if that has a name, that no other id has joined or left a set, and that all other keys
  -- are as they were.
  pub record Written (id : Text) (cfg : Configuration) (f : FiniteStateMachine) (w w' : S)
      : Type 0 where
    pub stored : Stored csm csm.wires.machine (new_key_for_machine id cfg.name) f w'
    pub joined :
        (st x : Text)
        → is_in csm cfg.name st x w' ≡ (marks f.state st && id == x || is_in csm cfg.name st x w)
    pub kept :
        (j : Text)
        → new_key_for_machine id cfg.name ≢ j
        → ((st : Text) → new_key_for_machines_by_state cfg.name st ≢ j)
        → csm.client.look w' j ≡ csm.client.look w j

  joins_or :
      (id x new st : Text) (before : Bool)
      → (marks new st && id == x || not (marks [] st && id == x) && before)
        ≡ (marks new st && id == x || before)
  joins_or id x new st before = ground (arith, eq_refl [])

  -- The two writes, with the key that the first one makes.
  writes_Written :
      (id : Text) (cfg : Configuration) (f : FiniteStateMachine) (w : S)
      → IsPlain cfg.name
      → (put csm csm.wires.machine (new_key_for_machine id cfg.name) f never_expire w).0 ≡ ok tt
      → (update_state csm cfg.name id [] f.state
          (put csm csm.wires.machine (new_key_for_machine id cfg.name) f never_expire w).1).0
        ≡ ok tt
      → Written id cfg f w
          (update_state csm cfg.name id [] f.state
            (put csm csm.wires.machine (new_key_for_machine id cfg.name) f never_expire w).1).1
  writes_Written id cfg f w plain puts joins =
      let key = new_key_for_machine id cfg.name in
      let after_put = (put csm csm.wires.machine key f never_expire w).1 in
      let (b, encoded, held) = put-Stored csm laws csm.wires.machine key f w puts in
      record {
        stored = (
          b,
          encoded,
          update_state-frame csm laws cfg.name id [] f.state key after_put
                (λ st e. machine_key_ne id cfg.name cfg.name st plain plain (sym e))
              ∙ held,
        );
        joined = λ st x.
            update_state_lem csm laws cfg.name id [] f.state st x after_put joins
            ∙ joins_or id x f.state st _
            ∙ ap (λ c. marks f.state st && id == x || has c x)
                (look-put csm laws csm.wires.machine key f never_expire
                  (new_key_for_machines_by_state cfg.name st) w
                  (machine_key_ne id cfg.name cfg.name st plain plain));
        kept = λ j n m.
            update_state-frame csm laws cfg.name id [] f.state j after_put m
            ∙ look-put csm laws csm.wires.machine key f never_expire j w n;
      }

  put_machine-Written :
      (id : Text) (cfg : Configuration) (f : FiniteStateMachine) (w : S) (response : PutResponse)
      → IsPlain cfg.name
      → get_version_id cfg ≡ f.config_id
      → (put_machine (redis_manager csm) id cfg f w).0 ≡ reply response
      → Written id cfg f w (put_machine (redis_manager csm) id cfg f w).1
  unfolding put_state_machine
  put_machine-Written id cfg f w response plain version h =
      let name : head (split f.config_id b':') ≡ cfg.name =
        ap (λ x. head (split x b':')) (sym version)
        ∙ head-split-append b':' cfg.name cfg.version plain.1 in
      let named : put_state_machine csm id (some f) w
          ≡ put csm csm.wires.machine (new_key_for_machine id cfg.name) f never_expire w =
        ap (λ n. put csm csm.wires.machine (new_key_for_machine id n) f never_expire w) name in
      let (u, puts, rest) =
        after_reply _ _ (put_state_machine csm id (some f) w) response (λ e s z. cc) h in
      let (v, joins, last) =
        after_reply _ _
          (update_state csm cfg.name id [] f.state (put_state_machine csm id (some f) w).1) response
          (λ e s z. cc) (ap (λ r. r.0) (sym rest) ∙ h) in
      subst (λ r. Written id cfg f w r.1) (sym (rest ∙ last))
        (subst
          (λ (r : Result (Unit {0}) × S).
            Written id cfg f w (update_state csm cfg.name id [] f.state r.1).1)
          (sym named)
          (writes_Written id cfg f w plain (ap (λ r. r.0) (sym named) ∙ puts) (
            subst
              (λ (r : Result (Unit {0}) × S).
                (update_state csm cfg.name id [] f.state r.1).0 ≡ ok tt)
              named joins)))

  Written-before :
      (id : Text) (cfg : Configuration) (f : FiniteStateMachine) (before w w' : S)
      → ((j : Text) → csm.client.look w j ≡ csm.client.look before j)
      → Written id cfg f w w'
      → Written id cfg f before w'
  Written-before id cfg f before w w' same r = record {
    stored = r.stored;
    joined = λ st x.
        r.joined st x
        ∙ ap (λ c. marks f.state st && id == x || has c x)
            (same (new_key_for_machines_by_state cfg.name st));
    kept = λ j n m. r.kept j n m ∙ same j;
  }

  abbrev put_found :
      Deadline
      → Text
      → PutFsmRequest
      → FiniteStateMachine
      → Result Configuration × S
      → Rpc PutResponse × S
  put_found deadline fresh request f =
      after
        (λ cfg.
          in_time deadline
            (put_machine (redis_manager csm) (machine_id fresh request) cfg (with_state cfg f)))
        (λ e w. (status failed_precondition (not_found_error f.config_id), w))

  put_found-Written :
      (deadline : Deadline) (fresh : Text) (request : PutFsmRequest) (response : PutResponse)
      (f : FiniteStateMachine) (cfg : Configuration) (w : S)
      → IsPlain cfg.name
      → Finds csm request f cfg w
      → (put_found deadline fresh request f (get_config csm f.config_id w)).0 ≡ reply response
      → Written
          (machine_id fresh request)
          cfg
          (with_state cfg f)
          w
          (put_found deadline fresh request f (get_config csm f.config_id w)).1
  unfolding get_config
  put_found-Written (passed e) fresh request response f cfg w plain (asked, version, reads) h =
      let (c, got, rest) =
        after_reply _ _ (get_config csm f.config_id w) response (λ e s z. cc) h in
      absurd (late e response (ap (λ r. r.0) (sym rest) ∙ h))
    where
      late : (e : Error) (b : PutResponse) → ◌≡◌ {A = Rpc PutResponse} (raw e) (reply b) → ⊥
      late e b h = cc
  put_found-Written pending fresh request response f cfg w plain (asked, version, reads) h =
      let key = new_key_for_config f.config_id in
      let found = get_config csm f.config_id w in
      let (c, got, rest) = after_reply _ _ found response (λ e s z. cc) h in
      let same : c ≡ cfg =
        Reads-unique csm csm.wires.configuration key c cfg w
          (get_sound csm laws csm.wires.configuration key c w got) reads in
      let ends =
        rest
        ∙ ap
            (λ c.
              put_machine (redis_manager csm) (machine_id fresh request) c (with_state c f) found.1)
            same in
      Written-before (machine_id fresh request) cfg (with_state cfg f) w found.1 _
        (λ j. look-get csm laws csm.wires.configuration key j w)
        (subst (λ r. Written (machine_id fresh request) cfg (with_state cfg f) found.1 r.1)
          (sym ends)
          (put_machine-Written (machine_id fresh request) cfg (with_state cfg f) found.1 response
            plain version (ap (λ r. r.0) (sym ends) ∙ h)))

  module _ (server : GrpcSubscriber S) where
    pub put_finite_state_machine-Written :
        (deadline : Deadline) (fresh : Text) (request : PutFsmRequest) (response : PutResponse)
        (f : FiniteStateMachine) (cfg : Configuration) (w : S)
        → server.store ≡ some (redis_manager csm)
        → IsPlain cfg.name
        → Finds csm request f cfg w
        → (put_finite_state_machine server deadline fresh request w).0 ≡ reply response
        → Written
            (machine_id fresh request)
            cfg
            (with_state cfg f)
            w
            (put_finite_state_machine server deadline fresh request w).1
    unfolding put_finite_state_machine
    put_finite_state_machine-Written deadline fresh request response f cfg w m plain finds h =
        let ends : put_finite_state_machine server deadline fresh request w
            ≡ put_found deadline fresh request f (get_config csm f.config_id w) =
          rw (finds.0, m) in
        subst (λ r. Written (machine_id fresh request) cfg (with_state cfg f) w r.1) (sym ends)
          (put_found-Written deadline fresh request response f cfg w plain finds
            (ap (λ r. r.0) (sym ends) ∙ h))
