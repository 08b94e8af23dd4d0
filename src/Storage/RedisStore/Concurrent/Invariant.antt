-- ===== src/Storage/RedisStore/Concurrent/Invariant.antt =====
-- pkg/storage/redis_store.go, TxProcessEvent by clients that take turns between their commands: what
-- holds behind every command, and no update is lost.
use go_statemachine.Prelude.{
  ℕ, suc, Text, ◌≡◌, refl, ◌∙◌, subst, Bool, true, false, nat_eq, length, if◌then◌else◌, arith,
}
use go_statemachine.Protos.{FiniteStateMachine}
use go_statemachine.Go.Result.{ok}
use go_statemachine.Storage.Keys.{new_key_for_machine}
use go_statemachine.Storage.Keys.Laws.{IsPlain}
use go_statemachine.Storage.Redis.{value, Laws}
use go_statemachine.Storage.RedisStore.{RedisStore}
use go_statemachine.Storage.RedisStore.Values.{Reads}
use go_statemachine.Storage.RedisStore.Tx.Index.{Reads-unique}
use go_statemachine.Storage.RedisStore.Concurrent.{
  Plan, Phase, idle, Cluster, set_phase, goes, wrote, KeepsConfigs, Step, watches, reads, prepares,
  leaves, enters, commits, conflicts, fails_before, fails_after, gives_up, puts, elsewhere,
  Reachable, starts, later,
}
use go_statemachine.Storage.RedisStore.Concurrent.Serial.{
  Serial, unchanged, sends, overwrites, Serial-keeps, event_ids, trail, Serial-trail,
}
use go_statemachine.Storage.RedisStore.Concurrent.Kept.{
  Quiet, KnowsConfig-keeps, unchanged-Quiet, get_state_machine-Quiet, get_state_machine_sound,
  get_config_sound, get_config-Quiet, leave_state-Quiet, enter_state-Quiet, exec_of-KeepsConfigs,
}
use go_statemachine.Storage.RedisStore.Concurrent.Fresh.{
  Holds, IsPrepared, IsFresh, IsFresh-Quiet, IsFresh-written,
}

-- What holds of the phase of one client holds of the others.
set_phase-All :
    (P : Phase → Type 0) (c : ℕ) (p : Phase) (clients : ℕ → Phase)
    → P p
    → ((d : ℕ) → P (clients d))
    → (d : ℕ) → P (set_phase c p clients d)
set_phase-All P c p clients h all d = choose (nat_eq c d)
  where
    choose : (b : Bool) → P (if b then p else clients d)
    choose true = h
    choose false = all d

module _ {S Bytes : Type 0} (csm : RedisStore S Bytes) (id name : Text) where
  -- The stored machine is the one that the writes come to.
  record Follows (start : FiniteStateMachine) (g : Cluster S) : Type 0 where
    pub current : FiniteStateMachine
    pub stored : Holds csm id name current g.store
    pub serial : Serial csm start g.store g.log current
    pub fresh : (c : ℕ) → IsFresh csm id name (length g.log) g.store (g.clients c)

  -- A command that does not write the machine.
  Quiet-Follows :
      {start : FiniteStateMachine} (g : Cluster S) (t : S) (clients : ℕ → Phase)
      → Follows start g
      → Quiet csm id name g.store t
      → ((d : ℕ) → IsFresh csm id name (length g.log) t (clients d))
      → Follows start (record g { store = t; clients = clients })
  Quiet-Follows g t clients f q fresh = record {
    current = f.current;
    stored = (f.stored.0, q.machine_kept ∙ f.stored.1, f.stored.2);
    serial = Serial-keeps csm (KnowsConfig-keeps csm q.configs_kept) f.serial;
    fresh = fresh;
  }

  goes-Follows :
      {start : FiniteStateMachine} (c : ℕ) (p : Phase) (t : S) (g : Cluster S)
      → Follows start g
      → Quiet csm id name g.store t
      → IsFresh csm id name (length g.log) g.store p
      → Follows start (goes c p t g)
  goes-Follows c p t g f q h =
      let n = length g.log in
      Quiet-Follows g t (set_phase c p g.clients) f q (
        set_phase-All (IsFresh csm id name n t) c p g.clients
          (IsFresh-Quiet csm id name n g.store t p q h)
          (λ d. IsFresh-Quiet csm id name n g.store t (g.clients d) q (f.fresh d)))

  module _ (laws : Laws csm.client) (plain : IsPlain name) where
    -- What a client has prepared is on top of the stored machine, if no write came in between.
    wrote-Follows :
        {start : FiniteStateMachine} (c : ℕ) (p : Plan) (b : Bytes) (t : S) (g : Cluster S)
        → Follows start g
        → IsPrepared csm id name (length g.log) g.store p
        → length g.log ≡ p.attempt.seen
        → csm.wires.machine.marshal p.moved.fsm ≡ ok b
        → csm.client.look t (new_key_for_machine id name) ≡ value b
        → KeepsConfigs csm g.store t
        → Follows start (wrote c p t g)
    wrote-Follows {start} c p b t g f h fits m held keep =
        let n = length g.log in
        let same =
          Reads-unique csm csm.wires.machine (new_key_for_machine id name) f.current p.fsm g.store
            f.stored (h.read.current fits) in
        let known = KnowsConfig-keeps csm keep in
        record {
          current = p.moved.fsm;
          stored = (b, held, csm.wires.machine.unmarshal-marshal p.moved.fsm b m);
          serial =
              sends p (subst (Serial csm start t g.log) same (Serial-keeps csm known f.serial))
                (known p h.known) h.answered;
          fresh =
              set_phase-All (IsFresh csm id name (suc n) t) c idle g.clients tt
                (λ d. IsFresh-written csm id name n g.store t (g.clients d) keep (f.fresh d));
        }

    Step-Follows :
        {start : FiniteStateMachine} {g g' : Cluster S}
        → Step csm id name g g'
        → Follows start g
        → Follows start g'
    Step-Follows {g} (watches c evt at_idle h) f =
        goes-Follows c _ _ g f (unchanged-Quiet csm id name (λ j. laws.look-watch _ j g.store))
          (omega arith)
    Step-Follows {g} (reads c a fsm at h) f =
        let seen = subst (IsFresh csm id name (length g.log) g.store) at (f.fresh c) in
        goes-Follows c _ _ g f (get_state_machine-Quiet csm id name laws g.store) (record {
          seen-le = seen;
          current = λ e. get_state_machine_sound csm id name laws fsm g.store h;
        })
    Step-Follows {g} (prepares c p at h sent_ok) f =
        goes-Follows c _ _ g f (get_config-Quiet csm id name laws p.fsm.config_id g.store) (record {
          read = subst (IsFresh csm id name (length g.log) g.store) at (f.fresh c);
          known = get_config_sound csm id name laws p g.store h;
          answered = sent_ok;
        })
    Step-Follows {g} (leaves c p at h) f =
        goes-Follows c _ _ g f (leave_state-Quiet csm id name laws plain p.fsm.state g.store)
          (subst (IsFresh csm id name (length g.log) g.store) at (f.fresh c))
    Step-Follows {g} (enters c p at h) f =
        goes-Follows c _ _ g f (enter_state-Quiet csm id name laws plain p.moved.fsm.state g.store)
          (subst (IsFresh csm id name (length g.log) g.store) at (f.fresh c))
    Step-Follows {g} (commits c p b at m done fits) f =
        wrote-Follows c p b _ g f
          (subst (IsFresh csm id name (length g.log) g.store) at (f.fresh c)) fits m
          (laws.exec_committed _ b g.store done)
          (exec_of-KeepsConfigs csm id name laws plain b g.store)
    Step-Follows {g} (conflicts c p b at h n) f =
        goes-Follows c idle _ g f
          (unchanged-Quiet csm id name (λ j. laws.exec_tx_failed _ j b g.store h)) tt
    Step-Follows {g} (fails_before c p b e at h same) f =
        goes-Follows c idle _ g f
          (record {
            machine_kept = same;
            configs_kept = exec_of-KeepsConfigs csm id name laws plain b g.store;
          })
          tt
    Step-Follows {g} (fails_after c p b e at m h held fits) f =
        wrote-Follows c p b _ g f
          (subst (IsFresh csm id name (length g.log) g.store) at (f.fresh c)) fits m held
          (exec_of-KeepsConfigs csm id name laws plain b g.store)
    Step-Follows {g} (gives_up c) f =
        goes-Follows c idle _ g f (unchanged-Quiet csm id name (λ j. refl)) tt
    Step-Follows {g} (puts fsm b t m held keep) f = record {
      current = fsm;
      stored = (b, held, csm.wires.machine.unmarshal-marshal fsm b m);
      serial = overwrites fsm (Serial-keeps csm (KnowsConfig-keeps csm keep) f.serial);
      fresh =
          λ d. IsFresh-written csm id name (length g.log) g.store t (g.clients d) keep (f.fresh d);
    }
    Step-Follows {g} (elsewhere t same keep) f =
        let q : Quiet csm id name g.store t = record { machine_kept = same; configs_kept = keep } in
        Quiet-Follows g t g.clients f q
          (λ d. IsFresh-Quiet csm id name (length g.log) g.store t (g.clients d) q (f.fresh d))

    Reachable-Follows :
        {start : FiniteStateMachine} {g : Cluster S}
        → Reachable csm id name start g
        → Follows start g
    Reachable-Follows {start} (starts s h) = record {
      current = start;
      stored = h;
      serial = unchanged;
      fresh = λ c. tt;
    }
    Reachable-Follows (later r st) = Step-Follows st (Reachable-Follows r)

    -- However the clients take turns, no update is lost, where PutStateMachine and the changes of other
    -- keys in between overwrite no stored configuration. For a configuration name without # and :, the
    -- key holds at every moment a machine that the writes so far make out of the first one, each on top
    -- of the one before it; and the ids in its history are those of the machine that was put last, or
    -- else of the first one, and of the transactions that committed behind it, in the order of their
    -- commits.
    pub Reachable-Serial :
        (start : FiniteStateMachine) (g : Cluster S)
        → Reachable csm id name start g
        → (fsm : FiniteStateMachine) × Reads csm csm.wires.machine
            (new_key_for_machine id name)
            fsm
            g.store
          × Serial csm start g.store g.log fsm
          × (event_ids fsm ≡ trail start g.log)
    Reachable-Serial start g r =
        let f = Reachable-Follows r in
        (f.current, f.stored, f.serial, Serial-trail csm start f.current g.store g.log f.serial)
