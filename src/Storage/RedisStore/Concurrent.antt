-- ===== src/Storage/RedisStore/Concurrent.antt =====
-- pkg/storage/redis_store.go, TxProcessEvent for one machine, by any number of clients that share the
-- Redis server and take turns between their commands.
pub mod Serial
pub mod Kept
pub mod Fresh
pub mod Invariant
pub mod Alone
use go_statemachine.Prelude.{ℕ, Text, ◌≡◌, ◌≢◌, ◌++◌, List, [], ◌∷◌, nat_eq, length, if◌then◌else◌}
use go_statemachine.Protos.{Event, Configuration, FiniteStateMachine}
use go_statemachine.Go.Result.{Error, ok}
use go_statemachine.Api.Machine.{ConfiguredStateMachine, send_event}
use go_statemachine.Storage.Keys.{new_key_for_config, new_key_for_machine}
use go_statemachine.Storage.Redis.{
  answer, ExecReply, committed, tx_failed, exec_failure, absent, value,
}
use go_statemachine.Storage.RedisStore.{
  RedisStore, leave_state, enter_state, get_config, get_state_machine,
}
use go_statemachine.Storage.RedisStore.Values.{Reads}

-- A transaction behind its WATCH: its event, and how many times the machine had been written then.
pub record Attempt : Type 0 where
  pub evt : Event
  pub seen : ℕ

-- A transaction behind SendEvent: what it has read, and the machine that it will write.
pub record Plan : Type 0 where
  pub attempt : Attempt
  pub fsm : FiniteStateMachine
  pub cfg : Configuration
  pub moved : ConfiguredStateMachine

-- Where a client is in `txf`: in no transaction, behind WATCH, behind GetStateMachine, behind
-- SendEvent, behind the SREM of UpdateState, and behind its SADD.
pub data Phase : Type 0 where
  idle : Phase
  watching : Attempt → Phase
  has_read : Attempt → FiniteStateMachine → Phase
  ready left entered : Plan → Phase

-- A write of the machine's key: by a transaction, or by PutStateMachine.
pub data Write : Type 0 where
  was_sent : Plan → Write
  was_put : FiniteStateMachine → Write

-- The server, the clients, and the writes of the machine's key so far, the last one first.
pub record Cluster (S : Type 0) : Type 0 where
  pub store : S
  pub clients : ℕ → Phase
  pub log : List Write

abbrev pub set_phase : ℕ → Phase → (ℕ → Phase) → ℕ → Phase
set_phase c p clients d = if nat_eq c d then p else clients d

abbrev pub goes : {S : Type 0} → ℕ → Phase → S → Cluster S → Cluster S
goes c p s g = record g { store = s; clients = set_phase c p g.clients }

-- The client has written.
abbrev pub wrote : {S : Type 0} → ℕ → Plan → S → Cluster S → Cluster S
wrote c p s g = record { store = s; clients = set_phase c idle g.clients; log = was_sent p ∷ g.log }

module _ {S Bytes : Type 0} (csm : RedisStore S Bytes) where
  -- No configuration that is stored is overwritten: PutConfig refuses to, if EXISTS is answered.
  abbrev pub KeepsConfigs : S → S → Type 0
  KeepsConfigs s t =
      (i : Text)
      → csm.client.look s (new_key_for_config i) ≢ absent
      → csm.client.look t (new_key_for_config i) ≡ csm.client.look s (new_key_for_config i)

module _ {S Bytes : Type 0} (csm : RedisStore S Bytes) (id name : Text) where
  abbrev pub exec_of : Bytes → S → ExecReply × S
  exec_of b = csm.client.exec ((new_key_for_machine id name, b) ∷ [])

  -- One command of one client, or a change that does not touch the machine's key. A GET that times
  -- out is repeated within the step. As documented for WATCH, an EXEC commits only if the key was
  -- not written since, and is refused only if it was; one that fails has run or has not.
  pub data Step (g : Cluster S) : Cluster S → Type 0 where
    watches :
        (c : ℕ) (evt : Event)
        → g.clients c ≡ idle
        → (csm.client.watch (new_key_for_machine id name) g.store).0 ≡ answer tt
        → Step g (
            goes c
              (watching (record { evt = evt; seen = length g.log }))
              (csm.client.watch (new_key_for_machine id name) g.store).1
              g)
    reads :
        (c : ℕ) (a : Attempt) (fsm : FiniteStateMachine)
        → g.clients c ≡ watching a
        → (get_state_machine csm id name g.store).0 ≡ ok fsm
        → Step g (goes c (has_read a fsm) (get_state_machine csm id name g.store).1 g)
    prepares :
        (c : ℕ) (p : Plan)
        → g.clients c ≡ has_read p.attempt p.fsm
        → (get_config csm p.fsm.config_id g.store).0 ≡ ok p.cfg
        → send_event p.attempt.evt (record { config = p.cfg; fsm = p.fsm }) ≡ (ok tt, p.moved)
        → Step g (goes c (ready p) (get_config csm p.fsm.config_id g.store).1 g)
    leaves :
        (c : ℕ) (p : Plan)
        → g.clients c ≡ ready p
        → (leave_state csm name id p.fsm.state g.store).0 ≡ ok tt
        → Step g (goes c (left p) (leave_state csm name id p.fsm.state g.store).1 g)
    enters :
        (c : ℕ) (p : Plan)
        → g.clients c ≡ left p
        → (enter_state csm name id p.moved.fsm.state g.store).0 ≡ ok tt
        → Step g (goes c (entered p) (enter_state csm name id p.moved.fsm.state g.store).1 g)
    commits :
        (c : ℕ) (p : Plan) (b : Bytes)
        → g.clients c ≡ entered p
        → csm.wires.machine.marshal p.moved.fsm ≡ ok b
        → (exec_of b g.store).0 ≡ committed
        → length g.log ≡ p.attempt.seen
        → Step g (wrote c p (exec_of b g.store).1 g)
    conflicts :
        (c : ℕ) (p : Plan) (b : Bytes)
        → g.clients c ≡ entered p
        → (exec_of b g.store).0 ≡ tx_failed
        → length g.log ≢ p.attempt.seen
        → Step g (goes c idle (exec_of b g.store).1 g)
    fails_before :
        (c : ℕ) (p : Plan) (b : Bytes) (e : Error)
        → g.clients c ≡ entered p
        → (exec_of b g.store).0 ≡ exec_failure e
        → csm.client.look (exec_of b g.store).1 (new_key_for_machine id name)
          ≡ csm.client.look g.store (new_key_for_machine id name)
        → Step g (goes c idle (exec_of b g.store).1 g)
    fails_after :
        (c : ℕ) (p : Plan) (b : Bytes) (e : Error)
        → g.clients c ≡ entered p
        → csm.wires.machine.marshal p.moved.fsm ≡ ok b
        → (exec_of b g.store).0 ≡ exec_failure e
        → csm.client.look (exec_of b g.store).1 (new_key_for_machine id name) ≡ value b
        → length g.log ≡ p.attempt.seen
        → Step g (wrote c p (exec_of b g.store).1 g)
    gives_up : (c : ℕ) → Step g (goes c idle g.store g)
    -- PutStateMachine, whatever it returns, if its SET has run
    puts :
        (fsm : FiniteStateMachine) (b : Bytes) (s : S)
        → csm.wires.machine.marshal fsm ≡ ok b
        → csm.client.look s (new_key_for_machine id name) ≡ value b
        → KeepsConfigs csm g.store s
        → Step g (record g { store = s; log = was_put fsm ∷ g.log })
    elsewhere :
        (s : S)
        → csm.client.look s (new_key_for_machine id name)
          ≡ csm.client.look g.store (new_key_for_machine id name)
        → KeepsConfigs csm g.store s
        → Step g (record g { store = s })

  -- Any number of steps, from a server that holds the machine, with no transaction begun.
  pub data Reachable (start : FiniteStateMachine) : Cluster S → Type 0 where
    starts :
        (s : S)
        → Reads csm csm.wires.machine (new_key_for_machine id name) start s
        → Reachable start (record { store = s; clients = λ c. idle; log = [] })
    later : {g g' : Cluster S} → Reachable start g → Step g g' → Reachable start g'
