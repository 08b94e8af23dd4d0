-- ===== src/Storage/RedisStore/Concurrent/Fresh.antt =====
-- pkg/storage/redis_store.go, TxProcessEvent by clients that take turns between their commands: what
-- a client knows of the stored machine, by its place in the transaction.
use go_statemachine.Prelude.{ℕ, suc, Text, ◌≡◌, ◌≤◌, ◌∙◌, arith}
use go_statemachine.Protos.{FiniteStateMachine}
use go_statemachine.Go.Result.{ok}
use go_statemachine.Api.Machine.{send_event}
use go_statemachine.Storage.Keys.{new_key_for_machine}
use go_statemachine.Storage.RedisStore.{RedisStore}
use go_statemachine.Storage.RedisStore.Values.{Reads}
use go_statemachine.Storage.RedisStore.Concurrent.{
  Attempt, Plan, Phase, idle, watching, has_read, ready, left, entered, KeepsConfigs,
}
use go_statemachine.Storage.RedisStore.Concurrent.Serial.{KnowsConfig}
use go_statemachine.Storage.RedisStore.Concurrent.Kept.{Quiet, KnowsConfig-keeps}

module _ {S Bytes : Type 0} (csm : RedisStore S Bytes) (id name : Text) where
  abbrev pub Holds : FiniteStateMachine → S → Type 0
  Holds fsm s = Reads csm csm.wires.machine (new_key_for_machine id name) fsm s

  -- What it has read is what is stored, unless the machine was written since.
  pub record HasRead (n : ℕ) (s : S) (a : Attempt) (fsm : FiniteStateMachine) : Type 0 where
    pub seen-le : a.seen ≤ n
    pub current : n ≡ a.seen → Holds fsm s

  pub record IsPrepared (n : ℕ) (s : S) (p : Plan) : Type 0 where
    pub read : HasRead n s p.attempt p.fsm
    pub known : KnowsConfig csm p s
    pub answered :
        send_event p.attempt.evt (record { config = p.cfg; fsm = p.fsm }) ≡ (ok tt, p.moved)

  -- A client behind `n` writes.
  abbrev pub IsFresh : ℕ → S → Phase → Type 0
  IsFresh n s idle = Unit
  IsFresh n s (watching a) = a.seen ≤ n
  IsFresh n s (has_read a fsm) = HasRead n s a fsm
  IsFresh n s (ready p) = IsPrepared n s p
  IsFresh n s (left p) = IsPrepared n s p
  IsFresh n s (entered p) = IsPrepared n s p

  HasRead-Quiet :
      (n : ℕ) (s t : S) (a : Attempt) (fsm : FiniteStateMachine)
      → Quiet csm id name s t
      → HasRead n s a fsm
      → HasRead n t a fsm
  HasRead-Quiet n s t a fsm q h = record {
    seen-le = h.seen-le;
    current = λ e. let (b, held, decoded) = h.current e in (b, q.machine_kept ∙ held, decoded);
  }

  IsPrepared-Quiet :
      (n : ℕ) (s t : S) (p : Plan) → Quiet csm id name s t → IsPrepared n s p → IsPrepared n t p
  IsPrepared-Quiet n s t p q h = record {
    read = HasRead-Quiet n s t p.attempt p.fsm q h.read;
    known = KnowsConfig-keeps csm q.configs_kept p h.known;
    answered = h.answered;
  }

  pub IsFresh-Quiet :
      (n : ℕ) (s t : S) (p : Phase) → Quiet csm id name s t → IsFresh n s p → IsFresh n t p
  IsFresh-Quiet n s t idle q h = h
  IsFresh-Quiet n s t (watching a) q h = h
  IsFresh-Quiet n s t (has_read a fsm) q h = HasRead-Quiet n s t a fsm q h
  IsFresh-Quiet n s t (ready p) q h = IsPrepared-Quiet n s t p q h
  IsFresh-Quiet n s t (left p) q h = IsPrepared-Quiet n s t p q h
  IsFresh-Quiet n s t (entered p) q h = IsPrepared-Quiet n s t p q h

  -- Behind a write, what was read before it is not claimed to be current.
  HasRead-written :
      (n : ℕ) (s t : S) (a : Attempt) (fsm : FiniteStateMachine)
      → HasRead n s a fsm
      → HasRead (suc n) t a fsm
  HasRead-written n s t a fsm h =
      let le = h.seen-le in record { seen-le = omega arith; current = λ e. absurd (omega arith) }

  IsPrepared-written :
      (n : ℕ) (s t : S) (p : Plan)
      → KeepsConfigs csm s t
      → IsPrepared n s p
      → IsPrepared (suc n) t p
  IsPrepared-written n s t p keep h = record {
    read = HasRead-written n s t p.attempt p.fsm h.read;
    known = KnowsConfig-keeps csm keep p h.known;
    answered = h.answered;
  }

  pub IsFresh-written :
      (n : ℕ) (s t : S) (p : Phase) → KeepsConfigs csm s t → IsFresh n s p → IsFresh (suc n) t p
  IsFresh-written n s t idle keep h = h
  IsFresh-written n s t (watching a) keep h = omega arith
  IsFresh-written n s t (has_read a fsm) keep h = HasRead-written n s t a fsm h
  IsFresh-written n s t (ready p) keep h = IsPrepared-written n s t p keep h
  IsFresh-written n s t (left p) keep h = IsPrepared-written n s t p keep h
  IsFresh-written n s t (entered p) keep h = IsPrepared-written n s t p keep h
