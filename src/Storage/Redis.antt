-- ===== src/Storage/Redis.antt =====
-- What pkg/storage/redis_store.go uses of the Redis client (go-redis) and of Protobuf encoding
-- (proto.Marshal, proto.Unmarshal). Both are parameters: records of operations, and of the documented
-- behaviour that the theorems rely on.
pub mod Memory
use go_statemachine.Prelude.{
  ℕ, Text, ◌≡◌, ◌≢◌, Bool, true, false, not, ◌&&◌, ◌||◌, Option, none, some, List, [], ◌∷◌, ◌==◌,
  if◌then◌else◌,
}
use go_statemachine.Protos.{Event, Configuration, FiniteStateMachine, EventOutcome}
use go_statemachine.Go.Result.{Error, Result, ok}

-- The reply to a command: an answer, an error after the context's deadline, or any other error.
pub data Reply (A : Type 0) : Type 0 where
  answer : A → Reply A
  timeout : Error → Reply A
  failure : Error → Reply A

-- The reply to EXEC: the queued commands ran, a watched key had changed (redis.TxFailedErr), or an
-- error.
pub data ExecReply : Type 0 where
  committed tx_failed : ExecReply
  exec_failure : Error → ExecReply

-- What the server holds at a key.
pub data Cell (Bytes : Type 0) : Type 0 where
  absent : Cell Bytes
  value : Bytes → Cell Bytes
  members : List Text → Cell Bytes

unfoldable pub contains : Text → List Text → Bool
contains a [] = false
contains a (x ∷ xs) = x == a || contains a xs

-- The text is a member of the set at the key.
abbrev pub has : {Bytes : Type 0} → Cell Bytes → Text → Bool
has absent a = false
has (value b) a = false
has (members xs) a = contains a xs

abbrev pub is_absent : {Bytes : Type 0} → Cell Bytes → Bool
is_absent absent = true
is_absent (value b) = false
is_absent (members xs) = false

-- The client; `S` is the state of the server and of the connection to it, `look` what the server
-- holds, which the code never calls.
pub record Client (S Bytes : Type 0) : Type 0 where
  pub look : S → Text → Cell Bytes
  -- `none` is redis.Nil
  pub get : Text → S → Reply (Option Bytes) × S
  pub set : Text → Bytes → ℕ → S → Reply (Unit {0}) × S
  pub exists : Text → S → Reply ℕ × S
  pub sadd : Text → Text → S → Reply (Unit {0}) × S
  pub srem : Text → Text → S → Reply (Unit {0}) × S
  pub smembers : Text → S → Reply (List Text) × S
  pub ping : S → Reply (Unit {0}) × S
  pub watch : Text → S → Reply (Unit {0}) × S
  -- the SET commands that were queued, each a key and a value that does not expire
  pub exec : List (Text × Bytes) → S → ExecReply × S

-- An encoding of messages; a decoded message is the one that was encoded.
pub record Wire (Bytes A : Type 0) : Type 0 where
  pub marshal : A → Result Bytes
  pub unmarshal : Bytes → Result A
  pub unmarshal-marshal : (a : A) (b : Bytes) → marshal a ≡ ok b → unmarshal b ≡ ok a

pub record Wires (Bytes : Type 0) : Type 0 where
  pub configuration : Wire Bytes Configuration
  pub machine : Wire Bytes FiniteStateMachine
  pub event : Wire Bytes Event
  pub outcome : Wire Bytes EventOutcome

-- The documented behaviour of the commands, where no other client changes the keys in between.
pub record Laws {S Bytes : Type 0} (r : Client S Bytes) : Type 0 where
  -- commands that read
  pub look-get : (k j : Text) (s : S) → r.look (r.get k s).1 j ≡ r.look s j
  pub look-exists : (k j : Text) (s : S) → r.look (r.exists k s).1 j ≡ r.look s j
  pub look-smembers : (k j : Text) (s : S) → r.look (r.smembers k s).1 j ≡ r.look s j
  pub look-watch : (k j : Text) (s : S) → r.look (r.watch k s).1 j ≡ r.look s j
  pub get_value :
      (k : Text) (s : S) (b : Bytes) → (r.get k s).0 ≡ answer (some b) → r.look s k ≡ value b
  pub get_nil : (k : Text) (s : S) → (r.get k s).0 ≡ answer none → r.look s k ≡ absent
  pub exists_answer :
      (k : Text) (s : S) (n : ℕ)
      → (r.exists k s).0 ≡ answer n
      → n ≡ (if is_absent (r.look s k) then 0 else 1)
  pub smembers_iff :
      (k a : Text) (s : S) (l : List Text)
      → (r.smembers k s).0 ≡ answer l
      → contains a l ≡ has (r.look s k) a
  -- commands that write: what an answer means, and that no other key changes, whatever the reply
  pub set_done :
      (k : Text) (b : Bytes) (s : S)
      → (r.set k b 0 s).0 ≡ answer tt
      → r.look (r.set k b 0 s).1 k ≡ value b
  pub set_frame :
      (k j : Text) (b : Bytes) (t : ℕ) (s : S) → k ≢ j → r.look (r.set k b t s).1 j ≡ r.look s j
  pub sadd_done :
      (k a x : Text) (s : S)
      → (r.sadd k a s).0 ≡ answer tt
      → has (r.look (r.sadd k a s).1 k) x ≡ (a == x || has (r.look s k) x)
  pub sadd_frame : (k j a : Text) (s : S) → k ≢ j → r.look (r.sadd k a s).1 j ≡ r.look s j
  pub srem_done :
      (k a x : Text) (s : S)
      → (r.srem k a s).0 ≡ answer tt
      → has (r.look (r.srem k a s).1 k) x ≡ (not (a == x) && has (r.look s k) x)
  pub srem_frame : (k j a : Text) (s : S) → k ≢ j → r.look (r.srem k a s).1 j ≡ r.look s j
  pub exec_committed :
      (k : Text) (b : Bytes) (s : S)
      → (r.exec ((k, b) ∷ []) s).0 ≡ committed
      → r.look (r.exec ((k, b) ∷ []) s).1 k ≡ value b
  pub exec_tx_failed :
      (k j : Text) (b : Bytes) (s : S)
      → (r.exec ((k, b) ∷ []) s).0 ≡ tx_failed
      → r.look (r.exec ((k, b) ∷ []) s).1 j ≡ r.look s j
  pub exec_frame :
      (k j : Text) (b : Bytes) (s : S) → k ≢ j → r.look (r.exec ((k, b) ∷ []) s).1 j ≡ r.look s j
