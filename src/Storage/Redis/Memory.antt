-- ===== src/Storage/Redis/Memory.antt =====
-- A client of a server in memory, for the examples. The list of faults says what becomes of the next
-- commands; once it is empty, every command succeeds. A command that fails has not run.
pub mod Whole
use go_statemachine.Prelude.{
  ℕ, Text, text, ◌≡◌, not, ◌&&◌, Option, none, some, List, [], ◌∷◌, ◌==◌, arith, eq_iff, eq_refl,
  if◌then◌else◌,
}
use go_statemachine.Go.Result.{Error}
use go_statemachine.Storage.Redis.{
  Reply, answer, timeout, failure, ExecReply, committed, tx_failed, exec_failure, Cell, absent,
  value, members, contains, has, Client, Laws,
}

pub data Fault : Type 0 where
  healthy slow broken conflict : Fault

pub record Server (Bytes : Type 0) : Type 0 where
  pub cells : Text → Cell Bytes
  pub faults : List Fault

abbrev pub slow_error : Error
slow_error = text "context deadline exceeded"

abbrev pub broken_error : Error
broken_error = text "connection refused"

abbrev wrong_type : Error
wrong_type = text "WRONGTYPE"

without : Text → List Text → List Text
without a [] = []
without a (x ∷ xs) = let rest = without a xs in if a == x then rest else x ∷ rest

contains-without :
    (a x : Text) (xs : List Text) → contains x (without a xs) ≡ (not (a == x) && contains x xs)
unfolding without contains
contains-without a x [] = ground arith
contains-without a x (y ∷ xs) =
    ground (arith, contains-without a x xs, eq_iff a x, eq_iff a y, eq_iff y x)

module _ {Bytes : Type 0} where
  unfoldable pub put_cell : Text → Cell Bytes → (Text → Cell Bytes) → Text → Cell Bytes
  put_cell k c cells j = if k == j then c else cells j

  -- A command that would reply `r` and leave `cells` behind, under the first fault.
  unfoldable pub run :
      {A : Type 0}
      → List Fault
      → Server Bytes
      → (Text → Cell Bytes)
      → Reply A
      → Reply A × Server Bytes
  run [] s cells r = (r, record { cells = cells; faults = [] })
  run (healthy ∷ fs) s cells r = (r, record { cells = cells; faults = fs })
  run (conflict ∷ fs) s cells r = (r, record { cells = cells; faults = fs })
  run (slow ∷ fs) s cells r = (timeout slow_error, record s { faults = fs })
  run (broken ∷ fs) s cells r = (failure broken_error, record s { faults = fs })

  get_reply : Cell Bytes → Reply (Option Bytes)
  get_reply absent = answer none
  get_reply (value b) = answer (some b)
  get_reply (members xs) = failure wrong_type

  exists_reply : Cell Bytes → Reply ℕ
  exists_reply absent = answer 0
  exists_reply (value b) = answer 1
  exists_reply (members xs) = answer 1

  smembers_reply : Cell Bytes → Reply (List Text)
  smembers_reply absent = answer []
  smembers_reply (value b) = failure wrong_type
  smembers_reply (members xs) = answer xs

  set_reply : Cell Bytes → Reply (Unit {0})
  set_reply absent = answer tt
  set_reply (value b) = failure wrong_type
  set_reply (members xs) = answer tt

  add_member : Text → Cell Bytes → Cell Bytes
  add_member a absent = members (a ∷ [])
  add_member a (value b) = value b
  add_member a (members xs) = members (a ∷ xs)

  remove_member : Text → Cell Bytes → Cell Bytes
  remove_member a absent = absent
  remove_member a (value b) = value b
  remove_member a (members xs) = members (without a xs)

  put_all : List (Text × Bytes) → (Text → Cell Bytes) → Text → Cell Bytes
  put_all [] cells = cells
  put_all ((k, b) ∷ rest) cells = put_all rest (put_cell k (value b) cells)

  run_exec : List Fault → Server Bytes → (Text → Cell Bytes) → ExecReply × Server Bytes
  run_exec [] s cells = (committed, record { cells = cells; faults = [] })
  run_exec (healthy ∷ fs) s cells = (committed, record { cells = cells; faults = fs })
  run_exec (conflict ∷ fs) s cells = (tx_failed, record s { faults = fs })
  run_exec (slow ∷ fs) s cells = (exec_failure slow_error, record s { faults = fs })
  run_exec (broken ∷ fs) s cells = (exec_failure broken_error, record s { faults = fs })

  unfoldable pub memory : Client (Server Bytes) Bytes
  unfolding put_cell run get_reply exists_reply smembers_reply set_reply add_member without
      remove_member put_all run_exec contains
  memory = record {
    look = λ s. s.cells;
    get = λ k s. run s.faults s s.cells (get_reply (s.cells k));
    set = λ k b t s. run s.faults s (put_cell k (value b) s.cells) (answer tt);
    exists = λ k s. run s.faults s s.cells (exists_reply (s.cells k));
    sadd = λ k a s.
        run s.faults s (put_cell k (add_member a (s.cells k)) s.cells) (set_reply (s.cells k));
    srem = λ k a s.
        run s.faults s (put_cell k (remove_member a (s.cells k)) s.cells) (set_reply (s.cells k));
    smembers = λ k s. run s.faults s s.cells (smembers_reply (s.cells k));
    ping = λ s. run s.faults s s.cells (answer tt);
    watch = λ k s. run s.faults s s.cells (answer tt);
    exec = λ queue s. run_exec s.faults s (put_all queue s.cells);
  }

  has-remove_member :
      (a x : Text) (c : Cell Bytes) → has (remove_member a c) x ≡ (not (a == x) && has c x)
  unfolding remove_member
  has-remove_member a x absent = ground arith
  has-remove_member a x (value b) = ground arith
  has-remove_member a x (members xs) = contains-without a x xs

  -- Under any faults, the server in memory behaves as documented.
  pub memory-Laws : Laws memory
  unfolding memory
  memory-Laws = record {
    look-get = λ k j s. ground arith;
    look-exists = λ k j s. ground arith;
    look-smembers = λ k j s. ground arith;
    look-watch = λ k j s. ground arith;
    get_value = λ k s b h. ground arith;
    get_nil = λ k s h. ground arith;
    exists_answer = λ k s n h. ground arith;
    smembers_iff = λ k a s l h. ground arith;
    set_done = λ k b s h. ground (arith, eq_refl k);
    set_frame = λ k j b t s n. ground (arith, eq_iff k j);
    sadd_done = λ k a x s h. ground (arith, eq_refl k);
    sadd_frame = λ k j a s n. ground (arith, eq_iff k j);
    srem_done = λ k a x s h. ground (arith, eq_refl k, has-remove_member a x (s.cells k));
    srem_frame = λ k j a s n. ground (arith, eq_iff k j);
    exec_committed = λ k b s h. ground (arith, eq_refl k);
    exec_tx_failed = λ k j b s h. ground arith;
    exec_frame = λ k j b s n. ground (arith, eq_iff k j);
  }
