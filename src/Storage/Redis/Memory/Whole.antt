-- ===== src/Storage/Redis/Memory/Whole.antt =====
-- The server in memory, under any faults: a command that writes leaves what it writes, or what was there.
use go_statemachine.Prelude.{
  ℕ, Text, ◌≡◌, ◌⊎◌, inl, inr, refl, sym, subst, List, [], ◌∷◌, arith, eq_refl,
}
use go_statemachine.Storage.Redis.{Cell, absent, value, members}
use go_statemachine.Storage.Redis.Memory.{
  Fault, healthy, slow, broken, conflict, Server, put_cell, add_member, remove_member, memory,
}
use go_statemachine.Storage.RedisStore.Tx.Live.{HoldsSet}
use go_statemachine.Storage.RedisStore.Typed.{WritesWhole}

module _ {Bytes : Type 0} where
  put_cell_own : (k : Text) (c : Cell Bytes) (cells : Text → Cell Bytes) → put_cell k c cells k ≡ c
  unfolding put_cell
  put_cell_own k c cells = ground (arith, eq_refl k)

  abbrev at : List Fault → (Text → Cell Bytes) → Server Bytes
  at fs cells = record { cells = cells; faults = fs }

  set_leaves :
      (fs : List Fault) (cells : Text → Cell Bytes) (k : Text) (b : Bytes) (ttl : ℕ)
      → ((memory.set k b ttl (at fs cells)).1.cells k ≡ value b)
        ⊎ ((memory.set k b ttl (at fs cells)).1.cells k ≡ cells k)
  unfolding memory
  set_leaves [] cells k b ttl = inl (put_cell_own k (value b) cells)
  set_leaves (healthy ∷ fs) cells k b ttl = inl (put_cell_own k (value b) cells)
  set_leaves (conflict ∷ fs) cells k b ttl = inl (put_cell_own k (value b) cells)
  set_leaves (slow ∷ fs) cells k b ttl = inr refl
  set_leaves (broken ∷ fs) cells k b ttl = inr refl

  exec_leaves :
      (fs : List Fault) (cells : Text → Cell Bytes) (k : Text) (b : Bytes)
      → ((memory.exec ((k, b) ∷ []) (at fs cells)).1.cells k ≡ value b)
        ⊎ ((memory.exec ((k, b) ∷ []) (at fs cells)).1.cells k ≡ cells k)
  unfolding memory
  exec_leaves [] cells k b = inl (put_cell_own k (value b) cells)
  exec_leaves (healthy ∷ fs) cells k b = inl (put_cell_own k (value b) cells)
  exec_leaves (conflict ∷ fs) cells k b = inr refl
  exec_leaves (slow ∷ fs) cells k b = inr refl
  exec_leaves (broken ∷ fs) cells k b = inr refl

  add_HoldsSet : (a : Text) (c : Cell Bytes) → HoldsSet c → HoldsSet (add_member a c)
  unfolding add_member
  add_HoldsSet a absent h = tt
  add_HoldsSet a (value b) h = h
  add_HoldsSet a (members xs) h = tt

  remove_HoldsSet : (a : Text) (c : Cell Bytes) → HoldsSet c → HoldsSet (remove_member a c)
  unfolding remove_member
  remove_HoldsSet a absent h = tt
  remove_HoldsSet a (value b) h = h
  remove_HoldsSet a (members xs) h = tt

  module _ (k : Text) (c : Cell Bytes) (cells : Text → Cell Bytes) (new : HoldsSet c) where
    put_HoldsSet : HoldsSet (put_cell k c cells k)
    put_HoldsSet = subst HoldsSet (sym (put_cell_own k c cells)) new

  sadd_leaves :
      (fs : List Fault) (cells : Text → Cell Bytes) (k a : Text)
      → HoldsSet (cells k)
      → HoldsSet ((memory.sadd k a (at fs cells)).1.cells k)
  unfolding memory
  sadd_leaves [] cells k a h = put_HoldsSet k _ cells (add_HoldsSet a (cells k) h)
  sadd_leaves (healthy ∷ fs) cells k a h = put_HoldsSet k _ cells (add_HoldsSet a (cells k) h)
  sadd_leaves (conflict ∷ fs) cells k a h = put_HoldsSet k _ cells (add_HoldsSet a (cells k) h)
  sadd_leaves (slow ∷ fs) cells k a h = h
  sadd_leaves (broken ∷ fs) cells k a h = h

  srem_leaves :
      (fs : List Fault) (cells : Text → Cell Bytes) (k a : Text)
      → HoldsSet (cells k)
      → HoldsSet ((memory.srem k a (at fs cells)).1.cells k)
  unfolding memory
  srem_leaves [] cells k a h = put_HoldsSet k _ cells (remove_HoldsSet a (cells k) h)
  srem_leaves (healthy ∷ fs) cells k a h = put_HoldsSet k _ cells (remove_HoldsSet a (cells k) h)
  srem_leaves (conflict ∷ fs) cells k a h = put_HoldsSet k _ cells (remove_HoldsSet a (cells k) h)
  srem_leaves (slow ∷ fs) cells k a h = h
  srem_leaves (broken ∷ fs) cells k a h = h

  pub memory-WritesWhole : WritesWhole (memory {Bytes = Bytes})
  unfolding memory
  memory-WritesWhole = record {
    set_whole = λ k b ttl s. set_leaves s.faults s.cells k b ttl;
    exec_whole = λ k b s. exec_leaves s.faults s.cells k b;
    sadd_whole = λ k a s h. sadd_leaves s.faults s.cells k a h;
    srem_whole = λ k a s h. srem_leaves s.faults s.cells k a h;
  }
