-- ===== src/Storage/RedisStore/Typed/Calls.antt =====
-- pkg/storage/redis_store.go: every call of the store leaves at each key a value of its kind.
use go_statemachine.Prelude.{
  ℕ, zero, suc, Text, ◌≡◌, refl, sym, subst, [], ◌==◌, Bool-cases, inl, inr,
}
use go_statemachine.Go.Result.{Error, Result, ok, err, panic}
use go_statemachine.Go.Action.{Action, continue}
use go_statemachine.Storage.Keys.Laws.{Key, by_state, key_text, IsPlain, HasPlainName}
use go_statemachine.Storage.Redis.{Reply, answer, timeout, failure, value, Wire, Laws}
use go_statemachine.Storage.RedisStore.{
  RedisStore, after_set, store, get, put_loop, put, decrement, must, leave_state, enter_state,
  update_state,
}
use go_statemachine.Storage.RedisStore.Values.{look-get}
use go_statemachine.Storage.RedisStore.Tx.{encoded}
use go_statemachine.Storage.RedisStore.Typed.{
  WritesWhole, HasKind, IsTyped, IsTyped-keeps, set-IsTyped, KeepsSets, sadd-IsTyped, srem-IsTyped,
}

-- What both parts of a chain keep, the chain keeps.
pub continue-Keeps :
    {S A B : Type 0} (P : S → Type 0) (f : A → Action S B) (m : Result A × S)
    → ((a : A) (s : S) → P s → P (f a s).1)
    → P m.1
    → P (continue f m).1
continue-Keeps P f (ok a, s) k p = k a s p
continue-Keeps P f (err e, s) k p = p
continue-Keeps P f (panic, s) k p = p

pub encoded-Keeps :
    {S Bytes B : Type 0} (P : S → Type 0) (f : Bytes → Action S B) (r : Result Bytes) (s : S)
    → ((b : Bytes) → r ≡ ok b → P s → P (f b s).1)
    → P s
    → P (continue f (encoded r, s)).1
encoded-Keeps P f (ok b) s k p = k b refl p
encoded-Keeps P f (err e) s k p = p
encoded-Keeps P f panic s k p = p

module _ {S Bytes : Type 0} (csm : RedisStore S Bytes) (laws : Laws csm.client)
    (whole : WritesWhole csm.client) where
  abbrev pub Typed : S → Type 0
  Typed = IsTyped csm

  pub get-IsTyped :
      {A : Type 0} (w : Wire Bytes A) (key : Text) (s : S) → Typed s → Typed (get csm w key s).1
  get-IsTyped w key s typed = IsTyped-keeps csm s _ (λ j. look-get csm laws w key j s) typed

  module _ {A : Type 0} (w : Wire Bytes A) (k : Key) (plain : HasPlainName k)
      (fits : (a : A) (b : Bytes) → w.marshal a ≡ ok b → HasKind csm k (value b)) where
    after_set-IsTyped :
        (again : S → Result (Unit {0}) × S) (r : Reply (Unit {0}) × S)
        → ((s : S) → Typed s → Typed (again s).1)
        → Typed r.1
        → Typed (after_set csm w (key_text k) again r).1
    after_set-IsTyped again (answer u, s) rest typed = typed
    after_set-IsTyped again (timeout e, s) rest typed = rest s typed
    after_set-IsTyped again (failure e, s) rest typed = typed

    store-IsTyped :
        (again : S → Result (Unit {0}) × S) (ttl : ℕ) (a : A) (r : Result Bytes) (s : S)
        → w.marshal a ≡ r
        → ((s : S) → Typed s → Typed (again s).1)
        → Typed s
        → Typed (store csm w (key_text k) again ttl r s).1
    store-IsTyped again ttl a (ok b) s m rest typed =
        after_set-IsTyped again (csm.client.set (key_text k) b ttl s) rest
          (set-IsTyped csm laws whole k b ttl s plain (fits a b m) typed)
    store-IsTyped again ttl a (err e) s m rest typed = typed
    store-IsTyped again ttl a panic s m rest typed = typed

    put_loop-IsTyped :
        (a : A) (ttl left : ℕ) (s : S)
        → Typed s
        → Typed (put_loop csm w (key_text k) a ttl left s).1
    unfolding put_loop
    put_loop-IsTyped a ttl zero s = store-IsTyped _ ttl a (w.marshal a) s refl (λ s typed. typed)
    put_loop-IsTyped a ttl (suc left) s =
        store-IsTyped _ ttl a (w.marshal a) s refl (put_loop-IsTyped a ttl left)

  pub put-IsTyped :
      {A : Type 0} (w : Wire Bytes A) (k : Key)
      → HasPlainName k
      → ((a : A) (b : Bytes) → w.marshal a ≡ ok b → HasKind csm k (value b))
      → (a : A) (ttl : ℕ) (s : S) → Typed s
      → Typed (put csm w (key_text k) a ttl s).1
  put-IsTyped w k plain fits a ttl =
      put_loop-IsTyped w k plain fits a ttl (decrement csm.max_retries)

  pub state-KeepsSets : (name st : Text) → KeepsSets csm laws whole (by_state name st)
  state-KeepsSets name st c d h k = k h

  must_state : {A : Type 0} (f : Error → Error) (r : Reply A × S) → (must csm f r).1 ≡ r.1
  must_state f (answer a, s) = refl
  must_state f (timeout e, s) = refl
  must_state f (failure e, s) = refl

  module _ (name id : Text) (plain : IsPlain name) where
    leave_state-IsTyped : (st : Text) (s : S) → Typed s → Typed (leave_state csm name id st s).1
    leave_state-IsTyped st s typed = elim (Bool-cases (st == [])) [
      | inl e ↦ rw e typed
      | inr e ↦ rw e (
          subst Typed (sym (must_state _ _)) (
            srem-IsTyped csm laws whole (by_state name st) id s plain (state-KeepsSets name st)
              typed))
    ]

    enter_state-IsTyped : (st : Text) (s : S) → Typed s → Typed (enter_state csm name id st s).1
    enter_state-IsTyped st s typed = elim (Bool-cases (st == [])) [
      | inl e ↦ rw e typed
      | inr e ↦ rw e (
          subst Typed (sym (must_state _ _)) (
            sadd-IsTyped csm laws whole (by_state name st) id s plain (state-KeepsSets name st)
              typed))
    ]

    pub update_state-IsTyped :
        (old new : Text) (s : S) → Typed s → Typed (update_state csm name id old new s).1
    unfolding update_state
    update_state-IsTyped old new s typed =
        continue-Keeps Typed (λ _. enter_state csm name id new) (leave_state csm name id old s)
          (λ u t. enter_state-IsTyped new t) (leave_state-IsTyped old s typed)
