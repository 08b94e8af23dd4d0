-- ===== src/Storage/RedisStore/States.antt =====
-- pkg/storage/redis_store.go, UpdateState: which state sets hold a machine.
use mathlib.Core.List.{append_cancel_left}
use go_statemachine.Prelude.{
  Text, text, ◌≡◌, ◌≢◌, inl, inr, refl, ◌∙◌, ap, sym, subst, Bool, Bool-cases, not, ◌&&◌, ◌||◌,
  false, [], ◌++◌, arith, eq_iff, ◌==◌,
}
use go_statemachine.Go.Result.{Error, Result, ok}
use go_statemachine.Go.Action.{continue-eq-ok, continue-keeps}
use go_statemachine.Storage.Keys.{new_key_for_machines_by_state}
use go_statemachine.Storage.Redis.{Reply, answer, timeout, failure, has, Laws}
use go_statemachine.Storage.RedisStore.{RedisStore, must, leave_state, enter_state, update_state}

state_key_injective :
    (name s t : Text)
    → new_key_for_machines_by_state name s ≡ new_key_for_machines_by_state name t
    → s ≡ t
unfolding new_key_for_machines_by_state
state_key_injective name s t e =
    let h : text "#" ++ s ≡ text "#" ++ t =
      append_cancel_left (text "fsm:" ++ (name ++ text ":state")) _ _ e in
    cc

-- The state is not empty, and it is `st`.
abbrev pub marks : Text → Text → Bool
marks state st = not (state == []) && state == st

module _ {S Bytes : Type 0} (csm : RedisStore S Bytes) where
  -- The set of the machines in the state `st` has the member `x`.
  abbrev pub is_in : Text → Text → Text → S → Bool
  is_in name st x s = has (csm.client.look s (new_key_for_machines_by_state name st)) x

  module _ (laws : Laws csm.client) (name id : Text) where
    must_answered :
        {A : Type 0} (f : Error → Error) (r : Reply A × S) (a : A)
        → (must csm f r).0 ≡ ok a
        → r.0 ≡ answer a
    must_answered f (answer b, s) a h = cc
    must_answered f (timeout e, s) a h = cc
    must_answered f (failure e, s) a h = cc

    must_state : {A : Type 0} (f : Error → Error) (r : Reply A × S) → (must csm f r).1 ≡ r.1
    must_state f (answer a, s) = refl
    must_state f (timeout e, s) = refl
    must_state f (failure e, s) = refl

    state_key_ne :
        (a b : Text)
        → (a == b) ≡ false
        → new_key_for_machines_by_state name a ≢ new_key_for_machines_by_state name b
    state_key_ne a b n e = ground (arith, eq_iff a b, state_key_injective name a b e)

    removed :
        (old st x : Text) (s : S)
        → (csm.client.srem (new_key_for_machines_by_state name old) id s).0 ≡ answer tt
        → is_in name st x (csm.client.srem (new_key_for_machines_by_state name old) id s).1
          ≡ (not (old == st && id == x) && is_in name st x s)
    removed old st x s h = elim (Bool-cases (old == st)) [
      | inl same ↦
          let e = (eq_iff old st).0 same in
          rw same (
            subst
              (λ (u : Text).
                is_in name u x (csm.client.srem (new_key_for_machines_by_state name old) id s).1
                ≡ (not (id == x) && is_in name u x s))
              e (laws.srem_done (new_key_for_machines_by_state name old) id x s h))
      | inr other ↦ rw other (
          ap (λ c. has c x)
            (laws.srem_frame (new_key_for_machines_by_state name old)
              (new_key_for_machines_by_state name st) id s (state_key_ne old st other)))
    ]

    added :
        (new st x : Text) (s : S)
        → (csm.client.sadd (new_key_for_machines_by_state name new) id s).0 ≡ answer tt
        → is_in name st x (csm.client.sadd (new_key_for_machines_by_state name new) id s).1
          ≡ (new == st && id == x || is_in name st x s)
    added new st x s h = elim (Bool-cases (new == st)) [
      | inl same ↦
          let e = (eq_iff new st).0 same in
          rw same (
            subst
              (λ (u : Text).
                is_in name u x (csm.client.sadd (new_key_for_machines_by_state name new) id s).1
                ≡ (id == x || is_in name u x s))
              e (laws.sadd_done (new_key_for_machines_by_state name new) id x s h))
      | inr other ↦ rw other (
          ap (λ c. has c x)
            (laws.sadd_frame (new_key_for_machines_by_state name new)
              (new_key_for_machines_by_state name st) id s (state_key_ne new st other)))
    ]

    leave_state_lem :
        (old st x : Text) (s : S)
        → (leave_state csm name id old s).0 ≡ ok tt
        → is_in name st x (leave_state csm name id old s).1
          ≡ (not (marks old st && id == x) && is_in name st x s)
    leave_state_lem old st x s h = elim (Bool-cases (old == [])) [
      | inl none ↦ rw none
      | inr some ↦ rw some (
          ap (λ t. is_in name st x t) (must_state _ _)
          ∙ removed old st x s (must_answered _ _ tt (rw some at h)))
    ]

    enter_state_lem :
        (new st x : Text) (s : S)
        → (enter_state csm name id new s).0 ≡ ok tt
        → is_in name st x (enter_state csm name id new s).1
          ≡ (marks new st && id == x || is_in name st x s)
    enter_state_lem new st x s h = elim (Bool-cases (new == [])) [
      | inl none ↦ rw none
      | inr some ↦ rw some (
          ap (λ t. is_in name st x t) (must_state _ _)
          ∙ added new st x s (must_answered _ _ tt (rw some at h)))
    ]

    -- If UpdateState returns nil, a text x is in the set of a state afterwards exactly if x is the id
    -- and the state is the new one and not empty, or x was in the set before and it is not the case
    -- that x is the id and the state is the old one and not empty.
    pub update_state_lem :
        (old new st x : Text) (s : S)
        → (update_state csm name id old new s).0 ≡ ok tt
        → is_in name st x (update_state csm name id old new s).1
          ≡ (marks new st && id == x || not (marks old st && id == x) && is_in name st x s)
    unfolding update_state
    update_state_lem old new st x s h =
        let left = leave_state csm name id old s in
        let (u, passed, rest) = continue-eq-ok (λ _. enter_state csm name id new) left h in
        ap (λ (r : Result (Unit {0}) × S). is_in name st x r.1) rest
        ∙ enter_state_lem new st x left.1 (ap (λ r. r.0) (sym rest) ∙ h)
        ∙ ap (λ b. marks new st && id == x || b) (leave_state_lem old st x s passed)

    pub leave_state-frame :
        (old j : Text) (s : S)
        → ((st : Text) → new_key_for_machines_by_state name st ≢ j)
        → csm.client.look (leave_state csm name id old s).1 j ≡ csm.client.look s j
    leave_state-frame old j s n = elim (Bool-cases (old == [])) [
      | inl none ↦ rw none
      | inr some ↦ rw some (
          ap (λ t. csm.client.look t j) (must_state _ _)
          ∙ laws.srem_frame (new_key_for_machines_by_state name old) j id s (n old))
    ]

    pub enter_state-frame :
        (new j : Text) (s : S)
        → ((st : Text) → new_key_for_machines_by_state name st ≢ j)
        → csm.client.look (enter_state csm name id new s).1 j ≡ csm.client.look s j
    enter_state-frame new j s n = elim (Bool-cases (new == [])) [
      | inl none ↦ rw none
      | inr some ↦ rw some (
          ap (λ t. csm.client.look t j) (must_state _ _)
          ∙ laws.sadd_frame (new_key_for_machines_by_state name new) j id s (n new))
    ]

    -- Whatever it returns, UpdateState touches no key but the state sets of the configuration's name.
    pub update_state-frame :
        (old new j : Text) (s : S)
        → ((st : Text) → new_key_for_machines_by_state name st ≢ j)
        → csm.client.look (update_state csm name id old new s).1 j ≡ csm.client.look s j
    unfolding update_state
    update_state-frame old new j s n =
        continue-keeps (λ t. csm.client.look t j) (λ _. enter_state csm name id new)
          (leave_state csm name id old s) (λ u t. enter_state-frame new j t n)
        ∙ leave_state-frame old j s n
