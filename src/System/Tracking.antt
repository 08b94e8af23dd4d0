-- ===== src/System/Tracking.antt =====
-- pkg/storage/redis_store.go: the store as one collection of machines, in which the sets of the
-- machines in a state are an index.
use go_statemachine.Prelude.{
  Text, ◌≡◌, ◌≢◌, ◌⊎◌, inl, inr, ◌∙◌, sym, ap, subst, Bool-cases, true, false, [], arith, ◌==◌,
  eq_iff,
}
use go_statemachine.Protos.{FiniteStateMachine}
use go_statemachine.Storage.Keys.{new_key_for_machine, new_key_for_machines_by_state}
use go_statemachine.Storage.Keys.Laws.{
  machine, by_state, IsPlain, key_text_injective, machine_key_ne,
}
use go_statemachine.Storage.Redis.{has, is_absent}
use go_statemachine.Storage.RedisStore.{RedisStore}
use go_statemachine.Storage.RedisStore.States.{is_in}
use go_statemachine.Storage.RedisStore.Tx.Index.{IsIndexed}

machines_ne :
    (id id' name name' : Text)
    → IsPlain name
    → IsPlain name'
    → (id ≢ id') ⊎ (name ≢ name')
    → new_key_for_machine id name ≢ new_key_for_machine id' name'
machines_ne id id' name name' p q n e =
    differ n (key_text_injective (machine id name) (machine id' name') p q e)
  where
    differ : (id ≢ id') ⊎ (name ≢ name') → machine id name ≡ machine id' name' → ⊥
    differ (inl n) h = n (cc)
    differ (inr n) h = n (cc)

sets_ne :
    (name name' st st' : Text)
    → IsPlain name
    → IsPlain name'
    → name ≢ name'
    → new_key_for_machines_by_state name st ≢ new_key_for_machines_by_state name' st'
sets_ne name name' st st' p q n e =
    differ (key_text_injective (by_state name st) (by_state name' st') p q e)
  where
    differ : by_state name st ≡ by_state name' st' → ⊥
    differ h = n (cc)

module _ {S Bytes : Type 0} (csm : RedisStore S Bytes) where
  -- Either nothing is stored for the id, and no state set holds it, or a machine is stored, and
  -- exactly the set of its state holds the id.
  pub data IsTracked (id name : Text) (s : S) : Type 0 where
    unknown :
        is_absent (csm.client.look s (new_key_for_machine id name)) ≡ true
        → ((st : Text) → st ≢ [] → is_in csm name st id s ≡ false)
        → IsTracked id name s
    known : (fsm : FiniteStateMachine) → IsIndexed csm id name fsm s → IsTracked id name s

  -- All ids of all configuration names without # and : are tracked.
  abbrev pub IsConsistent : S → Type 0
  IsConsistent s = (id name : Text) → IsPlain name → IsTracked id name s

  -- Nothing that belongs to the id has changed.
  pub record Untouched (id name : Text) (s s' : S) : Type 0 where
    pub machine_kept :
        csm.client.look s' (new_key_for_machine id name)
        ≡ csm.client.look s (new_key_for_machine id name)
    pub sets_kept : (st : Text) → is_in csm name st id s' ≡ is_in csm name st id s

  pub Untouched-IsTracked :
      (id name : Text) (s s' : S)
      → Untouched id name s s'
      → IsTracked id name s
      → IsTracked id name s'
  Untouched-IsTracked id name s s' u (unknown free out) =
      unknown (ap is_absent u.machine_kept ∙ free) (λ st n. u.sets_kept st ∙ out st n)
  Untouched-IsTracked id name s s' u (known fsm index) =
      let (b, held, decoded) = index.stored in
      known fsm (record {
        stored = (b, u.machine_kept ∙ held, decoded);
        listed = λ st n. u.sets_kept st ∙ index.listed st n;
      })

  -- A change that belongs to one id: other keys stay, and other ids stay in their sets.
  pub record Local (id name : Text) (s s' : S) : Type 0 where
    pub kept :
        (j : Text)
        → new_key_for_machine id name ≢ j
        → ((st : Text) → new_key_for_machines_by_state name st ≢ j)
        → csm.client.look s' j ≡ csm.client.look s j
    pub others : (st x : Text) → id ≢ x → is_in csm name st x s' ≡ is_in csm name st x s

  module _ (id name : Text) (s s' : S) (plain : IsPlain name) (change : Local id name s s') where
    same_name-Untouched : (x : Text) → id ≢ x → Untouched x name s s'
    same_name-Untouched x n = record {
      machine_kept =
          change.kept (new_key_for_machine x name) (machines_ne id x name name plain plain (inl n))
            (λ st e. machine_key_ne x name name st plain plain (sym e));
      sets_kept = λ st. change.others st x n;
    }

    other_name-Untouched : (x other : Text) → IsPlain other → name ≢ other → Untouched x other s s'
    other_name-Untouched x other p n = record {
      machine_kept =
          change.kept (new_key_for_machine x other) (machines_ne id x name other plain p (inr n))
            (λ st e. machine_key_ne x other name st p plain (sym e));
      sets_kept = λ st.
          ap (λ c. has c x)
            (change.kept (new_key_for_machines_by_state other st)
              (machine_key_ne id name other st plain p)
              (λ st'. sets_ne name other st' st plain p n));
    }

    -- Then it is enough that the id itself is tracked afterwards.
    pub Local-IsConsistent : IsConsistent s → IsTracked id name s' → IsConsistent s'
    Local-IsConsistent before own x other p = elim (Bool-cases (name == other)) [
      | inr n ↦
          Untouched-IsTracked x other s s'
            (other_name-Untouched x other p (λ e. ground (arith, eq_iff name other)))
            (before x other p)
      | inl e ↦
          subst (λ m. IsTracked x m s') ((eq_iff name other).0 e)
            (elim (Bool-cases (id == x)) [
              | inl d ↦ subst (λ i. IsTracked i name s') ((eq_iff id x).0 d) own
              | inr n ↦
                  Untouched-IsTracked x name s s'
                    (same_name-Untouched x (λ d. ground (arith, eq_iff id x))) (before x name plain)
            ])
    ]
