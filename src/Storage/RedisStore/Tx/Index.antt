-- ===== src/Storage/RedisStore/Tx/Index.antt =====
-- pkg/storage/redis_store.go, TxProcessEvent: the sets of the machines in a state, as an index of the
-- stored machines.
use go_statemachine.Prelude.{
  Text, ◌≡◌, ◌≢◌, ◌∙◌, sym, ap, Bool, not, ◌&&◌, ◌||◌, [], arith, eq_iff, eq_refl, ◌==◌,
}
use go_statemachine.Protos.{Event, FiniteStateMachine}
use go_statemachine.Go.Result.{ok}
use go_statemachine.Storage.Keys.{new_key_for_machine}
use go_statemachine.Storage.Keys.Laws.{IsPlain}
use go_statemachine.Storage.Redis.{value, Wire, Laws}
use go_statemachine.Storage.RedisStore.{RedisStore}
use go_statemachine.Storage.RedisStore.Values.{Reads, Stored}
use go_statemachine.Storage.RedisStore.States.{marks, is_in}
use go_statemachine.Storage.RedisStore.Tx.{done, txf}
use go_statemachine.Storage.RedisStore.Tx.Runs.{Ran}
use go_statemachine.Storage.RedisStore.Tx.Commit.{txf-commits}

module _ {S Bytes : Type 0} (csm : RedisStore S Bytes) where
  module _ {A : Type 0} (w : Wire Bytes A) (key : Text) where
    pub Reads-unique : (a b : A) (s : S) → Reads csm w key a s → Reads csm w key b s → a ≡ b
    Reads-unique a b s (x, held, decoded) (y, held', decoded') =
        let same : value x ≡ value y = sym held ∙ held' in
        let same_bytes : x ≡ y = cc in
        let same_result : ok a ≡ ok b = sym decoded ∙ ap w.unmarshal same_bytes ∙ decoded' in cc

    pub Reads-of_Stored : (a : A) (s : S) → Stored csm w key a s → Reads csm w key a s
    Reads-of_Stored a s (b, m, held) = (b, held, w.unmarshal-marshal a b m)

  module _ (id name : Text) where
    -- The machine is stored, and of the sets of the machines in a state that has a name, the one of
    -- its own state holds its id, and no other.
    pub record IsIndexed (fsm : FiniteStateMachine) (s : S) : Type 0 where
      pub stored : Reads csm csm.wires.machine (new_key_for_machine id name) fsm s
      pub listed : (st : Text) → st ≢ [] → is_in csm name st id s ≡ (fsm.state == st)

    moved_listed :
        (old new st : Text) (before : Bool)
        → st ≢ []
        → before ≡ (old == st)
        → (marks new st && id == id || not (marks old st && id == id) && before) ≡ (new == st)
    moved_listed old new st before n h =
        ground (arith, eq_refl id, eq_iff new [], eq_iff new st, eq_iff old [], eq_iff old st)

    module _ (laws : Laws csm.client) where
      -- If a machine is stored and, of the sets of the states that have a name, exactly that of its own
      -- state holds its id, then after a transaction that commits the same is true of the machine that
      -- the event made of it, for a configuration name without # and :.
      pub txf-IsIndexed :
          (evt : Event) (s : S) (fsm : FiniteStateMachine)
          → IsPlain name
          → IsIndexed fsm s
          → (h : (txf csm id name evt s).0 ≡ ok done)
          → (ran : Ran csm laws id name evt s) × (ran.fsm ≡ fsm)
            × IsIndexed ran.moved.fsm (txf csm id name evt s).1
      txf-IsIndexed evt s fsm plain index h =
          let (ran, stored, moved) = txf-commits csm laws id name evt s plain h in
          let key = new_key_for_machine id name in
          let same = Reads-unique csm.wires.machine key ran.fsm fsm s ran.fsm_read index.stored in
          (
            ran,
            same,
            record {
              stored = Reads-of_Stored csm.wires.machine key ran.moved.fsm _ stored;
              listed = λ st n.
                  moved st id
                  ∙ moved_listed ran.fsm.state ran.moved.fsm.state st (is_in csm name st id s) n
                      (index.listed st n ∙ ap (λ f. f.state == st) (sym same));
            },
          )
