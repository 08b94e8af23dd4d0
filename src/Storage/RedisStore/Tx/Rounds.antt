-- ===== src/Storage/RedisStore/Tx/Rounds.antt =====
-- pkg/storage/redis_store.go, TxProcessEvent: the rounds of its loop.
use go_statemachine.Prelude.{
  ℕ, zero, suc, ◌<◌, Text, ◌≡◌, ◌≢◌, ◌⊎◌, inl, inr, refl, ◌∙◌, sym, ap, subst, [], arith,
}
use go_statemachine.Protos.{Event}
use go_statemachine.Go.Result.{Result, ok, err, panic}
use go_statemachine.Storage.Keys.{new_key_for_machine}
use go_statemachine.Storage.Keys.Laws.{IsPlain}
use go_statemachine.Storage.Errors.{too_many_attempts}
use go_statemachine.Storage.Redis.{Reply, answer, timeout, failure, Laws}
use go_statemachine.Storage.RedisStore.{RedisStore}
use go_statemachine.Storage.RedisStore.Values.{Stored}
use go_statemachine.Storage.RedisStore.Tx.{
  TxEnd, done, conflicted, txf, watched, watch_txf, after_watch, tx_rounds, tx_process_event,
}
use go_statemachine.Storage.RedisStore.Tx.Runs.{Ran}
use go_statemachine.Storage.RedisStore.Tx.Commit.{MovedSets, txf-commits}

module _ {S Bytes : Type 0} (csm : RedisStore S Bytes) (id name : Text) (evt : Event) where
  -- In `n` rounds after one another EXEC is refused.
  pub data Conflicts : ℕ → S → S → Type 0 where
    none : (s : S) → Conflicts zero s s
    next :
        {n : ℕ} (s : S) {s' : S}
        → (watch_txf csm id name evt s).0 ≡ ok conflicted
        → Conflicts n (watch_txf csm id name evt s).1 s'
        → Conflicts (suc n) s s'

  -- What a last round that is not refused makes of the whole.
  abbrev pub finish : Result TxEnd × S → Result (Unit {0}) × S
  finish = after_watch csm id name (λ s. (err (too_many_attempts []), s))

  -- Either all the rounds were refused, or `n` of them were and the next one was not.
  pub record LoopEnd (left : ℕ) (s : S) : Type 0 where
    pub refused : ℕ
    pub last : S
    pub conflicts : Conflicts refused s last
    pub ends :
        ((refused ≡ left) × (tx_rounds csm id name left evt s ≡ (err (too_many_attempts []), last)))
        ⊎ ((refused < left)
            × ((watch_txf csm id name evt last).0 ≢ ok conflicted)
            × (tx_rounds csm id name left evt s ≡ finish (watch_txf csm id name evt last)))

  TxEnd-cases : (r : Result TxEnd) → (r ≡ ok conflicted) ⊎ (r ≢ ok conflicted)
  TxEnd-cases (ok done) = inr (λ h. cc)
  TxEnd-cases (ok conflicted) = inl refl
  TxEnd-cases (err e) = inr (λ h. cc)
  TxEnd-cases panic = inr (λ h. cc)

  after_refused :
      (again : S → Result (Unit {0}) × S) (r : Result TxEnd × S)
      → r.0 ≡ ok conflicted
      → after_watch csm id name again r ≡ again r.1
  after_refused again r h = ap (λ (x : Result TxEnd). after_watch csm id name again (x, r.1)) h

  after_other :
      (again : S → Result (Unit {0}) × S) (r : Result TxEnd × S)
      → r.0 ≢ ok conflicted
      → after_watch csm id name again r ≡ finish r
  after_other again (ok done, s) n = refl
  after_other again (ok conflicted, s) n = absurd (n refl)
  after_other again (err e, s) n = refl
  after_other again (panic, s) n = refl

  pub tx_rounds-LoopEnd : (left : ℕ) (s : S) → LoopEnd left s
  unfolding tx_rounds
  tx_rounds-LoopEnd zero s = record {
    refused = 0;
    last = s;
    conflicts = none s;
    ends = inl (refl, refl);
  }
  tx_rounds-LoopEnd (suc left) s =
      let round = watch_txf csm id name evt s in
      let later = tx_rounds-LoopEnd left round.1 in
      elim (TxEnd-cases round.0) [
        | inl again ↦ record {
          refused = suc later.refused;
          last = later.last;
          conflicts = next s again later.conflicts;
          ends = elim later.ends [
            | inl (all, e) ↦ inl (ap suc all, after_refused _ round again ∙ e)
            | inr (some, n, e) ↦ inr (omega arith, n, after_refused _ round again ∙ e)
          ];
        }
        | inr ends ↦ record {
          refused = 0;
          last = s;
          conflicts = none s;
          ends = inr (omega arith, ends, after_other _ round ends);
        }
      ]

  finished :
      (r : Result TxEnd × S)
      → (finish r).0 ≡ ok tt
      → r.0 ≢ ok conflicted
      → (r.0 ≡ ok done) × ((finish r).1 ≡ r.1)
  finished (ok done, s) h n = (refl, refl)
  finished (ok conflicted, s) h n = absurd (n refl)
  finished (err e, s) h n = cc
  finished (panic, s) h n = cc

  not_too_many : (s : S) → ◌≡◌ {A = Result (Unit {0})} (err (too_many_attempts [])) (ok tt) → ⊥
  not_too_many s h = cc

  watched_done :
      (body : S → Result TxEnd × S) (r : Reply (Unit {0}) × S)
      → (watched csm id name body r).0 ≡ ok done
      → ((body r.1).0 ≡ ok done) × ((watched csm id name body r).1 ≡ (body r.1).1)
  watched_done body (answer u, s) h = (h, refl)
  watched_done body (timeout e, s) h = cc
  watched_done body (failure e, s) h = cc

  -- Where the first EXEC is not refused, a nil of TxProcessEvent is that of the first transaction.
  pub tx_process_event_first :
      (s : S)
      → (tx_process_event csm id name evt s).0 ≡ ok tt
      → (watch_txf csm id name evt s).0 ≢ ok conflicted
      → ((txf csm id name evt (csm.client.watch (new_key_for_machine id name) s).1).0 ≡ ok done)
        × ((tx_process_event csm id name evt s).1
            ≡ (txf csm id name evt (csm.client.watch (new_key_for_machine id name) s).1).1)
  unfolding tx_rounds watch_txf
  tx_process_event_first s h n =
      let round = watch_txf csm id name evt s in
      let e = after_other (tx_rounds csm id name 2 evt) round n in
      let (ended, state) = finished round (ap (λ r. r.0) (sym e) ∙ h) n in
      let (committed, same) =
        watched_done (txf csm id name evt) (csm.client.watch (new_key_for_machine id name) s)
          ended in
      (committed, ap (λ r. r.1) e ∙ state ∙ same)

  module _ (laws : Laws csm.client) where
    -- The transaction that committed, after fewer than three refused ones; it began at `start`.
    pub record Committed (s s' : S) : Type 0 where
      pub refused : ℕ
      pub bounded : refused < 3
      pub last : S
      pub conflicts : Conflicts refused s last
      pub start : S
      pub unchanged : (j : Text) → csm.client.look start j ≡ csm.client.look last j
      pub ran : Ran csm laws id name evt start
      pub stored : Stored csm csm.wires.machine (new_key_for_machine id name) ran.moved.fsm s'
      pub moved : MovedSets csm id name ran.fsm.state ran.moved.fsm.state start s'

    watch_txf-Committed :
        (refused : ℕ) (s last : S)
        → IsPlain name
        → refused < 3
        → Conflicts refused s last
        → (watch_txf csm id name evt last).0 ≡ ok done
        → Committed s (watch_txf csm id name evt last).1
    unfolding watch_txf
    watch_txf-Committed refused s last plain below conflicts h =
        let key = new_key_for_machine id name in
        let watch = csm.client.watch key last in
        let (ended, state) = watched_done (txf csm id name evt) watch h in
        let (ran, stored, moved) = txf-commits csm laws id name evt watch.1 plain ended in
        record {
          refused = refused;
          bounded = below;
          last = last;
          conflicts = conflicts;
          start = watch.1;
          unchanged = λ j. laws.look-watch key j last;
          ran = ran;
          stored = subst (Stored csm csm.wires.machine key ran.moved.fsm) (sym state) stored;
          moved =
              subst (MovedSets csm id name ran.fsm.state ran.moved.fsm.state watch.1) (sym state)
                moved;
        }

    -- If TxProcessEvent returns nil, then after fewer than three refused transactions one has
    -- committed: it stored the machine that SendEvent made of the stored one, and moved its id.
    pub tx_process_event-Committed :
        (s : S)
        → IsPlain name
        → (tx_process_event csm id name evt s).0 ≡ ok tt
        → Committed s (tx_process_event csm id name evt s).1
    tx_process_event-Committed s plain h =
        let rounds = tx_rounds-LoopEnd 3 s in
        elim rounds.ends [
          | inl (all, e) ↦ absurd (not_too_many s (ap (λ r. r.0) (sym e) ∙ h))
          | inr (below, n, e) ↦
              let last = watch_txf csm id name evt rounds.last in
              let (ended, state) = finished last (ap (λ r. r.0) (sym e) ∙ h) n in
              subst (Committed s) (sym (ap (λ (r : Result (Unit {0}) × S). r.1) e ∙ state)) (
                watch_txf-Committed rounds.refused s rounds.last plain below rounds.conflicts ended)
        ]
