-- ===== src/Pubsub/Listener/Redis.antt =====
-- pkg/pubsub/listener.go over the store of pkg/storage/redis_store.go.
use go_statemachine.Prelude.{
  Text, ◌≡◌, ◌≢◌, refl, ◌∙◌, sym, ap, subst, true, Option, none, some, Option-cases, inl, inr, List,
  [], ◌∷◌, ◌++◌,
}
use mathlib.Core.List.{tail-eq_of_cons-eq}
use go_statemachine.Protos.{
  EventOutcome, Event, EventRequest, EventResponse, StatusCode, success, missing_destination,
  fsm_not_found, internal_error,
}
use go_statemachine.Go.Result.{ok, panic}
use go_statemachine.Storage.Keys.Laws.{IsPlain}
use go_statemachine.Storage.Redis.{Laws}
use go_statemachine.Storage.RedisStore.{RedisStore, never_expire, put_event, add_event_outcome}
use go_statemachine.Storage.RedisStore.Values.{put_calm}
use go_statemachine.Storage.RedisStore.Tx.Calm.{IsCalm, tx_process_event_calm}
use go_statemachine.Storage.RedisStore.Tx.Rounds.{Committed, tx_process_event-Committed}
use go_statemachine.Storage.Manager.{redis_manager}
use go_statemachine.Pubsub.Listener.Panics.{Calm}
use go_statemachine.Pubsub.Listener.Verdicts.{
  Verdict, no_id, no_config, not_stored, failed, processed, FailureCode-ne, concluded,
  handle-Concluded,
}
use go_statemachine.Pubsub.Listener.{EventsListener, Scene, make_response, report_outcome, handle}
use go_statemachine.Pubsub.Listener.Notices.{report-posted}

module _ {S Bytes : Type 0} (csm : RedisStore S Bytes) where
  -- The listener over the Redis store, with a notifications channel.
  abbrev pub redis_listener : EventsListener S
  redis_listener = record { store = redis_manager csm; notifies = true }

  snoc_ne : (xs : List EventResponse) (x : EventResponse) → xs ++ x ∷ [] ≢ xs
  snoc_ne [] x h = cc
  snoc_ne (y ∷ xs) x h = snoc_ne xs x (tail-eq_of_cons-eq h)

  noted-quiet :
      (request : EventRequest) (code : StatusCode) (details : Text) (s : Scene S)
      → (concluded redis_listener request code details s).1.posted ≡ s.posted
      → code ≡ success
  noted-quiet request success details s h = refl
  noted-quiet request missing_destination details s h =
      absurd (snoc_ne s.posted _ (sym (report-posted redis_listener _ _) ∙ h))
  noted-quiet request fsm_not_found details s h =
      absurd (snoc_ne s.posted _ (sym (report-posted redis_listener _ _) ∙ h))
  noted-quiet request internal_error details s h =
      absurd (snoc_ne s.posted _ (sym (report-posted redis_listener _ _) ∙ h))

  -- No call of the Redis store that the listener makes panics, if the encodings do not.
  pub redis_listener-Calm :
      (request : EventRequest) (evt : Event) → IsCalm csm → Calm redis_listener request evt
  unfolding put_event add_event_outcome
  redis_listener-Calm request evt calm = record {
    calm_put = λ w. puts request.event w;
    calm_tx = λ w n. elim (Option-cases evt.transition) [
      | inl e ↦ absurd (n e)
      | inr (t, e) ↦ tx_process_event_calm csm calm request.id request.config evt t e w
    ];
    calm_outcome = λ response w. reports response.event_id response.outcome w;
  }
    where
      puts : (o : Option Event) (w : S) → (put_event csm o request.config never_expire w).0 ≢ panic
      puts none w h = cc
      puts (some e) w h = put_calm csm csm.wires.event _ e never_expire w (calm.marshals_event e) h

      reports :
          (id : Text) (o : Option EventOutcome) (w : S)
          → (add_event_outcome csm id request.config o never_expire w).0 ≢ panic
      reports id none w h = cc
      reports id (some o) w h =
          put_calm csm csm.wires.outcome _ o never_expire w (calm.marshals_outcome o) h

  module _ (laws : Laws csm.client) where
    -- The event was stored in the state `s`, and a transaction that it made committed; then a success
    -- was reported.
    pub record Succeeded (request : EventRequest) (evt : Event) (s : Scene S) : Type 0 where
      pub stored : S
      pub changed : S
      pub puts : put_event csm (some evt) request.config never_expire s.world ≡ (ok tt, stored)
      pub commits : Committed csm request.id request.config evt laws stored changed
      pub reports :
          handle redis_listener request s
          ≡ report_outcome redis_listener
              (make_response request success [])
              (record s { world = changed })

    settle :
        (request : EventRequest) (evt : Event) (s : Scene S) {code : StatusCode} {details : Text}
        (w : S)
        → IsPlain request.config
        → request.event ≡ some evt
        → Verdict redis_listener request s.world code details w
        → code ≡ success
        → handle redis_listener request s
          ≡ concluded redis_listener request code details (record s { world = w })
        → Succeeded request evt s
    settle request evt s w plain g (no_id a) e h = cc
    settle request evt s w plain g (no_config a b) e h = cc
    settle request evt s w plain g (not_stored a b c) e h = cc
    settle request evt s w plain g (failed evt2 a b c d f g') e h = absurd (FailureCode-ne g' e)
    settle request evt s w plain g (processed evt2 {w'} a b c d f) e h =
        let same : evt2 ≡ evt = cc in
        record {
          stored = w';
          changed = w;
          puts = sym (ap (λ o. put_event csm o request.config never_expire s.world) g) ∙ d;
          commits =
              subst (λ x. Committed csm request.id request.config x laws w' w) same
                (subst (λ r. Committed csm request.id request.config evt2 laws w' r.1) f
                  (tx_process_event-Committed csm request.id request.config evt2 laws w' plain
                    (ap (λ r. r.0) f)));
          reports = h;
        }

    -- If a round over the Redis store ends without a panic and posts nothing on its channel, the
    -- event was stored, its transaction committed, and a success was reported (for a configuration
    -- name without # and :).
    pub quiet-Succeeded :
        (request : EventRequest) (evt : Event) (s : Scene S)
        → IsPlain request.config
        → request.event ≡ some evt
        → (handle redis_listener request s).0 ≡ ok tt
        → (handle redis_listener request s).1.posted ≡ s.posted
        → Succeeded request evt s
    quiet-Succeeded request evt s plain g h q =
        let handled = handle-Concluded redis_listener request s (λ e. cc) in
        settle request evt s handled.world plain g handled.verdict
          (noted-quiet request handled.code handled.details (record s { world = handled.world })
            (ap (λ x. x.1.posted) (sym handled.ends) ∙ q))
          handled.ends
