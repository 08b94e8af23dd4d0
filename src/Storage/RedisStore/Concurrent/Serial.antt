-- ===== src/Storage/RedisStore/Concurrent/Serial.antt =====
-- pkg/storage/redis_store.go, TxProcessEvent: the machine that a sequence of writes comes to, each one
-- on top of the one before it.
use go_statemachine.Prelude.{Text, ◌≡◌, refl, ◌∙◌, sym, ap, List, [], ◌∷◌, ◌++◌, map}
use go_statemachine.Protos.{Transition, Event, FiniteStateMachine}
use go_statemachine.Go.Result.{Result, ok, err, panic}
use go_statemachine.Api.Machine.{ConfiguredStateMachine, find_transition, conclude, send_event}
use go_statemachine.Storage.Keys.{new_key_for_config}
use go_statemachine.Storage.RedisStore.{RedisStore}
use go_statemachine.Storage.RedisStore.Values.{Reads}
use go_statemachine.Storage.RedisStore.Concurrent.{Plan, Write, was_sent, was_put}

module _ {S Bytes : Type 0} (csm : RedisStore S Bytes) where
  abbrev pub KnowsConfig : Plan → S → Type 0
  KnowsConfig p s = Reads csm csm.wires.configuration (new_key_for_config p.fsm.config_id) p.cfg s

  -- Each transaction that committed sent its event, by SendEvent with the stored configuration, to
  -- the machine that the write before it left, and wrote what came of it.
  pub data Serial (start : FiniteStateMachine) (s : S)
      : List Write → FiniteStateMachine → Type 0 where
    unchanged : Serial start s [] start
    sends :
        {log : List Write} (p : Plan)
        → Serial start s log p.fsm
        → KnowsConfig p s
        → send_event p.attempt.evt (record { config = p.cfg; fsm = p.fsm }) ≡ (ok tt, p.moved)
        → Serial start s (was_sent p ∷ log) p.moved.fsm
    overwrites :
        {log : List Write} {before : FiniteStateMachine} (fsm : FiniteStateMachine)
        → Serial start s log before
        → Serial start s (was_put fsm ∷ log) fsm

  pub Serial-keeps :
      {start : FiniteStateMachine} {s t : S} {log : List Write} {fsm : FiniteStateMachine}
      → ((p : Plan) → KnowsConfig p s → KnowsConfig p t)
      → Serial start s log fsm
      → Serial start t log fsm
  Serial-keeps keep unchanged = unchanged
  Serial-keeps keep (sends p before known h) = sends p (Serial-keeps keep before) (keep p known) h
  Serial-keeps keep (overwrites fsm before) = overwrites fsm (Serial-keeps keep before)

abbrev pub event_ids : FiniteStateMachine → List Text
event_ids fsm = map (λ (e : Event). e.event_id) fsm.history

-- The events of the machine that was put last, or of the first one, and those of the transactions that
-- committed behind it, in this order.
abbrev pub trail : FiniteStateMachine → List Write → List Text
trail start [] = event_ids start
trail start (was_sent p ∷ log) = trail start log ++ p.attempt.evt.event_id ∷ []
trail start (was_put fsm ∷ log) = event_ids fsm

event_ids-snoc :
    (es : List Event) (e : Event)
    → map (λ (e : Event). e.event_id) (es ++ e ∷ [])
      ≡ map (λ (e : Event). e.event_id) es ++ e.event_id ∷ []
event_ids-snoc [] e = refl
event_ids-snoc (x ∷ es) e = ap (λ l. x.event_id ∷ l) (event_ids-snoc es e)

concluded :
    (evt : Event) (x y : ConfiguredStateMachine) (r : Result Transition)
    → conclude evt x r ≡ (ok tt, y)
    → event_ids y.fsm ≡ event_ids x.fsm ++ evt.event_id ∷ []
concluded evt x y (ok t) h =
    ap (λ (r : Result (Unit {0}) × ConfiguredStateMachine). event_ids r.1.fsm) (sym h)
    ∙ event_ids-snoc x.fsm.history _
concluded evt x y (err e) h = cc
concluded evt x y panic h = cc

send_event_history :
    (evt : Event) (x y : ConfiguredStateMachine)
    → send_event evt x ≡ (ok tt, y)
    → event_ids y.fsm ≡ event_ids x.fsm ++ evt.event_id ∷ []
unfolding send_event
send_event_history evt x y h =
    concluded evt x y (find_transition x.fsm.state evt.transition x.config.transitions) h

-- The ids of the history are those of the trail.
pub Serial-trail :
    {S Bytes : Type 0} (csm : RedisStore S Bytes) (start fsm : FiniteStateMachine) (s : S)
    (log : List Write)
    → Serial csm start s log fsm
    → event_ids fsm ≡ trail start log
Serial-trail csm start fsm s [] unchanged = refl
Serial-trail csm start fsm s (was_sent _ ∷ log) (sends p before known h) =
    send_event_history p.attempt.evt _ p.moved h
    ∙ ap (λ l. l ++ p.attempt.evt.event_id ∷ []) (Serial-trail csm start p.fsm s log before)
Serial-trail csm start fsm s (was_put _ ∷ log) (overwrites f before) = refl
