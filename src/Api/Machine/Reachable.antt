-- ===== src/Api/Machine/Reachable.antt =====
-- pkg/api/fsm.go: what holds of every machine that the methods can make.
use go_statemachine.Prelude.{
  ◌≡◌, inl, inr, refl, sym, subst, true, false, some, List, [], ◌∷◌, All, arith, Memᴰ,
}
use go_statemachine.Protos.{Transition, Event, Configuration}
use go_statemachine.Go.Result.{ok}
use go_statemachine.Api.Configuration.{cfg_has_state}
use go_statemachine.Api.Machine.{
  ConfiguredStateMachine, new_state_machine, follow, send_event, reset, is_valid,
}
use go_statemachine.Api.Machine.Step.{Fires, Fires-Memᴰ, send_event-Fires}
use go_statemachine.Api.Machine.History.{
  IsConsistent, send_event_moves, send_event-IsConsistent, new_state_machine-IsConsistent,
  reset-IsConsistent, send_all, replay-history,
}

-- The machines that come from `c` by the constructor and the methods, in any order.
pub data Reachable (c : Configuration) : ConfiguredStateMachine → Type 0 where
  created : {x : ConfiguredStateMachine} → new_state_machine c ≡ ok x → Reachable c x
  sent :
      {x : ConfiguredStateMachine} (evt : Event) → Reachable c x → Reachable c (send_event evt x).1
  cleared : {x : ConfiguredStateMachine} → Reachable c x → Reachable c (reset x)

Reachable-IsConsistent :
    {c : Configuration} {x : ConfiguredStateMachine} → Reachable c x → IsConsistent x
Reachable-IsConsistent {c} (created h) = new_state_machine-IsConsistent c h
Reachable-IsConsistent (sent evt r) = send_event-IsConsistent evt (Reachable-IsConsistent r)
Reachable-IsConsistent (cleared r) = reset-IsConsistent (Reachable-IsConsistent r)

config-send_event :
    (evt : Event) (x : ConfiguredStateMachine) → (send_event evt x).1.config ≡ x.config
unfolding send_event
config-send_event evt x = ground arith

config_id-send_event :
    (evt : Event) (x : ConfiguredStateMachine)
    → (send_event evt x).1.fsm.config_id ≡ x.fsm.config_id
unfolding send_event
config_id-send_event evt x = ground arith

reset-send_event : (evt : Event) (x : ConfiguredStateMachine) → reset (send_event evt x).1 ≡ reset x
unfolding reset
reset-send_event evt x = ground (arith, config-send_event evt x, config_id-send_event evt x)

reset_idem : (x : ConfiguredStateMachine) → reset (reset x) ≡ reset x
unfolding reset
reset_idem x = refl

new-reset :
    (c : Configuration) {x : ConfiguredStateMachine}
    → new_state_machine c ≡ ok x
    → new_state_machine c ≡ ok (reset x)
unfolding new_state_machine reset
new-reset c h = ground arith

-- Whatever events a machine has seen, Reset makes it again the machine that it was when it was
-- created.
pub reset-Reachable :
    {c : Configuration} {x : ConfiguredStateMachine}
    → Reachable c x
    → new_state_machine c ≡ ok (reset x)
reset-Reachable {c} (created h) = new-reset c h
reset-Reachable (sent evt r) = rw reset-send_event (reset-Reachable r)
reset-Reachable (cleared r) = rw reset_idem (reset-Reachable r)

-- The run of the configuration that the history of a reachable machine records can be sent again.
pub Reachable-replay :
    {c : Configuration} {x : ConfiguredStateMachine}
    → Reachable c x
    → send_all x.fsm.history (reset x) ≡ x
Reachable-replay r = replay-history (Reachable-IsConsistent r)

-- Every transition leads to one of the configuration's states; CheckValid does not check it.
abbrev pub IsClosed : Configuration → Type 0
IsClosed c = All (λ t. cfg_has_state c t.to ≡ true) c.transitions

All-Memᴰ :
    (P : Transition → Type 0) (t : Transition) (ts : List Transition) → All P ts → Memᴰ t ts → P t
All-Memᴰ P t [] a m = elim m [ ]
All-Memᴰ P t (u ∷ ts) (h, a) (Memᴰ.head e) = subst P (sym e) h
All-Memᴰ P t (u ∷ ts) (h, a) (Memᴰ.tail m) = All-Memᴰ P t ts a m

follow-is_valid :
    (evt : Event) (x : ConfiguredStateMachine) (t : Transition)
    → is_valid x ≡ true
    → cfg_has_state x.config t.to ≡ true
    → is_valid (follow evt x t) ≡ true
unfolding is_valid
follow-is_valid evt x t v h = ground arith

follow-not-is_valid :
    (evt : Event) (x : ConfiguredStateMachine) (t : Transition)
    → cfg_has_state x.config t.to ≡ false
    → is_valid (follow evt x t) ≡ false
unfolding is_valid
follow-not-is_valid evt x t h = ground arith

-- A valid machine stays valid, if the transitions of its configuration lead to its states.
pub send_event-is_valid :
    (evt : Event) (x : ConfiguredStateMachine)
    → IsClosed x.config
    → is_valid x ≡ true
    → is_valid (send_event evt x).1 ≡ true
send_event-is_valid evt x closed v = elim (send_event_moves evt x) [
  | inl same ↦ rw same v
  | inr (w, t, e, f, h) ↦ rw h (
      follow-is_valid evt x t v (
        All-Memᴰ (λ u. cfg_has_state x.config u.to ≡ true) t x.config.transitions closed
          (Fires-Memᴰ f)))
]

-- If the transition that fires leads to a state that the configuration does not list, then the event
-- is accepted and the machine is no longer valid.
pub send_event_escapes :
    (evt : Event) (x : ConfiguredStateMachine) (w t : Transition)
    → evt.transition ≡ some w
    → Fires x.fsm.state w.event t x.config.transitions
    → cfg_has_state x.config t.to ≡ false
    → (send_event evt x ≡ (ok tt, follow evt x t)) × (is_valid (send_event evt x).1 ≡ false)
send_event_escapes evt x w t e f out =
    let moved = send_event-Fires evt x w t e f in
    (moved, rw moved (follow-not-is_valid evt x t out))
