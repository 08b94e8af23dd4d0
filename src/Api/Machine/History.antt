-- ===== src/Api/Machine/History.antt =====
-- pkg/api/fsm.go: the history of a machine is a run of its configuration, and it can be replayed.
use mathlib.Core.List.{append_assoc, append-nil}
use go_statemachine.Prelude.{
  Text, ◌≡◌, ◌⊎◌, inl, inr, refl, ◌∙◌, sym, ap, subst, Option, none, some, List, [], ◌∷◌, ◌++◌,
  arith,
}
use go_statemachine.Protos.{Transition, Event, Configuration}
use go_statemachine.Go.Result.{Result, ok, err, panic}
use go_statemachine.Api.Configuration.{get_version_id}
use go_statemachine.Api.Machine.{
  ConfiguredStateMachine, new_state_machine, find_transition, set_ends, conclude, follow,
  send_event, reset,
}
use go_statemachine.Api.Machine.Step.{
  Fires, Fires-Allows, find_transition_of_Fires, send_event_follows,
}

-- The events lead from `start` to `end`, each by the transition that it records, and that transition
-- is the one that fires.
abbrev pub Traces : List Transition → Text → List Event → Text → Type 0
Traces ts start [] end = start ≡ end
Traces ts start (evt ∷ history) end =
    (t : Transition) × (evt.transition ≡ some t)
    × Fires start t.event t ts
    × Traces ts t.to history end

pub record IsConsistent (x : ConfiguredStateMachine) : Type 0 where
  pub identified : x.fsm.config_id ≡ get_version_id x.config
  pub traced : Traces x.config.transitions x.config.starting_state x.fsm.history x.fsm.state

Traces-concat :
    (ts : List Transition) (start : Text) (history : List Event) {end : Text} (evt : Event)
    (t : Transition)
    → Traces ts start history end
    → evt.transition ≡ some t
    → Fires end t.event t ts
    → Traces ts start (history ++ evt ∷ []) t.to
Traces-concat ts start [] evt t h e f = (t, e, rw h f, refl)
Traces-concat ts start (first ∷ history) evt t (u, p, g, h) e f =
    (u, p, g, Traces-concat ts u.to history evt t h e f)

find_transition-none :
    (state : Text) (ts : List Transition) (t : Transition)
    → ¬ (find_transition state none ts ≡ ok t)
unfolding find_transition
find_transition-none state [] t h = cc
find_transition-none state (u ∷ ts) t h = ground (arith, find_transition-none state ts t)

abbrev pub Unmoved : Event → ConfiguredStateMachine → Type 0
Unmoved evt x = (send_event evt x).1 ≡ x

abbrev pub Moved : Event → ConfiguredStateMachine → Type 0
Moved evt x =
    (w : Transition) × (t : Transition) × (evt.transition ≡ some w)
    × Fires x.fsm.state w.event t x.config.transitions
    × (send_event evt x ≡ (ok tt, follow evt x t))

Option-cases : (o : Option Transition) → (o ≡ none) ⊎ ((w : Transition) × (o ≡ some w))
Option-cases none = inl refl
Option-cases (some w) = inr (w, refl)

stays :
    (evt : Event) (x : ConfiguredStateMachine) (r : Result Transition)
    → ((t : Transition) → ¬ (r ≡ ok t))
    → (conclude evt x r).1 ≡ x
stays evt x (ok t) n = absurd (n t refl)
stays evt x (err e) n = refl
stays evt x panic n = refl

pub send_event_moves : (evt : Event) (x : ConfiguredStateMachine) → Unmoved evt x ⊎ Moved evt x
unfolding send_event
send_event_moves evt x = elim (Option-cases evt.transition) [
  | inl e ↦ inl (
      stays evt x (find_transition x.fsm.state evt.transition x.config.transitions) (λ t h.
        find_transition-none x.fsm.state x.config.transitions t
          (subst (λ o. find_transition x.fsm.state o x.config.transitions ≡ ok t) e h)))
  | inr (w, e) ↦ elim (send_event_follows evt x w e) [
    | inl (t, f, h) ↦ inr (w, t, e, f, h)
    | inr (a, h) ↦ inl (ap (λ r. r.1) h)
  ]
]

-- The transition that the history records is the one that fired.
recorded :
    (x : ConfiguredStateMachine) (w t : Transition)
    → Fires x.fsm.state w.event t x.config.transitions
    → set_ends x.fsm.state t.to (some w) ≡ some t
recorded x w t f = let (from, event) = Fires-Allows f in ground arith

follow-IsConsistent :
    (evt : Event) (x : ConfiguredStateMachine) (w t : Transition)
    → evt.transition ≡ some w
    → Fires x.fsm.state w.event t x.config.transitions
    → IsConsistent x
    → IsConsistent (follow evt x t)
follow-IsConsistent evt x w t e f c = record {
  identified = c.identified;
  traced =
      Traces-concat x.config.transitions x.config.starting_state x.fsm.history _ t c.traced
        (rw e (recorded x w t f))
        (subst (λ (ev : Text). Fires x.fsm.state ev t x.config.transitions) (sym (Fires-Allows f).1)
          f);
}

pub send_event-IsConsistent :
    (evt : Event) {x : ConfiguredStateMachine} → IsConsistent x → IsConsistent (send_event evt x).1
send_event-IsConsistent evt {x} c = elim (send_event_moves evt x) [
  | inl same ↦ rw same c
  | inr (w, t, e, f, h) ↦ rw h (follow-IsConsistent evt x w t e f c)
]

pub new_state_machine-IsConsistent :
    (c : Configuration) {x : ConfiguredStateMachine} → new_state_machine c ≡ ok x → IsConsistent x
unfolding new_state_machine
new_state_machine-IsConsistent c h = ground arith

pub reset-IsConsistent : {x : ConfiguredStateMachine} → IsConsistent x → IsConsistent (reset x)
unfolding reset
reset-IsConsistent c = record { identified = c.identified; traced = refl }

-- The events are sent one after the other.
abbrev pub send_all : List Event → ConfiguredStateMachine → ConfiguredStateMachine
send_all [] x = x
send_all (evt ∷ events) x = send_all events (send_event evt x).1

-- The machine moved along `t`, with `o` as the recorded transition.
abbrev moved_by :
    ConfiguredStateMachine → Event → Transition → Option Transition → ConfiguredStateMachine
moved_by x evt t o = record x {
  fsm = record x.fsm {
    state = t.to;
    history = x.fsm.history ++ record evt { transition = o } ∷ [];
  };
}

send_event_recorded :
    (evt : Event) (x : ConfiguredStateMachine) (t : Transition)
    → evt.transition ≡ some t
    → Fires x.fsm.state t.event t x.config.transitions
    → (send_event evt x).1
      ≡ record x { fsm = record x.fsm { state = t.to; history = x.fsm.history ++ evt ∷ [] } }
unfolding send_event
send_event_recorded evt x t e f =
    let found =
      subst (λ o. find_transition x.fsm.state o x.config.transitions ≡ ok t) (sym e)
        (find_transition_of_Fires t f) in
    ap (λ r. (conclude evt x r).1) found
    ∙ ap (moved_by x evt t) (ap (set_ends x.fsm.state t.to) e ∙ recorded x t t f ∙ sym e)

replay :
    (history : List Event) (x : ConfiguredStateMachine) (end : Text)
    → Traces x.config.transitions x.fsm.state history end
    → send_all history x
      ≡ record x { fsm = record x.fsm { state = end; history = x.fsm.history ++ history } }
replay [] x end h = ground (arith, append-nil x.fsm.history)
replay (evt ∷ history) x end (t, e, f, h) = rw (send_event_recorded evt x t e f) (
    replay history _ end h
    ∙ ap (λ (past : List Event). record x { fsm = record x.fsm { state = end; history = past } })
        (append_assoc x.fsm.history (evt ∷ []) history))

-- Sending the recorded events again to the machine that was reset gives the machine back.
pub replay-history :
    {x : ConfiguredStateMachine} → IsConsistent x → send_all x.fsm.history (reset x) ≡ x
unfolding reset
replay-history {x} c = replay x.fsm.history (reset x) x.fsm.state c.traced
