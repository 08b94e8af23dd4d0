-- ===== src/Api/Machine/Step.antt =====
-- pkg/api/fsm.go, SendEvent: which transition an event takes, without the loop.
use go_statemachine.Prelude.{
  Text, ◌++◌, ap, sym, subst, ◌≡◌, ◌≢◌, ◌⊎◌, inl, inr, refl, some, List, [], ◌∷◌, All, arith, ◌==◌,
  eq_iff, ◌∙◌, Memᴰ, Bool-cases,
}
use go_statemachine.Protos.{Transition, Event}
use go_statemachine.Go.Result.{ok, err}
use go_statemachine.Api.Errors.{unexpected_transition_error}
use go_statemachine.Api.Machine.{
  ConfiguredStateMachine, find_transition, set_ends, follow, send_event,
}

-- The transition leads from the state for the event.
abbrev pub Allows : Text → Text → Transition → Type 0
Allows state event t = (t.from ≡ state) × (t.event ≡ event)

-- `t` is the first of the transitions that the state allows for the event.
pub data Fires (state event : Text) (t : Transition) : List Transition → Type 0 where
  hit : {ts : List Transition} → Allows state event t → Fires state event t (t ∷ ts)
  skip :
      (u : Transition) {ts : List Transition}
      → ¬ Allows state event u
      → Fires state event t ts
      → Fires state event t (u ∷ ts)

pub Fires-Allows :
    {state event : Text} {t : Transition} {ts : List Transition}
    → Fires state event t ts
    → Allows state event t
Fires-Allows (hit a) = a
Fires-Allows (skip u n f) = Fires-Allows f

pub Fires-Memᴰ :
    {state event : Text} {t : Transition} {ts : List Transition}
    → Fires state event t ts
    → Memᴰ t ts
Fires-Memᴰ (hit a) = Memᴰ.head refl
Fires-Memᴰ (skip u n f) = Memᴰ.tail (Fires-Memᴰ f)

pub find_transition_of_Fires :
    {state : Text} (w : Transition) {t : Transition} {ts : List Transition}
    → Fires state w.event t ts
    → find_transition state (some w) ts ≡ ok t
unfolding find_transition
find_transition_of_Fires {state} w {t} (hit a) =
    ground (arith, eq_iff t.from state, eq_iff t.event w.event)
find_transition_of_Fires {state} w (skip u n f) =
    ground (arith, eq_iff u.from state, eq_iff u.event w.event, find_transition_of_Fires w f)

-- What the loop finds: the transition that fires, or none that is allowed.
abbrev Found : Text → Transition → List Transition → Type 0
Found state w ts =
    ((t : Transition) × Fires state w.event t ts × (find_transition state (some w) ts ≡ ok t))
    ⊎ (All (λ t. ¬ Allows state w.event t) ts
        × (find_transition state (some w) ts ≡ err unexpected_transition_error))

Found-skip :
    (state : Text) (w u : Transition) (ts : List Transition)
    → ¬ Allows state w.event u
    → find_transition state (some w) (u ∷ ts) ≡ find_transition state (some w) ts
    → Found state w ts
    → Found state w (u ∷ ts)
Found-skip state w u ts n e (inl (t, f, h)) = inl (t, skip u n f, e ∙ h)
Found-skip state w u ts n e (inr (a, h)) = inr ((n, a), e ∙ h)

find_transition_cases : (state : Text) (w : Transition) (ts : List Transition) → Found state w ts
unfolding find_transition
find_transition_cases state w [] = inr (tt, refl)
find_transition_cases state w (u ∷ ts) =
    let rest = find_transition_cases state w ts in
    elim (Bool-cases (u.from == state)) [
      | inl p ↦ elim (Bool-cases (u.event == w.event)) [
        | inl q ↦ inl (u, hit ((eq_iff _ _).0 p, (eq_iff _ _).0 q), ground arith)
        | inr q ↦
            Found-skip state w u ts (λ a. ground (arith, eq_iff u.event w.event)) (ground arith)
              rest
      ]
      | inr p ↦
          Found-skip state w u ts (λ a. ground (arith, eq_iff u.from state)) (ground arith) rest
    ]

-- The two branches by what the code does.
pub send_event_follows :
    (evt : Event) (x : ConfiguredStateMachine) (w : Transition)
    → evt.transition ≡ some w
    → ((t : Transition) × Fires x.fsm.state w.event t x.config.transitions
        × (send_event evt x ≡ (ok tt, follow evt x t)))
      ⊎ (All (λ t. ¬ Allows x.fsm.state w.event t) x.config.transitions
          × (send_event evt x ≡ (err unexpected_transition_error, x)))
unfolding send_event
send_event_follows evt x w e = elim (find_transition_cases x.fsm.state w x.config.transitions) [
  | inl (t, f, h) ↦ inl (t, f, rw (e, h))
  | inr (a, h) ↦ inr (a, rw (e, h))
]

-- What the machine is behind a transition: in the state to which it leads, and with the event, its
-- transition from the old state to the new one, at the end of the history. All else is as it was.
pub record Took (evt : Event) (w t : Transition) (x y : ConfiguredStateMachine) : Type 0 where
  pub state : y.fsm.state ≡ t.to
  pub recorded :
      y.fsm.history
      ≡ x.fsm.history
        ++ record evt { transition = some (record w { from = x.fsm.state; to = t.to }) } ∷ []
  pub same_id : y.fsm.config_id ≡ x.fsm.config_id
  pub same_config : y.config ≡ x.config

follow-Took :
    (evt : Event) (w t : Transition) (x : ConfiguredStateMachine)
    → evt.transition ≡ some w
    → Took evt w t x (follow evt x t)
follow-Took evt w t x e = record {
  state = refl;
  recorded =
      ap (λ o. x.fsm.history ++ record evt { transition = set_ends x.fsm.state t.to o } ∷ []) e;
  same_id = refl;
  same_config = refl;
}

-- An event with a transition either takes the first transition that the machine's state allows for
-- it: the machine is then in the state to which it leads, the event is at the end of the history,
-- its transition from the old state to the new one, and all else is as it was; or no transition is
-- allowed, and SendEvent returns UnexpectedTransitionError with the machine as it was.
pub send_event_cases :
    (evt : Event) (x : ConfiguredStateMachine) (w : Transition)
    → evt.transition ≡ some w
    → ((t : Transition) × Fires x.fsm.state w.event t x.config.transitions
        × ((send_event evt x).0 ≡ ok tt)
        × Took evt w t x (send_event evt x).1)
      ⊎ (All (λ t. ¬ Allows x.fsm.state w.event t) x.config.transitions
          × (send_event evt x ≡ (err unexpected_transition_error, x)))
send_event_cases evt x w e = elim (send_event_follows evt x w e) [
  | inl (t, f, h) ↦
      inl (t, f, ap (λ r. r.0) h, subst (λ r. Took evt w t x r.1) (sym h) (follow-Took evt w t x e))
  | inr refused ↦ inr refused
]

pub send_event-Fires :
    (evt : Event) (x : ConfiguredStateMachine) (w t : Transition)
    → evt.transition ≡ some w
    → Fires x.fsm.state w.event t x.config.transitions
    → send_event evt x ≡ (ok tt, follow evt x t)
unfolding send_event
send_event-Fires evt x w t e f = rw (e, find_transition_of_Fires w f)

-- Whatever the event, an error or a panic leaves the machine as it was.
pub send_event_fails :
    (evt : Event) (x : ConfiguredStateMachine)
    → (send_event evt x).0 ≢ ok tt
    → (send_event evt x).1 ≡ x
unfolding send_event
send_event_fails evt x h = ground arith
