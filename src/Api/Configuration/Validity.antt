-- ===== src/Api/Configuration/Validity.antt =====
-- pkg/api/fsm.go, CheckValid: what a valid configuration is, without the code.
use go_statemachine.Prelude.{
  Text, ◌≡◌, ◌≢◌, ◌↔◌, ◌⊎◌, inl, inr, refl, ap, some, ◌++◌, Bool-cases, true, none, List, [], ◌∷◌,
  All, Any, arith, eq_iff,
}
use go_statemachine.Go.Result.{Error}
use go_statemachine.Api.Errors.{unreachable_state_configuration_error}
use go_statemachine.Protos.{Transition, Configuration}
use go_statemachine.Api.Configuration.{has_state, any_state, is_used, check_states, check_valid}

abbrev pub Uses : Text → Transition → Type 0
Uses s t = (s ≡ t.from) ⊎ (s ≡ t.to)

-- What CheckValid promises of a configuration.
pub record IsValid (c : Configuration) : Type 0 where
  pub named : c.name ≢ []
  pub started : c.starting_state ≢ []
  pub start_listed : Any (λ s. s ≡ c.starting_state) c.states
  pub all_used : All (λ s. Any (Uses s) c.transitions) c.states

pub any_state_iff :
    (state : Text) (states : List Text)
    → (any_state state states ≡ true) ↔ Any (λ s. s ≡ state) states
unfolding any_state
any_state_iff state [] = ground arith
any_state_iff state (s ∷ states) = ground (arith, eq_iff s state, any_state_iff state states)

has_state_iff : (t : Transition) (s : Text) → (has_state t s ≡ true) ↔ Uses s t
unfolding has_state
has_state_iff t s = ground (arith, eq_iff s t.from, eq_iff s t.to)

is_used_iff : (ts : List Transition) (s : Text) → (is_used ts s ≡ true) ↔ Any (Uses s) ts
unfolding is_used
is_used_iff [] s = ground arith
is_used_iff (t ∷ ts) s = ground (arith, has_state_iff t s, is_used_iff ts s)

check_states_iff :
    (ts : List Transition) (states : List Text)
    → (check_states ts states ≡ none) ↔ All (λ s. Any (Uses s) ts) states
unfolding check_states
check_states_iff ts [] = ground arith
check_states_iff ts (s ∷ states) = ground (arith, is_used_iff ts s, check_states_iff ts states)

listed_not_empty : (s : Text) (states : List Text) → Any (λ u. u ≡ s) states → states ≢ []
listed_not_empty s [] a = elim a [ ]
listed_not_empty s (u ∷ states) a = ground arith

-- CheckValid returns nil for exactly the configurations with a name, a non-empty starting state that
-- is one of the states, and no state outside all transitions.
pub check_valid_iff : (c : Configuration) → (check_valid c ≡ none) ↔ IsValid c
unfolding check_valid
check_valid_iff c = ground (
  arith,
  eq_iff c.name [],
  eq_iff c.starting_state [],
  any_state_iff c.starting_state c.states,
  check_states_iff c.transitions c.states,
  listed_not_empty c.starting_state c.states,
)

-- The first state of the list that no transition uses.
pub record IsFirstUnused (ts : List Transition) (states : List Text) (s : Text) : Type 0 where
  pub before : List Text
  pub after : List Text
  pub split : states ≡ before ++ s ∷ after
  pub used_before : All (λ u. Any (Uses u) ts) before
  pub unused : ¬ Any (Uses s) ts

IsFirstUnused-cons :
    (ts : List Transition) (u s : Text) {states : List Text}
    → Any (Uses u) ts
    → IsFirstUnused ts states s
    → IsFirstUnused ts (u ∷ states) s
IsFirstUnused-cons ts u s used f = record {
  before = u ∷ f.before;
  after = f.after;
  split = ap (λ l. u ∷ l) f.split;
  used_before = (used, f.used_before);
  unused = f.unused;
}

check_states_error :
    (ts : List Transition) (states : List Text) (e : Error)
    → check_states ts states ≡ some e
    → (s : Text) × IsFirstUnused ts states s × (e ≡ unreachable_state_configuration_error s)
unfolding check_states
check_states_error ts [] e h = cc
check_states_error ts (s ∷ states) e h = elim (Bool-cases (is_used ts s)) [
  | inl used ↦
      let (u, first, same) = check_states_error ts states e (ground arith) in
      (u, IsFirstUnused-cons ts s u ((is_used_iff ts s).0 used) first, same)
  | inr unused ↦ (
    s,
    record {
      before = [];
      after = states;
      split = refl;
      used_before = tt;
      unused = λ a. ground (arith, is_used_iff ts s);
    },
    ground arith,
  )
]

-- Where everything before the last loop is in order, the error names the first state that no
-- transition uses.
pub check_valid_error :
    (c : Configuration) (e : Error)
    → c.name ≢ []
    → c.starting_state ≢ []
    → Any (λ s. s ≡ c.starting_state) c.states
    → check_valid c ≡ some e
    → (s : Text) × IsFirstUnused c.transitions c.states s
      × (e ≡ unreachable_state_configuration_error s)
unfolding check_valid
check_valid_error c e named started listed h = check_states_error c.transitions c.states e (
    ground (
      arith,
      eq_iff c.name [],
      eq_iff c.starting_state [],
      any_state_iff c.starting_state c.states,
      listed_not_empty c.starting_state c.states,
    ))
