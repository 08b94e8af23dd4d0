-- ===== src/Examples/Api.antt =====
-- The theorems on configurations, machines and events, at concrete ones.
use go_statemachine.Prelude.{
  text, ◌≡◌, ◌↔◌, ◌⊎◌, refl, true, false, none, some, [], ◌∷◌, All, arith, ◌==◌,
}
use go_statemachine.Protos.{Transition, Configuration}
use go_statemachine.Go.Result.{ok, err, panic}
use go_statemachine.Go.Strings.{split}
use go_statemachine.Api.Errors.{
  unexpected_transition_error, missing_name_configuration_error,
  unreachable_state_configuration_error,
}
use go_statemachine.Api.Configuration.{check_valid, cfg_has_state, any_state, check_states, is_used}
use go_statemachine.Api.Configuration.Validity.{IsValid, check_valid_iff}
use go_statemachine.Api.Machine.{
  ConfiguredStateMachine, new_state_machine, follow, send_event, reset, is_valid, find_transition,
}
use go_statemachine.Api.Machine.Step.{Allows, Fires, hit, skip, Took, send_event_cases}
use go_statemachine.Api.Machine.History.{send_all}
use go_statemachine.Api.Machine.Reachable.{
  Reachable, created, sent, Reachable-replay, send_event-is_valid, send_event_escapes,
}
use go_statemachine.Api.Event.{update_event}
use go_statemachine.Storage.Errors.{not_found_error, is_not_found_err, already_exists_error}
use go_statemachine.Storage.Errors.NotFound.{is_not_found_err-twice}
use go_statemachine.Storage.Keys.Laws.{machine, key_text_injective}
use go_statemachine.Examples.Orders.{step, orders, leaky, event_of, machine_in, fresh}

api : Unit {0}
unfolding check_valid new_state_machine send_event reset is_valid find_transition any_state
    check_states is_used ◌==◌ update_event is_not_found_err split
api = tt

abbrev shipped : ConfiguredStateMachine
shipped = machine_in orders (text "sent") (
    record (event_of (text "ship")) {
      transition = some (step (text "new") (text "sent") (text "ship"));
    }
    ∷ [])

ship_and_refuse :
    (new_state_machine orders ≡ ok fresh)
    × (send_event (event_of (text "ship")) fresh ≡ (ok tt, shipped))
    × (send_event (event_of (text "ship")) shipped ≡ (err unexpected_transition_error, shipped))
    × (send_event (record (event_of (text "ship")) { transition = none }) fresh ≡ (panic, fresh))
    × (reset shipped ≡ fresh)
    × (is_valid shipped ≡ true)
unfolding api
ship_and_refuse = (refl, refl, refl, refl, refl, refl)

checks :
    (check_valid orders ≡ none)
    × (check_valid (record orders { name = [] }) ≡ some missing_name_configuration_error)
    × (check_valid (record orders { states = text "new" ∷ text "odd" ∷ [] })
        ≡ some (unreachable_state_configuration_error (text "odd")))
unfolding api
checks = (refl, refl, refl)

recognised :
    (is_not_found_err (already_exists_error (text "k")) ≡ false)
    × (is_not_found_err unexpected_transition_error ≡ false)
    × (is_not_found_err (not_found_error (text "a b")) ≡ false)
unfolding api
recognised = (refl, refl, refl)

send_event_cases_example :
    ((t : Transition) × Fires (text "new") (text "ship") t orders.transitions
      × ((send_event (event_of (text "ship")) fresh).0 ≡ ok tt)
      × Took
          (event_of (text "ship"))
          (step [] [] (text "ship"))
          t
          fresh
          (send_event (event_of (text "ship")) fresh).1)
    ⊎ (All (λ t. ¬ Allows (text "new") (text "ship") t) orders.transitions
        × (send_event (event_of (text "ship")) fresh ≡ (err unexpected_transition_error, fresh)))
send_event_cases_example =
    send_event_cases (event_of (text "ship")) fresh (step [] [] (text "ship")) refl

shipped-Reachable : Reachable orders (send_event (event_of (text "ship")) fresh).1
shipped-Reachable = sent (event_of (text "ship")) (created ship_and_refuse.0)

Reachable-replay_example :
    send_all
      (send_event (event_of (text "ship")) fresh).1.fsm.history
      (reset (send_event (event_of (text "ship")) fresh).1)
    ≡ (send_event (event_of (text "ship")) fresh).1
Reachable-replay_example = Reachable-replay shipped-Reachable

is_valid-fresh : is_valid fresh ≡ true
unfolding api
is_valid-fresh = refl

orders_closed : All (λ t. cfg_has_state orders t.to ≡ true) orders.transitions
unfolding api
orders_closed = (refl, tt)

send_event-is_valid_example : is_valid (send_event (event_of (text "ship")) fresh).1 ≡ true
send_event-is_valid_example =
    send_event-is_valid (event_of (text "ship")) fresh orders_closed is_valid-fresh

abbrev lost : Transition
lost = step (text "new") (text "lost") (text "lose")

lost-Fires : Fires (text "new") (text "lose") lost leaky.transitions
lost-Fires =
    skip (step (text "new") (text "sent") (text "ship")) (λ a. ground arith) (hit (refl, refl))

lost_not_listed : cfg_has_state leaky (text "lost") ≡ false
unfolding api
lost_not_listed = refl

send_event_escapes_example :
    (send_event (event_of (text "lose")) (machine_in leaky (text "new") [])
      ≡ (ok tt, follow (event_of (text "lose")) (machine_in leaky (text "new") []) lost))
    × (is_valid (send_event (event_of (text "lose")) (machine_in leaky (text "new") [])).1 ≡ false)
send_event_escapes_example =
    send_event_escapes (event_of (text "lose")) (machine_in leaky (text "new") [])
      (step [] [] (text "lose")) lost refl lost-Fires lost_not_listed

check_valid_iff_example : (check_valid orders ≡ none) ↔ IsValid orders
check_valid_iff_example = check_valid_iff orders

abbrev odd : Configuration
odd = record orders { states = text "new" ∷ text "odd" ∷ [] }

is_not_found_err-twice_example :
    is_not_found_err (not_found_error (not_found_error (text "configs#orders:v1"))) ≡ false
is_not_found_err-twice_example = is_not_found_err-twice (text "configs#orders:v1")

key_text_injective_example :
    machine (text "o1") (text "orders") ≡ machine (text "o1") (text "orders")
key_text_injective_example =
    key_text_injective (machine (text "o1") (text "orders")) (machine (text "o1") (text "orders"))
      (omega arith) (omega arith) refl
