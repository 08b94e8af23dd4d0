-- ===== src/Grpc/Server.antt =====
-- pkg/grpc/grpc_server.go: grpcSubscriber. What the context says of its deadline, which case a
-- select takes, and a generated identifier are arguments.
pub mod Events
pub mod Configs
pub mod Written
pub mod Machines
use go_statemachine.Prelude.{
  ℕ, Text, text, Bool, true, false, Option, none, some, List, [], ◌∷◌, ◌++◌, ◌==◌, if◌then◌else◌,
}
use go_statemachine.Protos.{
  Transition, Event, EventRequest, EventResponse, EventOutcome, Configuration, FiniteStateMachine,
  PutFsmRequest, GetFsmRequest, EntityResponse, config, fsm, PutResponse, ready, not_ready,
  HealthResponse,
}
use go_statemachine.Go.Result.{Error, Result, ok, err, panic}
use go_statemachine.Go.Fmt.{errorf}
use go_statemachine.Go.Strings.{contains}
use go_statemachine.Api.Errors.{missing_destination_error, missing_event_name_error}
use go_statemachine.Api.Configuration.{check_valid, get_version_id}
use go_statemachine.Api.Event.{update_event}
use go_statemachine.Storage.Errors.{not_found_error}
use go_statemachine.Storage.Manager.{StoreManager}
use go_statemachine.Grpc.Status.{
  Rpc, reply, status, raw, crash, after, invalid_argument, deadline_exceeded, not_found,
  already_exists, failed_precondition, unimplemented, internal,
}

-- Config: `store` is none for nil, `events_channel` says that the channel is not nil.
pub record GrpcSubscriber (S : Type 0) : Type 0 where
  pub store : Option (StoreManager S)
  pub events_channel : Bool
  pub tls_enabled : Bool

-- The case that the select of SendEvent takes, if the channel is not nil.
pub data Select : Type 0 where
  sent timed_out : Select

-- ctx.Deadline() at one moment: `passed` carries ctx.Err().
pub data Deadline : Type 0 where
  pending : Deadline
  passed : Error → Deadline

abbrev pub in_time : {S A : Type 0} → Deadline → (S → Rpc A × S) → S → Rpc A × S
in_time pending next s = next s
in_time (passed e) next s = (raw e, s)

-- GetEvent().GetTransition().GetEvent(), empty for nil on the way.
abbrev transition_event : Option Transition → Text
transition_event none = []
transition_event (some t) = t.event

abbrev pub event_name : Event → Text
event_name evt = transition_event evt.transition

-- The machine with the starting state of its configuration, if it has none.
abbrev pub with_state : Configuration → FiniteStateMachine → FiniteStateMachine
with_state cfg f = record f { state = if f.state == [] then cfg.starting_state else f.state }

-- The id of the request, or a generated one.
abbrev pub machine_id : Text → PutFsmRequest → Text
machine_id fresh request = if request.id == [] then fresh else request.id

-- The writes of PutFiniteStateMachine.
abbrev pub put_machine :
    {S : Type 0}
    → StoreManager S
    → Text
    → Configuration
    → FiniteStateMachine
    → S
    → Rpc PutResponse × S
put_machine m id cfg f w =
    after
      (λ u w.
        after (λ u w. (reply (record { id = id; entity_response = fsm f }), w))
          (λ e w. (status internal e, w)) (m.update_state cfg.name id [] f.state w))
      (λ e w. (status internal e, w)) (m.put_state_machine id (some f) w)

abbrev pub put_failed : Error → Rpc PutResponse
put_failed e =
    if contains e (text "already exists")
    then status already_exists (errorf (text "cannot store configuration: %v") e)
    else status internal e

abbrev pub invalid_configuration : Error → Rpc PutResponse
invalid_configuration e = status invalid_argument (errorf (text "invalid configuration: %v") e)

-- What follows CheckValid.
abbrev pub validated :
    {S : Type 0} → (S → Rpc PutResponse × S) → Option Error → S → Rpc PutResponse × S
validated next none w = next w
validated next (some e) w = (invalid_configuration e, w)

-- What follows s.Store.PutConfig.
abbrev pub config_put :
    {S : Type 0} → Deadline → Configuration → Result (Unit {0}) × S → Rpc PutResponse × S
config_put afterwards cfg =
    after
      (λ v.
        in_time afterwards
          (λ w. (reply (record { id = get_version_id cfg; entity_response = config cfg }), w)))
      (λ e w. (put_failed e, w))

module _ {S : Type 0} (s : GrpcSubscriber S) where
  -- A method of the interface s.Store, which panics if it is nil.
  abbrev pub with_store : {A : Type 0} → (StoreManager S → S → Rpc A × S) → S → Rpc A × S
  with_store f w = elim s.store [ none ↦ (crash, w) | some m ↦ f m w ]

  abbrev timeout_status : Rpc EventResponse
  timeout_status = status deadline_exceeded (text "cannot post event")

  -- The event that SendEvent posts, and its answer; the list is what is posted on the channel.
  abbrev post_event : Select → EventRequest → Event → Rpc EventResponse × List EventRequest
  post_event timed_out request evt = (timeout_status, [])
  post_event sent request evt =
      if s.events_channel
      then (
        reply (record { event_id = evt.event_id; outcome = none }),
        record request { event = some evt } ∷ [],
      )
      else (timeout_status, [])

  abbrev no_event_name : Rpc EventResponse
  no_event_name = status failed_precondition missing_event_name_error

  unfoldable pub send_event :
      Select → Text → ℕ → EventRequest → Rpc EventResponse × List EventRequest
  send_event choice fresh now request =
      if request.id == []
      then (status failed_precondition missing_destination_error, [])
      else elim request.event [
        | none ↦ (no_event_name, [])
        | some evt ↦
            if event_name evt == []
            then (no_event_name, [])
            else post_event choice request (update_event fresh now evt)
      ]

  unfoldable pub put_configuration : Deadline → Deadline → Configuration → S → Rpc PutResponse × S
  put_configuration before afterwards cfg =
      validated
        (in_time before (with_store (λ m w. config_put afterwards cfg (m.put_config (some cfg) w))))
        (check_valid cfg)

  unfoldable pub get_all_configurations : Text → S → Rpc (List Text) × S
  get_all_configurations name = with_store (λ m w.
      if name == []
      then (let (ids, w') = m.get_all_configs w in (reply ids, w'))
      else (let (ids, w') = m.get_all_versions name w in (reply ids, w')))

  unfoldable pub get_configuration : Text → S → Rpc Configuration × S
  get_configuration id = with_store (λ m w.
      after (λ cfg w. (reply cfg, w))
        (λ e w. (status not_found (text "configuration " ++ id ++ text " not found"), w))
        (m.get_config id w))

  unfoldable pub put_finite_state_machine :
      Deadline → Text → PutFsmRequest → S → Rpc PutResponse × S
  put_finite_state_machine deadline fresh request w = elim request.fsm [
    | none ↦ (crash, w)
    | some f ↦
        with_store
          (λ m w.
            after
              (λ cfg.
                in_time deadline (put_machine m (machine_id fresh request) cfg (with_state cfg f)))
              (λ e w. (status failed_precondition (not_found_error f.config_id), w))
              (m.get_config f.config_id w))
          w
  ]

  unfoldable pub get_finite_state_machine : GetFsmRequest → S → Rpc FiniteStateMachine × S
  get_finite_state_machine request w =
      if request.config == []
      then (
        status invalid_argument
            (text "configuration name must always be provided when looking up statemachine"),
        w,
      )
      else if request.id == []
      then (
        status invalid_argument (text "ID must always be provided when looking up statemachine"),
        w,
      )
      else with_store
          (λ m w.
            after (λ f w. (reply f, w)) (λ e w. (status not_found (not_found_error request.id), w))
              (m.get_state_machine request.id request.config w))
          w

  unfoldable pub get_all_in_state : GetFsmRequest → S → Rpc (List Text) × S
  get_all_in_state request w =
      if request.config == []
      then (status invalid_argument (text "configuration must always be specified"), w)
      else if request.state == []
      then (status unimplemented (text "missing state, table scan not implemented"), w)
      else with_store
          (λ m w.
            let (ids, w') = m.get_all_in_state request.config request.state w in (reply ids, w'))
          w

  unfoldable pub get_event_outcome : EventRequest → S → Rpc EventResponse × S
  get_event_outcome request = with_store (λ m w.
      after (λ o w. (reply (record { event_id = request.id; outcome = some o }), w))
        (λ e w. (
          status not_found (text "cannot get outcome for event " ++ request.id ++ text ": " ++ e),
          w,
        ))
        (m.get_outcome_for_event request.id request.config w))

  abbrev health_of : Text → Result (Unit {0}) × S → Rpc HealthResponse × S
  health_of release (ok u, w) =
      (reply (record { state = ready; release = release; tls_enabled = s.tls_enabled }), w)
  health_of release (err e, w) =
      (reply (record { state = not_ready; release = release; tls_enabled = s.tls_enabled }), w)
  health_of release (panic, w) = (crash, w)

  -- `release` is the variable api.Release, which the build sets.
  unfoldable pub health : Text → S → Rpc HealthResponse × S
  health release w = elim s.store [
    | none ↦ (status internal (text "data store not configured"), w)
    | some m ↦ if s.events_channel then health_of release (m.health w) else (
      reply (record { state = not_ready; release = release; tls_enabled = s.tls_enabled }),
      w,
    )
  ]
