-- ===== src/Cli/Client.antt =====
-- fsm-cli/client/client.go and handlers.go: CliClient.
pub mod Wait
pub mod Ends
use go_statemachine.Prelude.{
  ℕ, zero, suc, Text, text, Option, none, some, List, [], ◌∷◌, ◌++◌, ◌==◌, if◌then◌else◌,
}
use go_statemachine.Protos.{
  Event, EventOutcome, EventRequest, EventResponse, Configuration, FiniteStateMachine,
  PutFsmRequest, GetFsmRequest, PutResponse,
}
use go_statemachine.Go.Result.{Result, ok, err, panic}
use go_statemachine.Go.Strings.{split}
use go_statemachine.Api.Event.{update_event}
use go_statemachine.Grpc.Status.{Code, not_found, already_exists, Rpc, reply, status, raw, crash}
use go_statemachine.Cli.Types.{
  version, kind_configuration, kind_finite_state_machine, kind_event, stdin_flag, Entity, CliClient,
  Response, put_response, event_response, Platform, Terminal, print, println, call, or_return,
  unless_err,
}

abbrev pub max_retries : ℕ
max_retries = 5

module _ {S : Type 0} (c : CliClient S) where
  -- One round of the wait for the outcome; `again` is the rest of the loop. Any error but NotFound
  -- ends the loop and is dropped.
  abbrev pub after_outcome :
      (S → Result (Option EventResponse) × S)
      → Rpc EventResponse × S
      → Result (Option EventResponse) × S
  after_outcome again (reply r, w) = (ok (some r), w)
  after_outcome again (status not_found e, w) = again w
  after_outcome again (status _ e, w) = (ok none, w)
  after_outcome again (raw e, w) = (ok none, w)
  after_outcome again (crash, w) = (panic, w)

  unfoldable pub wait_outcome : EventRequest → ℕ → S → Result (Option EventResponse) × S
  wait_outcome question zero w = (ok none, w)
  wait_outcome question (suc remain) w =
      after_outcome (wait_outcome question remain) (c.get_event_outcome question w)

  abbrev pub waited :
      List Text → Result (Option EventResponse) × S → Rpc (Option EventResponse) × Terminal S
  waited printed (ok r, w) = (reply r, record { world = w; printed = printed })
  waited printed (err e, w) = (raw e, record { world = w; printed = printed })
  waited printed (panic, w) = (crash, record { world = w; printed = printed })

  -- The question for the outcome of the event.
  abbrev pub outcome_request : EventRequest → Text → EventRequest
  outcome_request request id = record { event = none; config = request.config; id = id }

  -- What follows a SendEvent that returns nil.
  abbrev pub accepted :
      EventRequest → EventResponse → Terminal S → Rpc (Option EventResponse) × Terminal S
  accepted request response t =
      let shown = println (text "Event ID: " ++ response.event_id) t in
      waited shown.printed
        (wait_outcome (outcome_request request response.event_id) max_retries shown.world)

  -- `request.Event` and UpdateEvent panic for nil.
  unfoldable pub send_event :
      Text → ℕ → Option EventRequest → Terminal S → Rpc (Option EventResponse) × Terminal S
  send_event fresh now none t = (crash, t)
  send_event fresh now (some request) t = elim request.event [
    | none ↦ (crash, t)
    | some evt ↦
        let updated : EventRequest = record request { event = some (update_event fresh now evt) } in
        or_return (accepted updated) (call (c.send_event updated) t)
  ]

-- What resp is, if the call returns nil.
abbrev pub as_response :
    {S A : Type 0} → (A → Response) → Rpc A × Terminal S → Rpc Response × Terminal S
as_response f = or_return (λ a t. (reply (f a), t))

-- PutFsmRequest with the Fsm of the entity, and its id.
abbrev pub put_request : Entity FiniteStateMachine → PutFsmRequest
put_request e = record { id = e.generic.id; fsm = e.spec }

module _ {S File Bytes : Type 0} (c : CliClient S) (os : Platform File Bytes) where
  abbrev pub send_config : Bytes → Terminal S → Rpc Response × Terminal S
  send_config content =
      unless_err
        (λ (e : Entity Configuration) t.
          as_response put_response (call (c.put_configuration e.spec) t))
        (os.unmarshal_config content)

  abbrev pub send_fsm : Bytes → Terminal S → Rpc Response × Terminal S
  send_fsm content =
      unless_err
        (λ e t. as_response put_response (call (c.put_finite_state_machine (put_request e)) t))
        (os.unmarshal_fsm content)

  abbrev pub send_event_request : Text → ℕ → Bytes → Terminal S → Rpc Response × Terminal S
  send_event_request fresh now content =
      unless_err
        (λ (e : Entity EventRequest) t.
          as_response event_response (send_event c fresh now e.spec t))
        (os.unmarshal_event content)

  -- The map SendHandlers.
  unfoldable pub send_handlers :
      Text → ℕ → Text → Option (Bytes → Terminal S → Rpc Response × Terminal S)
  send_handlers fresh now kind =
      if kind == kind_configuration
      then some send_config
      else if kind == kind_finite_state_machine
      then some send_fsm
      else if kind == kind_event
      then some (send_event_request fresh now)
      else none

module _ {S File Bytes : Type 0} (os : Platform File Bytes) where
  abbrev outcome_code : Option EventOutcome → Terminal S → Rpc (Unit {0}) × Terminal S
  outcome_code none t = (crash, t)
  outcome_code (some o) t =
      (reply tt, print (text "Outcome.Code: " ++ os.code_string o.code ++ text "\n") t)

  -- `resp.Outcome.Code` panics for a nil response and for one with a nil outcome.
  abbrev pub show_code : Response → Terminal S → Rpc (Unit {0}) × Terminal S
  show_code (put_response r) t = (reply tt, t)
  show_code (event_response none) t = (crash, t)
  show_code (event_response (some r)) t = outcome_code r.outcome t

  abbrev pub show_response : Response → Terminal S → Rpc (Unit {0}) × Terminal S
  show_response resp =
      unless_err (λ out t. show_code resp (print (text "Result:\n" ++ out) t))
        (os.marshal_response resp)

  -- What follows the handler.
  abbrev pub handled : Text → Rpc Response × Terminal S → Rpc (Unit {0}) × Terminal S
  handled kind (reply resp, t) = show_response resp t
  handled kind (status already_exists e, t) =
      (status already_exists e, print (text "entity `" ++ kind ++ text "` exists\n") t)
  handled kind (status code e, t) = (status code e, t)
  handled kind (raw e, t) = (raw e, t)
  handled kind (crash, t) = (crash, t)

module _ {File Bytes : Type 0} (os : Platform File Bytes) where
  abbrev pub cannot_open : Text → Result File → Result File
  cannot_open path (ok f) = ok f
  cannot_open path (err e) = err (text "cannot open " ++ path ++ text ": " ++ e)
  cannot_open path panic = panic

  -- os.Stdin, or the file at the path.
  abbrev pub file_at : Text → Result File
  file_at path = if path == stdin_flag then ok os.stdin else cannot_open path (os.open_file path)

module _ {S File Bytes : Type 0} (c : CliClient S) (os : Platform File Bytes) where
  -- What follows the decoding of the entity's head.
  abbrev pub dispatch : Text → ℕ → Bytes → Text → Text → Terminal S → Rpc (Unit {0}) × Terminal S
  dispatch fresh now content entity_version kind t =
      if entity_version == version
      then elim (send_handlers c os fresh now kind) [
        | none ↦ (raw (text "unknown Kind: " ++ kind), t)
        | some handler ↦ handled os kind (handler content t)
      ]
      else (raw (text "unsupported version " ++ entity_version), t)

  unfoldable pub send : Text → ℕ → Text → Terminal S → Rpc (Unit {0}) × Terminal S
  send fresh now path =
      unless_err
        (λ f.
          unless_err
            (λ content.
              unless_err (λ entity. dispatch fresh now content entity.version entity.kind)
                (os.unmarshal_generic content))
            (os.read_all f))
        (file_at os path)

  abbrev pub show_data : Result Text → Terminal S → Rpc (Unit {0}) × Terminal S
  show_data = unless_err (λ content t. (reply tt, println content t))

  -- The path separator is that of Unix.
  abbrev pub get_fsm : Text → List Text → Terminal S → Rpc (Unit {0}) × Terminal S
  get_fsm id (name ∷ fsm_id ∷ []) t =
      or_return (λ f. show_data (os.marshal_fsm f))
        (call (c.get_finite_state_machine (record { config = name; id = fsm_id; state = [] })) t)
  get_fsm id parts t =
      (raw (text "expected an FSM ID of the form `config-name/fsm-id`, got instead " ++ id), t)

  unfoldable pub get : Text → Text → Terminal S → Rpc (Unit {0}) × Terminal S
  get kind id t =
      if kind == kind_configuration
      then or_return (λ cfg. show_data (os.marshal_config cfg)) (call (c.get_configuration id) t)
      else if kind == kind_finite_state_machine
      then get_fsm id (split id b'/') t
      else (
        raw (
            text "kind `"
            ++ kind
            ++ text "` unknown, please note they are case-sensitive (did you mean "
            ++ os.title_case kind
            ++ text "?)"),
        t,
      )
