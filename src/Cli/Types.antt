-- ===== src/Cli/Types.antt =====
-- fsm-cli/client/types.go: the entities of the YAML files. The generated client,
-- package yaml and the files are parameters.
use go_statemachine.Prelude.{Text, text, Option, List, [], ◌∷◌, ◌++◌}
use go_statemachine.Protos.{
  Configuration, FiniteStateMachine, EventRequest, EventResponse, StatusCode, PutFsmRequest,
  GetFsmRequest, PutResponse, HealthResponse, Readiness,
}
use go_statemachine.Go.Result.{Result, ok, err, panic}
use go_statemachine.Grpc.Status.{Code, Rpc, reply, status, raw, crash}

abbrev pub version : Text
version = text "v1alpha"

abbrev pub kind_configuration : Text
kind_configuration = text "Configuration"

abbrev pub kind_finite_state_machine : Text
kind_finite_state_machine = text "FiniteStateMachine"

abbrev pub kind_event : Text
kind_event = text "EventRequest"

abbrev pub cmd_get : Text
cmd_get = text "get"

abbrev pub cmd_send : Text
cmd_send = text "send"

abbrev pub cmd_version : Text
cmd_version = text "version"

abbrev pub stdin_flag : Text
stdin_flag = text "--"

pub record GenericEntity : Type 0 where
  pub version : Text
  pub kind : Text
  pub id : Text

-- ConfigEntity, FsmEntity and EventRequestEntity; the Spec is none for nil.
pub record Entity (A : Type 0) : Type 0 where
  pub generic : GenericEntity
  pub spec : Option A

-- StatemachineServiceClient, which CliClient embeds: the calls that the client makes. An error comes
-- without a response; `status` has the code that getStatusCode finds, any other error is Unknown
-- there. `S` is the state of the server and the connection.
pub record CliClient (S : Type 0) : Type 0 where
  pub send_event : EventRequest → S → Rpc EventResponse × S
  pub get_event_outcome : EventRequest → S → Rpc EventResponse × S
  pub put_configuration : Option Configuration → S → Rpc PutResponse × S
  pub put_finite_state_machine : PutFsmRequest → S → Rpc PutResponse × S
  pub get_configuration : Text → S → Rpc Configuration × S
  pub get_finite_state_machine : GetFsmRequest → S → Rpc FiniteStateMachine × S
  pub health : S → Rpc HealthResponse × S

-- The resp of a handler: an interface, whose *EventResponse may be nil.
pub data Response : Type 0 where
  put_response : PutResponse → Response
  event_response : Option EventResponse → Response

-- Package yaml and the texts of the enumerations, for the types that the client has; the files;
-- cases.Title, strings.ToLower and the text of a gRPC error. `Bytes` is the contents of a file.
pub record Platform (File Bytes : Type 0) : Type 0 where
  pub stdin : File
  pub open_file : Text → Result File
  pub read_all : File → Result Bytes
  pub unmarshal_generic : Bytes → Result GenericEntity
  pub unmarshal_config : Bytes → Result (Entity Configuration)
  pub unmarshal_fsm : Bytes → Result (Entity FiniteStateMachine)
  pub unmarshal_event : Bytes → Result (Entity EventRequest)
  pub marshal_response : Response → Result Text
  pub marshal_config : Configuration → Result Text
  pub marshal_fsm : FiniteStateMachine → Result Text
  pub code_string : StatusCode → Text
  pub state_string : Readiness → Text
  pub title_case : Text → Text
  pub to_lower : Text → Text
  pub error_text : Code → Text → Text

-- The server, and what was printed: a text for each call of fmt.
pub record Terminal (S : Type 0) : Type 0 where
  pub world : S
  pub printed : List Text

abbrev pub print : {S : Type 0} → Text → Terminal S → Terminal S
print line t = record t { printed = t.printed ++ line ∷ [] }

-- fmt.Println of one text.
abbrev pub println : {S : Type 0} → Text → Terminal S → Terminal S
println line = print (line ++ text "\n")

module _ {S A : Type 0} where
  -- A call of the server from the terminal.
  abbrev pub call : (S → Rpc A × S) → Terminal S → Rpc A × Terminal S
  call f t = let (r, w) = f t.world in (r, record t { world = w })

module _ {S A B : Type 0} where
  -- What follows a call of the server: `if err != nil { return err }`.
  abbrev pub or_return :
      (A → Terminal S → Rpc B × Terminal S) → Rpc A × Terminal S → Rpc B × Terminal S
  or_return next (reply a, t) = next a t
  or_return next (status c e, t) = (status c e, t)
  or_return next (raw e, t) = (raw e, t)
  or_return next (crash, t) = (crash, t)

  -- The same for a call of a library.
  abbrev pub unless_err :
      (A → Terminal S → Rpc B × Terminal S) → Result A → Terminal S → Rpc B × Terminal S
  unless_err next (ok a) t = next a t
  unless_err next (err e) t = (raw e, t)
  unless_err next panic t = (crash, t)
