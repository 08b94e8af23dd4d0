-- ===== src/Protos.antt =====
-- The messages of the gRPC API (the generated package protos), with the fields that the code reads
-- or writes. A pointer to a message is an `Option`, `none` for nil, where the code meets nil ones; a
-- repeated field is a list. A timestamp is a number that the program never looks into.
use go_statemachine.Prelude.{ℕ, Text, Bool, List, Option}

pub record Transition : Type 0 where
  pub from : Text
  pub to : Text
  pub event : Text

pub record Event : Type 0 where
  pub event_id : Text
  pub timestamp : Option ℕ
  pub transition : Option Transition
  pub originator : Text
  pub details : Text

pub record Configuration : Type 0 where
  pub name : Text
  pub version : Text
  pub states : List Text
  pub transitions : List Transition
  pub starting_state : Text

pub record FiniteStateMachine : Type 0 where
  pub config_id : Text
  pub state : Text
  pub history : List Event

-- The outcomes that the code itself reports.
pub data StatusCode : Type 0 where
  success missing_destination fsm_not_found internal_error : StatusCode

pub record EventOutcome : Type 0 where
  pub code : StatusCode
  pub details : Text
  pub config : Text
  pub id : Text

pub record EventRequest : Type 0 where
  pub event : Option Event
  pub config : Text
  pub id : Text

pub record EventResponse : Type 0 where
  pub event_id : Text
  pub outcome : Option EventOutcome

pub record PutFsmRequest : Type 0 where
  pub id : Text
  pub fsm : Option FiniteStateMachine

pub record GetFsmRequest : Type 0 where
  pub config : Text
  pub id : Text
  pub state : Text

pub data EntityResponse : Type 0 where
  config : Configuration → EntityResponse
  fsm : FiniteStateMachine → EntityResponse

pub record PutResponse : Type 0 where
  pub id : Text
  pub entity_response : EntityResponse

pub data Readiness : Type 0 where
  ready not_ready : Readiness

pub record HealthResponse : Type 0 where
  pub state : Readiness
  pub release : Text
  pub tls_enabled : Bool
