-- ===== src/Grpc/Streams.antt =====
-- pkg/grpc/grpc_server.go: StreamAllInstate and StreamAllConfigurations. The stream that the client
-- reads is a parameter: its state, and SendMsg.
use go_statemachine.Prelude.{Text, text, none, some, List, [], ◌∷◌, ◌==◌, if◌then◌else◌}
use go_statemachine.Protos.{Configuration, FiniteStateMachine, GetFsmRequest, fsm, PutResponse}
use go_statemachine.Go.Result.{Result, ok, err, panic}
use go_statemachine.Storage.Manager.{StoreManager}
use go_statemachine.Grpc.Status.{Rpc, reply, status, raw, crash, invalid_argument}
use go_statemachine.Grpc.Server.{GrpcSubscriber, get_all_in_state, get_all_configurations}

module _ {S T A : Type 0} (send : A → T → Result (Unit {0}) × T) where
  -- The rest of the loop behind SendMsg.
  abbrev pub sent :
      (S × T → Rpc (Unit {0}) × (S × T)) → S → Result (Unit {0}) × T → Rpc (Unit {0}) × (S × T)
  sent rest w (ok u, t) = rest (w, t)
  sent rest w (err e, t) = (raw e, (w, t))
  sent rest w (panic, t) = (crash, (w, t))

  -- One round of the loop: what the store returned is sent as the message `f a`.
  abbrev pub found :
      {B : Type 0}
      → (S × T → Rpc (Unit {0}) × (S × T))
      → (B → A)
      → T
      → Result B × S
      → Rpc (Unit {0}) × (S × T)
  found rest f t (ok b, w) = sent rest w (send (f b) t)
  found rest f t (err e, w) = (raw e, (w, t))
  found rest f t (panic, w) = (crash, (w, t))

abbrev pub machine_message : Text → FiniteStateMachine → PutResponse
machine_message id f = record { id = id; entity_response = fsm f }

module _ {S T : Type 0} (send : PutResponse → T → Result (Unit {0}) × T) where
  unfoldable pub stream_machines :
      StoreManager S → Text → List Text → S × T → Rpc (Unit {0}) × (S × T)
  stream_machines m name [] (w, t) = (reply tt, (w, t))
  stream_machines m name (id ∷ ids) (w, t) =
      found send (stream_machines m name ids) (machine_message id) t (m.get_state_machine id name w)

module _ {S T : Type 0} (send : Configuration → T → Result (Unit {0}) × T) where
  unfoldable pub stream_configs : StoreManager S → List Text → S × T → Rpc (Unit {0}) × (S × T)
  stream_configs m [] (w, t) = (reply tt, (w, t))
  stream_configs m (id ∷ ids) (w, t) =
      found send (stream_configs m ids) (λ c. c) t (m.get_config id w)

module _ {S T : Type 0} (s : GrpcSubscriber S) where
  -- What follows the list of the ids, or its error.
  abbrev pub listed :
      (List Text → S × T → Rpc (Unit {0}) × (S × T))
      → T
      → Rpc (List Text) × S
      → Rpc (Unit {0}) × (S × T)
  listed loop t (reply ids, w) = loop ids (w, t)
  listed loop t (status c e, w) = (status c e, (w, t))
  listed loop t (raw e, w) = (raw e, (w, t))
  listed loop t (crash, w) = (crash, (w, t))

  module _ (send : PutResponse → T → Result (Unit {0}) × T) where
    abbrev pub stream_ids : Text → List Text → S × T → Rpc (Unit {0}) × (S × T)
    stream_ids name ids (w, t) = elim s.store [
      | none ↦ (crash, (w, t))
      | some m ↦ stream_machines send m name ids (w, t)
    ]

    unfoldable pub stream_all_instate : GetFsmRequest → S × T → Rpc (Unit {0}) × (S × T)
    stream_all_instate request (w, t) =
        listed (stream_ids request.config) t (get_all_in_state s request w)

  module _ (send : Configuration → T → Result (Unit {0}) × T) where
    abbrev pub stream_config_ids : List Text → S × T → Rpc (Unit {0}) × (S × T)
    stream_config_ids ids (w, t) = elim s.store [
      | none ↦ (crash, (w, t))
      | some m ↦ stream_configs send m ids (w, t)
    ]

    -- An error of GetAllConfigurations, which returns none, would give nil.
    abbrev listed_or_nil : T → Rpc (List Text) × S → Rpc (Unit {0}) × (S × T)
    listed_or_nil t (reply ids, w) = stream_config_ids ids (w, t)
    listed_or_nil t (status c e, w) = (reply tt, (w, t))
    listed_or_nil t (raw e, w) = (reply tt, (w, t))
    listed_or_nil t (crash, w) = (crash, (w, t))

    unfoldable pub stream_all_configurations : Text → S × T → Rpc (Unit {0}) × (S × T)
    stream_all_configurations name (w, t) =
        if name == []
        then (status invalid_argument (text "must specify the Configuration name"), (w, t))
        else listed_or_nil t (get_all_configurations s name w)
