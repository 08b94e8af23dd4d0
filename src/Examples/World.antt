-- ===== src/Examples/World.antt =====
-- A store in memory with the configuration of orders, and one more machine.
use go_statemachine.Prelude.{Text, text, true, false, some, []}
use go_statemachine.Protos.{Event, PutFsmRequest}
use go_statemachine.Storage.Redis.{absent}
use go_statemachine.Storage.Redis.Memory.{Server}
use go_statemachine.Storage.RedisStore.{put_config}
use go_statemachine.Storage.Manager.{redis_manager}
use go_statemachine.Grpc.Server.{GrpcSubscriber, pending, put_finite_state_machine}
use go_statemachine.Examples.Orders.{orders, event_of, fresh, Blob, store}

abbrev pub api : GrpcSubscriber (Server Blob)
api = record { store = some (redis_manager store); events_channel = true; tls_enabled = false }

abbrev pub bare : Server Blob
bare = record { cells = λ k. absent; faults = [] }

abbrev pub configured : Server Blob
configured = (put_config store (some orders) bare).1

abbrev pub o2 : Text
o2 = text "o2"

abbrev pub put_o2 : PutFsmRequest
put_o2 = record { id = o2; fsm = some fresh.fsm }

abbrev pub holding_o2 : Server Blob
holding_o2 = (put_finite_state_machine api pending [] put_o2 configured).1

abbrev pub ship : Event
ship = event_of (text "ship")
