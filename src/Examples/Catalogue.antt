-- ===== src/Examples/Catalogue.antt =====
-- Two versions of a configuration, over the store in memory.
use go_statemachine.Prelude.{
  Text, text, ◌≡◌, refl, ap, some, List, [], ◌∷◌, ◌++◌, All, Any, arith, ◌==◌,
}
use go_statemachine.Protos.{Configuration}
use go_statemachine.Go.Result.{ok}
use go_statemachine.Go.Strings.Laws.{Lacks}
use go_statemachine.Storage.Keys.{new_key_for_config}
use go_statemachine.Storage.Redis.{contains}
use go_statemachine.Storage.Redis.Memory.{Server, memory, memory-Laws}
use go_statemachine.Storage.RedisStore.{
  get_loop, put_loop, get_config, put_config, get_all_versions,
}
use go_statemachine.Storage.RedisStore.Configs.{IsAnswered, HasConfig}
use go_statemachine.Storage.RedisStore.Configs.Catalogue.{Reachable, empty, later, adds}
use go_statemachine.Grpc.Status.{reply}
use go_statemachine.Grpc.Server.{get_all_configurations}
use go_statemachine.Grpc.Streams.{stream_configs, stream_all_configurations}
use go_statemachine.System.Streaming.{Stream}
use go_statemachine.System.Catalogue.Streamed.{stream_all_configurations-exact}
use go_statemachine.Examples.Orders.{orders, Blob, store}
use go_statemachine.Examples.World.{api, bare, configured}

runs : Unit {0}
unfolding memory contains get_loop put_loop get_config put_config get_all_versions
    new_key_for_config ◌==◌ get_all_configurations stream_configs stream_all_configurations
runs = tt

abbrev name : Text
name = text "orders"

abbrev orders_v2 : Configuration
orders_v2 = record orders { version = text "v2" }

abbrev two_versions : Server Blob
two_versions = (put_config store (some orders_v2) configured).1

name-Lacks : Lacks b':' name
name-Lacks = omega arith

reached : Reachable store two_versions
unfolding runs
reached =
    later (later (empty bare refl (λ i. refl)) (adds orders name-Lacks tt refl refl refl))
      (adds orders_v2 name-Lacks tt refl refl refl)

-- A stream that takes every configuration.
abbrev taken : Stream Configuration (List Configuration)
taken = record {
  send_msg = λ c t. (ok tt, t ++ c ∷ []);
  messages = λ t. t;
  messages-send_msg = λ c t h. refl;
}

streams :
    stream_all_configurations api taken.send_msg name (two_versions, [])
    ≡ (reply tt, (two_versions, orders_v2 ∷ orders ∷ []))
unfolding runs
streams = refl

answers : IsAnswered (memory.smembers (new_key_for_config name) two_versions).0
unfolding runs
answers = tt

stream_all_configurations-exact_example :
    (configs : List Configuration) × ((stream_all_configurations api taken.send_msg name
        (two_versions, [])).1.1
      ≡ [] ++ configs)
    × All (λ c. (c.name ≡ name) × HasConfig store c two_versions) configs
    × ((d : Configuration)
        → d.name ≡ name
        → HasConfig store d two_versions
        → Any (λ c. c ≡ d) configs)
stream_all_configurations-exact_example =
    stream_all_configurations-exact store memory-Laws taken api refl name two_versions [] reached
      (λ h. cc) name-Lacks answers (ap (λ r. r.0) streams)
