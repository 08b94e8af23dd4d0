-- ===== src/Main.antt =====
-- cmd/main.go: the server program, from its flags to the services that it starts.
pub mod Wired
pub mod Shutdown
use go_statemachine.Prelude.{
  ℕ, Text, text, Bool, true, false, not, ◌&&◌, Option, none, some, [], ◌==◌, if◌then◌else◌,
}
use go_statemachine.Go.Result.{Error, Result, ok, err, panic}
use go_statemachine.Storage.RedisStore.{RedisStore}
use go_statemachine.Storage.RedisStore.New.{Driver, new_redis_store}
use go_statemachine.Storage.Manager.{StoreManager, redis_manager}
use go_statemachine.Pubsub.Listener.{EventsListener, new_events_listener}
use go_statemachine.Pubsub.Sqs.Subscribe.{Aws, get_sqs_client}
use go_statemachine.Grpc.Server.{GrpcSubscriber}
use go_statemachine.Grpc.Setup.{Config, Host, Server, new_grpc_server}

-- The flags, with the values that flag.Parse gives them.
pub record Flags : Type 0 where
  pub endpoint_url : Text
  pub cluster : Bool
  pub debug : Bool
  pub events : Text
  pub grpc_port : ℕ
  pub no_tls : Bool
  pub max_retries : ℕ
  pub notifications : Text
  pub redis_url : Text
  pub timeout : ℕ
  pub trace : Bool

pub data Level : Type 0 where
  info_level debug_level trace_level : Level

unfoldable pub set_log_level : Bool → Bool → Level
set_log_level debug trace =
    if debug && not trace then debug_level else if trace then trace_level else info_level

-- What the program works with, each part a parameter of its own.
pub record World (S Bytes Conn Cert Pool File : Type 0) : Type 0 where
  pub driver : Driver S Bytes
  pub aws : Aws Conn
  pub host : Host Cert Pool File
  -- net.Listen on a port
  pub listen : ℕ → Result (Unit {0})

-- A client of SQS and its topic, if the topic has a name.
abbrev pub Topic : Type 0 → Type 0
Topic Conn = Option (Text × Conn)

-- The services that run, and the level of the log. The events channel is always there; the listener
-- has a notifications channel if `listener.notifies`.
pub record Services (S Conn Cert Pool : Type 0) : Type 0 where
  pub subscriber : Topic Conn
  pub publisher : Topic Conn
  pub listener : EventsListener S
  pub subscribed : GrpcSubscriber S
  pub server : Server Cert Pool
  pub level : Level

-- What main does before it waits for a signal: the log's Fatal, which exits, a panic, or services.
pub data Start (S Conn Cert Pool : Type 0) : Type 0 where
  fatal : Text → Start S Conn Cert Pool
  panicked : Start S Conn Cert Pool
  running : Services S Conn Cert Pool → Start S Conn Cert Pool

module _ {S Bytes Conn Cert Pool File : Type 0} (world : World S Bytes Conn Cert Pool File) where
  -- `sub == nil` or `pub == nil`, and what follows.
  abbrev pub connected :
      Text → Text → (Topic Conn → Start S Conn Cert Pool) → Option Conn → Start S Conn Cert Pool
  connected topic failure next none = fatal failure
  connected topic failure next (some client) = next (some (topic, client))

  -- NewSqsSubscriber or NewSqsPublisher for a topic with a name: the pointer to the flag is not nil.
  abbrev pub with_topic :
      Text → Text → Text → (Topic Conn → Start S Conn Cert Pool) → Start S Conn Cert Pool
  with_topic topic endpoint failure next =
      if topic == []
      then next none
      else connected topic failure next (get_sqs_client world.aws (some endpoint))

  abbrev pub store_of : Flags → RedisStore S Bytes
  store_of flags =
      new_redis_store world.driver world.host.getenv
        (record { url = flags.redis_url; is_cluster = flags.cluster; db = 1 }) flags.timeout
        flags.max_retries

  -- The configuration that startGrpcServer makes.
  abbrev pub grpc_config : Flags → Config
  grpc_config flags = record {
    timeout = 0;
    server_address = [];
    tls_enabled = not flags.no_tls;
    tls_certs = [];
    tls_mutual = false;
  }

  abbrev pub subscriber_of : Flags → GrpcSubscriber S
  subscriber_of flags = record {
    store = some (redis_manager (store_of flags));
    events_channel = true;
    tls_enabled = not flags.no_tls;
  }

  abbrev pub served :
      (Server Cert Pool → Start S Conn Cert Pool)
      → Result (Server Cert Pool)
      → Start S Conn Cert Pool
  served next (ok server) = next server
  served next (err e) = fatal (text "failed to create gRPC server")
  served next panic = panicked

  -- An error of Listen panics.
  abbrev pub listening : Start S Conn Cert Pool → Result (Unit {0}) → Start S Conn Cert Pool
  listening next (ok u) = next
  listening next (err e) = panicked
  listening next panic = panicked

  abbrev pub start_grpc_server :
      Flags → (Server Cert Pool → Start S Conn Cert Pool) → Start S Conn Cert Pool
  start_grpc_server flags next =
      listening (served next (new_grpc_server world.host (grpc_config flags)))
        (world.listen flags.grpc_port)

  abbrev pub services :
      Flags → Topic Conn → Topic Conn → Server Cert Pool → Services S Conn Cert Pool
  services flags sub publisher server = record {
    subscriber = sub;
    publisher = publisher;
    listener = new_events_listener (record {
      notifications_channel = not (flags.notifications == []);
      statemachines_store = redis_manager (store_of flags);
    });
    subscribed = subscriber_of flags;
    server = server;
    level = set_log_level flags.debug flags.trace;
  }

  unfoldable pub main : Flags → Start S Conn Cert Pool
  main flags =
      if flags.redis_url == []
      then fatal (text "fatal configuration error")
      else with_topic flags.events flags.endpoint_url (text "fatal error creating SQS subscriber")
          (λ sub.
            with_topic flags.notifications flags.endpoint_url
              (text "fatal error creating SQS publisher")
              (λ publisher.
                start_grpc_server flags (λ server. running (services flags sub publisher server))))
