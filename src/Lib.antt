-- ===== src/Lib.antt =====
-- go-statemachine: a server of finite state machines. Clients put configurations (states and
-- transitions) and machines through a gRPC API, and send events through the API or a queue; a
-- listener makes the transitions on the machines that a Redis store holds, and reports an outcome
-- for each event.
--
-- Parts, and the files that model them:
--   * Protos: the messages of the API, with the fields that the code uses. A pointer that the code
--     may meet as nil is an Option.
--   * Go: what the code uses of the language and its library. Result is a value, an error (its text)
--     or a panic; Action is a method that changes a state and returns a Result; Strings, Fmt and
--     Regexp are strings.Split, Join, HasPrefix and Contains, fmt.Errorf with one verb, and
--     regexp.MatchString for the one form of pattern that the code has. A text is the list of its
--     bytes.
--   * Api (pkg/api/fsm.go): Errors; Configuration is CheckValid of a configuration, GetVersionId,
--     HasState; Machine is ConfiguredStateMachine with NewStateMachine, SendEvent, Reset and
--     CheckValid; Event is NewEvent and UpdateEvent. Function names are those of the source in lower
--     case with underscores, there and below.
--   * Storage: Keys (pkg/storage/keys.go); Errors (pkg/storage/types.go, with IsNotFoundErr); Redis,
--     the interface of the client; RedisStore and RedisStore/Tx (pkg/storage/redis_store.go), Tx
--     being TxProcessEvent; Manager, the interface StoreManager, which the Redis store fills.
--     RedisStore/Concurrent is TxProcessEvent by any number of clients: a step relation whose steps
--     are the single commands, and which knows how often the machine was written. Its children:
--     Serial, the sequences of writes; Kept and Fresh, what commands leave alone and what a client
--     knows; Invariant, what holds of all runs; Alone, the runs of the code in Tx as such steps.
--     RedisStore/Typed is about the kind of value that each key holds; RedisStore/Configs/Catalogue,
--     Added and Listed are about the sets of names and versions that PutConfig fills.
--   * Pubsub/Listener (pkg/pubsub/listener.go): ListenForMessages, whose body is `handle`, over any
--     StoreManager. The channels are lists: what the events channel delivers until it is closed, and
--     what has been posted on the notifications channel. Verdicts, Outcomes, Panics and
--     Notices are about its rounds, Redis about those over the Redis store.
--   * Pubsub/Sqs (pkg/pubsub/sqs_sub.go and sqs_pub.go): ProcessMessage, and the loop of Publish;
--     Pubsub/Sqs/Subscribe, the polling loop and the connection to SQS; Pubsub/Sqs/Publisher,
--     NewSqsPublisher, and Publish with the look-up of its queue.
--   * Grpc (pkg/grpc/grpc_server.go): Status, what a call returns; Server, the unary calls over any
--     StoreManager; Streams, StreamAllInstate and StreamAllConfigurations over any SendMsg; Setup,
--     NewGrpcServer and its TLS. What the context says of its deadline, the case that a select takes,
--     generated identifiers and the time are arguments.
--   * Cli (fsm-cli/client and fsm-cli/cmd/main.go): Types, the entities and the parameters; Client,
--     Send, Get and the wait for an outcome; Main, the commands and the exit codes; Connect,
--     NewClient, and main from the flags on. What is printed is a list of texts.
--   * Probe (docker/grpc_health.go), the health probe of the containers, and Demo
--     (docs/examples/sqs_client.go), the example of a client that sends an event through the queue.
--   * Main (cmd/main.go): from the flags to the services that run; Main/Shutdown, RunUntilStopped and
--     the goroutines around the events channel, as a step relation, with Main/Shutdown/Served on
--     what becomes of the requests. Storage/RedisStore/New has the
--     store's constructors.
--   * System: the parts together over one store. Consistency has the relation of the calls that the
--     gRPC server and the listener make of the store, and the states that they reach, with what each
--     call leaves alone (Tracking, Aside, Effects); Listing and Streaming are about GetAllInState and
--     StreamAllInstate there, Answers about the outcomes that the listener reports, RoundTrips about
--     what one call puts and a later one gets, Queued about an event that comes through the queue,
--     Catalogue about GetAllConfigurations and StreamAllConfigurations.
--   * Examples: tests of the definitions, and the theorems at concrete inputs, over a Redis server
--     in memory (Storage/Redis/Memory).
-- The modules below a part hold its theorems: Storage/RedisStore/Retry those on the attempts,
-- Values on what get and put read and write, Configs and States on configurations and the sets of
-- the machines in a state, Tx/Runs, Tx/Commit, Tx/Index, Tx/Rounds, Tx/Frame, Tx/Calm and Tx/Live
-- on transactions; Grpc/Server/Written on what PutFiniteStateMachine writes.
--
-- Parameters, for code that is not part of the repository:
--   * the Redis client (Storage.Redis.Client): each command takes the server's state to a reply and
--     a new state. A reply is an answer, a timeout or another failure. Storage.Redis.Laws states what
--     the commands do to the cells of the server, where no other client changes them in between; a
--     command that times out may have changed the cell that it writes, and no other. The server of
--     Storage/Redis/Memory satisfies these laws, and those of Storage.RedisStore.Typed.WritesWhole;
--     a list of faults says which of its commands fail.
--   * the Protobuf encoding (Storage.Redis.Wires): decoding what was encoded gives the message back.
--   * the environment, the files, TLS and AWS sessions (Grpc.Setup.Host, Storage.RedisStore.New.Driver,
--     Pubsub.Sqs.Subscribe.Aws), the generated gRPC client with package yaml (Cli.Types.CliClient
--     and Platform), and the like of Probe.Network and Demo.Tools: operations without laws.
--   * a server that answers (Storage.RedisStore.Tx.Live.Responsive), for the theorem on TxProcessEvent
--     that needs one; the server in memory is such a server when no faults are to come.
--   * the SQS client and base64 (Pubsub.Sqs.Queue and TextWire): operations without laws, but that
--     decoding what was encoded gives it back, where a theorem needs it
--     (System.Queued.IsFaithful). A removal is
--     tried MessageRemoveRetries times, by recursion on this number.
--   * uuid.NewString and timestamppb.Now: arguments.
--
-- Loops and bounds: the loops over states, transitions and requests are recursion on the list. The
-- loops of get and put count attemptsLeft down from MaxRetries, a 64-bit int whose bit pattern
-- `decrement` takes down by one modulo 2 ^ 64; the model recurses on the pattern after the first
-- decrement, which is the number of attempts that are left, so no fuel is involved. The loop of
-- TxProcessEvent runs DefaultMaxRetries = 3 rounds, by recursion on this number.
-- The loop of Subscribe runs until a round finds its channel `done` closed; how many rounds before it
-- do not is an argument. The wait of the command-line client is recursion on MaxRetries = 5.
--
-- Not modelled: the logs, except where the arguments of a log line can panic; the random pauses
-- between transactions and the sleeps; goroutines, but for those of Main/Shutdown and the clients of
-- Storage/RedisStore/Concurrent: elsewhere each part runs by itself, and the interleaving of clients
-- shows only as refused transactions; the connections of grpc.Dial, which are parameters; and the
-- containers of the tests.
pub mod Prelude
pub mod Go
pub mod Protos
pub mod Api
pub mod Storage
pub mod Pubsub
pub mod Grpc
pub mod Cli
pub mod Main
pub mod Probe
pub mod Demo
pub mod System
mod Examples
