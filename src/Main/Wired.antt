-- ===== src/Main/Wired.antt =====
-- cmd/main.go: how the services that main starts are connected.
use go_statemachine.Prelude.{
  Text, text, Bool, true, false, not, ◌≡◌, ◌≢◌, ◌⊎◌, ◌↔◌, inl, inr, refl, ◌∙◌, ap, sym, subst,
  Option, none, some, [], ◌==◌, eq_iff, if◌then◌else◌, arith, false≢true,
}
use go_statemachine.Go.Result.{Result, ok, err, panic}
use go_statemachine.Storage.Manager.{StoreManager, redis_manager}
use go_statemachine.Storage.RedisStore.{RedisStore}
use go_statemachine.Storage.RedisStore.New.{new_redis_store}
use go_statemachine.Grpc.Setup.{
  Server, TlsConfig, insecure, new_tls, no_client_cert, new_grpc_server,
}
use go_statemachine.Grpc.Setup.Secured.{
  Directory, configured, from_environment, by_default, Demands, Secured, plain, secured,
  new_grpc_server-Secured,
}
use go_statemachine.Main.{
  Flags, World, Topic, Services, Start, fatal, running, connected, with_topic, listening, store_of,
  grpc_config, served, start_grpc_server, services, main,
}

-- A service for a topic runs exactly if the topic has a name.
pub data Serves {Conn : Type 0} (topic : Text) : Topic Conn → Type 0 where
  unnamed : topic ≡ [] → Serves topic none
  named : (client : Conn) → topic ≢ [] → Serves topic (some (topic, client))

module _ {S Bytes Conn Cert Pool File : Type 0} (world : World S Bytes Conn Cert Pool File) where
  -- The gRPC server is without TLS if -insecure is set. Else it has a key pair from the directory of
  -- the environment's TLS_CONFIG_DIR, or else from /etc/statemachine/certs, and it demands no
  -- certificate of its clients.
  pub data SecuredBy (flags : Flags) (server : Server Cert Pool) : Type 0 where
    unprotected : flags.no_tls ≡ true → server.creds ≡ insecure → SecuredBy flags server
    protected :
        (t : TlsConfig Cert Pool)
        → flags.no_tls ≡ false
        → server.creds ≡ new_tls t
        → (certs_dir : Text)
        → ((world.host.getenv (text "TLS_CONFIG_DIR") ≢ [])
            × (certs_dir ≡ world.host.getenv (text "TLS_CONFIG_DIR")))
          ⊎ ((world.host.getenv (text "TLS_CONFIG_DIR") ≡ [])
              × (certs_dir ≡ text "/etc/statemachine/certs"))
        → world.host.load_x509_key_pair
            (world.host.join certs_dir (text "server.pem"))
            (world.host.join certs_dir (text "server-key.pem"))
          ≡ ok t.certificate
        → t.client_auth ≡ no_client_cert
        → SecuredBy flags server

  -- The store of the flags, connected to the URL -redis as -cluster says, to its database 1.
  pub record IsStoreOf (flags : Flags) (store : StoreManager S) : Type 0 where
    pub csm : RedisStore S Bytes
    pub used : store ≡ redis_manager csm
    pub made :
        csm
        ≡ new_redis_store world.driver world.host.getenv
            (record { url = flags.redis_url; is_cluster = flags.cluster; db = 1 })
            flags.timeout
            flags.max_retries

  -- The listener and the gRPC server share the store and the events channel; who posts on the
  -- notifications channel has a publisher that reads it.
  pub record Wired (flags : Flags) (s : Services S Conn Cert Pool) : Type 0 where
    pub has_url : flags.redis_url ≢ []
    pub store : IsStoreOf flags s.listener.store
    pub shared : s.subscribed.store ≡ some s.listener.store
    pub events : s.subscribed.events_channel ≡ true
    pub subscriber : Serves flags.events s.subscriber
    pub publisher : Serves flags.notifications s.publisher
    pub notifies : (s.listener.notifies ≡ true) ↔ (s.publisher ≢ none)
    pub server : SecuredBy flags s.server

  fatal_ne_running : (e : Text) (s : Services S Conn Cert Pool) → fatal e ≡ running s → ⊥
  fatal_ne_running e s h = cc

  test_cases :
      {A : Type 0} (b : Bool) (x y z : A)
      → (if b then x else y) ≡ z
      → ((b ≡ true) × (x ≡ z)) ⊎ ((b ≡ false) × (y ≡ z))
  test_cases true x y z h = inl (refl, h)
  test_cases false x y z h = inr (refl, h)

  connected-running :
      (topic failure : Text) (next : Topic Conn → Start S Conn Cert Pool) (o : Option Conn)
      (s : Services S Conn Cert Pool)
      → connected world topic failure next o ≡ running s
      → (client : Conn) × (next (some (topic, client)) ≡ running s)
  connected-running topic failure next none s h = cc
  connected-running topic failure next (some client) s h = (client, h)

  filled : (topic : Text) → (topic == []) ≡ false → topic ≢ []
  filled topic e h = false≢true (sym e ∙ (eq_iff topic []).1 h)

  with_topic-running :
      (topic endpoint failure : Text) (next : Topic Conn → Start S Conn Cert Pool)
      (s : Services S Conn Cert Pool)
      → with_topic world topic endpoint failure next ≡ running s
      → (t : Topic Conn) × Serves topic t × (next t ≡ running s)
  with_topic-running topic endpoint failure next s h =
      elim (test_cases (topic == []) (next none) _ (running s) h) [
        | inl (e, g) ↦ (none, unnamed ((eq_iff topic []).0 e), g)
        | inr (e, g) ↦
            let (client, ends) = connected-running topic failure next _ s g in
            (some (topic, client), named client (filled topic e), ends)
      ]

  served-running :
      (next : Server Cert Pool → Start S Conn Cert Pool) (r : Result (Server Cert Pool))
      (s : Services S Conn Cert Pool)
      → served world next r ≡ running s
      → (server : Server Cert Pool) × (r ≡ ok server) × (next server ≡ running s)
  served-running next (ok server) s h = (server, refl, h)
  served-running next (err e) s h = cc
  served-running next panic s h = cc

  listening-running :
      (next : Start S Conn Cert Pool) (r : Result (Unit {0})) (s : Services S Conn Cert Pool)
      → listening world next r ≡ running s
      → next ≡ running s
  listening-running next (ok u) s h = h
  listening-running next (err e) s h = cc
  listening-running next panic s h = cc

  Serves-notifies :
      {topic : Text} (t : Topic Conn) → Serves topic t → (not (topic == []) ≡ true) ↔ (t ≢ none)
  Serves-notifies {topic} none (unnamed e) =
      (λ h. absurd (false≢true (ap not (sym ((eq_iff topic []).1 e)) ∙ h)), λ n. absurd (n refl))
  Serves-notifies {topic} (some c) (named client n) =
      (λ h e. cc, λ m. ground (arith, eq_iff topic []))

  by_flags :
      (flags : Flags) (server : Server Cert Pool)
      → Secured world.host (grpc_config world flags) server
      → SecuredBy flags server
  by_flags flags server (plain e c) = unprotected (ground arith) c
  by_flags flags server (secured t e c uses) =
      protected t (ground arith) c uses.certs_dir (directory uses.certs_dir uses.directory)
        uses.loads (no_demand uses.client)
    where
      directory :
          (d : Text)
          → Directory world.host (grpc_config world flags) d
          → ((world.host.getenv (text "TLS_CONFIG_DIR") ≢ [])
              × (d ≡ world.host.getenv (text "TLS_CONFIG_DIR")))
            ⊎ ((world.host.getenv (text "TLS_CONFIG_DIR") ≡ [])
                × (d ≡ text "/etc/statemachine/certs"))
      directory d (configured n) = absurd (n refl)
      directory d (from_environment e n) = inl (n, refl)
      directory d (by_default e f) = inr (f, refl)

      no_demand :
          Demands world.host (grpc_config world flags) uses.ca t → t.client_auth ≡ no_client_cert
      no_demand (inl (m, demanded, pool)) = absurd (false≢true m)
      no_demand (inr (m, e)) = e

  services-Wired :
      (flags : Flags) (sub publisher : Topic Conn) (server : Server Cert Pool)
      → flags.redis_url ≢ []
      → Serves flags.events sub
      → Serves flags.notifications publisher
      → Secured world.host (grpc_config world flags) server
      → Wired flags (services world flags sub publisher server)
  services-Wired flags sub publisher server n reads writes safe = record {
    has_url = n;
    store = record { csm = store_of world flags; used = refl; made = refl };
    shared = refl;
    events = refl;
    subscriber = reads;
    publisher = writes;
    notifies = Serves-notifies publisher writes;
    server = by_flags flags server safe;
  }

  -- If main starts its services: it has a Redis URL; the listener and the gRPC server work on one
  -- store, the Redis store of the flags, and on the events channel; the subscriber and the publisher
  -- run exactly for the topics that are named, and the listener has a notifications channel exactly
  -- if there is a publisher to read it; the gRPC server is without TLS if -insecure is set, and else
  -- it has the key pair of the environment's TLS_CONFIG_DIR, else of /etc/statemachine/certs, and
  -- demands no certificate of its clients.
  pub main-Wired :
      (flags : Flags) (s : Services S Conn Cert Pool) → main world flags ≡ running s → Wired flags s
  unfolding main
  main-Wired flags s h =
      let serves = λ (sub publisher : Topic Conn) (server : Server Cert Pool).
        running (services world flags sub publisher server) in
      let publishes = λ (sub : Topic Conn).
        with_topic world flags.notifications flags.endpoint_url
          (text "fatal error creating SQS publisher")
          (λ publisher. start_grpc_server world flags (serves sub publisher)) in
      elim (test_cases (flags.redis_url == []) _ _ (running s) h) [
        | inl (e, g) ↦ absurd (fatal_ne_running _ s g)
        | inr (e, g) ↦
            let (sub, reads, g2) =
              with_topic-running flags.events flags.endpoint_url
                (text "fatal error creating SQS subscriber") publishes s g in
            let (publisher, writes, g3) =
              with_topic-running flags.notifications flags.endpoint_url
                (text "fatal error creating SQS publisher")
                (λ publisher. start_grpc_server world flags (serves sub publisher)) s g2 in
            let made = new_grpc_server world.host (grpc_config world flags) in
            let g4 =
              listening-running (served world (serves sub publisher) made)
                (world.listen flags.grpc_port) s g3 in
            let (server, is_made, g5) = served-running (serves sub publisher) made s g4 in
            let same : services world flags sub publisher server ≡ s = cc in
            subst (Wired flags) same (
              services-Wired flags sub publisher server (filled flags.redis_url e) reads writes
                (new_grpc_server-Secured world.host (grpc_config world flags) server is_made))
      ]
