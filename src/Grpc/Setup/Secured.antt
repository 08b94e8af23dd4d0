-- ===== src/Grpc/Setup/Secured.antt =====
-- pkg/grpc/grpc_server.go: what a server that NewGrpcServer returns demands of its clients.
use go_statemachine.Prelude.{
  Text, text, Bool, true, false, ◌≡◌, ◌≢◌, ◌⊎◌, inl, inr, refl, ◌∙◌, ap, sym, subst, some, arith,
  [], ◌==◌, eq_iff, false≢true, if◌then◌else◌, Bool-cases,
}
use go_statemachine.Go.Result.{Result, ok, err, panic, ◌>>=◌}
use go_statemachine.Grpc.Setup.{
  default_config_dir, tls_config_dir_env, env_or_default, Config, Host, no_client_cert,
  require_and_verify_client_cert, TlsConfig, insecure, new_tls, Server, parse_ca_file, with_certs,
  tls_config_of, setup_tls_config, serve, with_tls, new_grpc_server,
}

-- A chain that ends well has passed its first part.
bind-eq-ok :
    {A B : Type 0} (r : Result A) (f : A → Result B) (b : B)
    → (r >>= f) ≡ ok b
    → (a : A) × (r ≡ ok a) × (f a ≡ ok b)
bind-eq-ok (ok a) f b h = (a, refl, h)
bind-eq-ok (err e) f b h = cc
bind-eq-ok panic f b h = cc

module _ {Cert Pool Bytes : Type 0} (host : Host Cert Pool Bytes) where
  -- What the server demands of its clients: a certificate of the CA if TlsMutual is set, else none.
  abbrev pub Demands : Config → Pool → TlsConfig Cert Pool → Type 0
  Demands cfg ca t =
      ((cfg.tls_mutual ≡ true)
        × (t.client_auth ≡ require_and_verify_client_cert)
        × (t.client_cas ≡ some ca))
      ⊎ ((cfg.tls_mutual ≡ false) × (t.client_auth ≡ no_client_cert))

  -- The directory of the certificates: that of TlsCerts, else that of the environment's
  -- TLS_CONFIG_DIR, else /etc/statemachine/certs. An empty text is none.
  pub data Directory (cfg : Config) : Text → Type 0 where
    configured : cfg.tls_certs ≢ [] → Directory cfg cfg.tls_certs
    from_environment :
        cfg.tls_certs ≡ []
        → host.getenv (text "TLS_CONFIG_DIR") ≢ []
        → Directory cfg (host.getenv (text "TLS_CONFIG_DIR"))
    by_default :
        cfg.tls_certs ≡ []
        → host.getenv (text "TLS_CONFIG_DIR") ≡ []
        → Directory cfg (text "/etc/statemachine/certs")

  -- The key pair and the root CA were read from the directory of the certificates, and clients
  -- must have a certificate of this CA if the configuration says so.
  pub record UsesTls (cfg : Config) (t : TlsConfig Cert Pool) : Type 0 where
    pub certs_dir : Text
    pub directory : Directory cfg certs_dir
    pub ca : Pool
    pub loads :
        host.load_x509_key_pair
          (host.join certs_dir (text "server.pem"))
          (host.join certs_dir (text "server-key.pem"))
        ≡ ok t.certificate
    pub parses : parse_ca_file host (host.join certs_dir (text "ca.pem")) ≡ ok ca
    pub named : t.server_name ≡ cfg.server_address
    pub client : Demands cfg ca t

  env_or_default-Directory :
      (cfg : Config)
      → cfg.tls_certs ≡ []
      → Directory cfg (env_or_default host (host.getenv (text "TLS_CONFIG_DIR")))
  env_or_default-Directory cfg e =
      let found = host.getenv (text "TLS_CONFIG_DIR") in
      elim (Bool-cases (found == [])) [
        | inl p ↦
            subst (λ b. Directory cfg (if b then default_config_dir else found)) (sym p)
              (by_default e ((eq_iff _ _).0 p))
        | inr p ↦
            subst (λ b. Directory cfg (if b then default_config_dir else found)) (sym p)
              (from_environment e (λ q. false≢true (sym p ∙ (eq_iff _ _).1 q)))
      ]

  with_certs-Directory : (cfg : Config) → Directory cfg (with_certs host cfg).tls_certs
  with_certs-Directory cfg =
      let by = λ (b : Bool).
        Directory cfg
          (if b
            then record cfg { tls_certs = env_or_default host (host.getenv tls_config_dir_env) }
            else cfg).tls_certs in
      elim (Bool-cases (cfg.tls_certs == [])) [
        | inl p ↦ subst by (sym p) (env_or_default-Directory cfg ((eq_iff _ _).0 p))
        | inr p ↦ subst by (sym p) (configured (λ q. false≢true (sym p ∙ (eq_iff _ _).1 q)))
      ]

  with_certs-rest :
      (cfg : Config)
      → ((with_certs host cfg).server_address ≡ cfg.server_address)
        × ((with_certs host cfg).tls_mutual ≡ cfg.tls_mutual)
  with_certs-rest cfg = ground arith

  -- How the server that is returned is secured.
  pub data Secured (cfg : Config) (server : Server Cert Pool) : Type 0 where
    plain : cfg.tls_enabled ≡ false → server.creds ≡ insecure → Secured cfg server
    secured :
        (t : TlsConfig Cert Pool)
        → cfg.tls_enabled ≡ true
        → server.creds ≡ new_tls t
        → UsesTls cfg t
        → Secured cfg server

  client_of :
      (m : Bool) (cfg set : Config) (cert : Cert) (ca : Pool)
      → cfg.tls_mutual ≡ m
      → set.tls_mutual ≡ m
      → Demands cfg ca (tls_config_of set cert ca)
  client_of true cfg set cert ca h k = inl (h, rw k refl, rw k refl)
  client_of false cfg set cert ca h k = inr (h, rw k refl)

  setup_tls_config-UsesTls :
      (cfg : Config) (t : TlsConfig Cert Pool)
      → (setup_tls_config host cfg).0 ≡ ok t
      → UsesTls cfg t
  unfolding setup_tls_config
  setup_tls_config-UsesTls cfg t h =
      let set = with_certs host cfg in
      let (address, kept) = with_certs-rest cfg in
      let (cert, loads, rest) = bind-eq-ok _ _ _ h in
      let (ca, parses, ends) = bind-eq-ok _ _ _ rest in
      let same : tls_config_of set cert ca ≡ t = cc in
      record {
        certs_dir = set.tls_certs;
        directory = with_certs-Directory cfg;
        ca = ca;
        loads = loads ∙ ap (λ (t : TlsConfig Cert Pool). ok t.certificate) same;
        parses = parses;
        named = ap (λ (t : TlsConfig Cert Pool). t.server_name) (sym same) ∙ address;
        client =
            subst (Demands cfg ca) same (client_of set.tls_mutual cfg set cert ca (sym kept) refl);
      }

  with_tls-Secured :
      (cfg : Config) (r : Result (TlsConfig Cert Pool) × Config) (server : Server Cert Pool)
      → ((t : TlsConfig Cert Pool) → r.0 ≡ ok t → UsesTls cfg t)
      → cfg.tls_enabled ≡ true
      → with_tls r ≡ ok server
      → Secured cfg server
  with_tls-Secured cfg (ok t, set) server uses enabled h =
      let same : serve set (new_tls t) ≡ server = cc in
      secured t enabled (ap (λ (s : Server Cert Pool). s.creds) (sym same)) (uses t refl)
  with_tls-Secured cfg (err e, set) server uses enabled h = cc
  with_tls-Secured cfg (panic, set) server uses enabled h = cc

  -- If NewGrpcServer returns a server, it is without TLS exactly if the configuration says so; with
  -- TLS, its key pair and its root CA were read from server.pem, server-key.pem and ca.pem in the
  -- directory of TlsCerts, else of the environment's TLS_CONFIG_DIR, else /etc/statemachine/certs, and
  -- it demands of its clients a certificate that this CA verifies if TlsMutual is set, and none if not.
  pub new_grpc_server-Secured :
      (cfg : Config) (server : Server Cert Pool)
      → new_grpc_server host cfg ≡ ok server
      → Secured cfg server
  unfolding new_grpc_server
  new_grpc_server-Secured cfg server h =
      let by =
        λ (b : Bool). if b then with_tls (setup_tls_config host cfg) else ok (serve cfg insecure) in
      elim (Bool-cases cfg.tls_enabled) [
        | inl enabled ↦
            with_tls-Secured cfg (setup_tls_config host cfg) server (setup_tls_config-UsesTls cfg)
              enabled (subst (λ b. by b ≡ ok server) enabled h)
        | inr disabled ↦
            let plainly : by false ≡ ok server = subst (λ b. by b ≡ ok server) disabled h in
            let same : serve cfg insecure ≡ server = cc in
            plain disabled (ap (λ (s : Server Cert Pool). s.creds) (sym same))
      ]
