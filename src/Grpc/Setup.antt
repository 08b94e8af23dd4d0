-- ===== src/Grpc/Setup.antt =====
-- pkg/grpc/grpc_server.go, NewGrpcServer and SetupTLSConfig, with pkg/internal/config/tls.go. The
-- environment, the files and the packages tls and x509 are parameters.
pub mod Secured
use go_statemachine.Prelude.{
  ℕ, Text, text, Bool, true, false, Option, none, some, [], ◌++◌, ◌==◌, nat_eq, if◌then◌else◌,
}
use go_statemachine.Go.Result.{Error, Result, ok, err, panic, ◌>>=◌}

abbrev pub tls_config_dir_env : Text
tls_config_dir_env = text "TLS_CONFIG_DIR"

abbrev pub default_config_dir : Text
default_config_dir = text "/etc/statemachine/certs"

abbrev pub ca_file : Text
ca_file = text "ca.pem"

abbrev pub server_cert_file : Text
server_cert_file = text "server.pem"

abbrev pub server_key_file : Text
server_key_file = text "server-key.pem"

-- DefaultTimeout, in nanoseconds.
abbrev pub default_timeout : ℕ
default_timeout = 200000000

-- The fields of Config that set the server up.
pub record Config : Type 0 where
  pub timeout : ℕ
  pub server_address : Text
  pub tls_enabled : Bool
  pub tls_certs : Text
  pub tls_mutual : Bool

-- os.Getenv, filepath.Join, os.Stat, os.ReadFile, tls.LoadX509KeyPair, the pool of the certificates
-- that AppendCertsFromPEM finds, none if it returns false, and the verb %q of fmt.
pub record Host (Cert Pool Bytes : Type 0) : Type 0 where
  pub getenv : Text → Text
  pub join : Text → Text → Text
  pub stat : Text → Result (Unit {0})
  pub read_file : Text → Result Bytes
  pub load_x509_key_pair : Text → Text → Result Cert
  pub certs_from_pem : Bytes → Option Pool
  pub quote : Text → Text

pub data ClientAuth : Type 0 where
  no_client_cert require_and_verify_client_cert : ClientAuth

-- tls.Config
pub record TlsConfig (Cert Pool : Type 0) : Type 0 where
  pub certificate : Cert
  pub client_cas : Option Pool
  pub client_auth : ClientAuth
  pub server_name : Text

pub data Creds (Cert Pool : Type 0) : Type 0 where
  insecure : Creds Cert Pool
  new_tls : TlsConfig Cert Pool → Creds Cert Pool

-- The server: its credentials, and the configuration that its methods read.
pub record Server (Cert Pool : Type 0) : Type 0 where
  pub creds : Creds Cert Pool
  pub config : Config

abbrev pub with_timeout : Config → Config
with_timeout cfg = if nat_eq cfg.timeout 0 then record cfg { timeout = default_timeout } else cfg

module _ {Cert Pool : Type 0} where
  -- The configuration for a certificate, from the pool of the root CA.
  abbrev pub tls_config_of : Config → Cert → Pool → TlsConfig Cert Pool
  tls_config_of cfg cert ca = record {
    certificate = cert;
    client_cas = if cfg.tls_mutual then some ca else none;
    client_auth = if cfg.tls_mutual then require_and_verify_client_cert else no_client_cert;
    server_name = cfg.server_address;
  }

  abbrev pub serve : Config → Creds Cert Pool → Server Cert Pool
  serve cfg creds = record { creds = creds; config = with_timeout cfg }

  abbrev pub with_tls : Result (TlsConfig Cert Pool) × Config → Result (Server Cert Pool)
  with_tls (ok t, cfg) = ok (serve cfg (new_tls t))
  with_tls (err e, cfg) = err e
  with_tls (panic, cfg) = panic

module _ {Cert Pool Bytes : Type 0} (host : Host Cert Pool Bytes) where
  abbrev pool_of : Text → Option Pool → Result Pool
  pool_of file none = err (text "failed to parse root certificate: " ++ host.quote file)
  pool_of file (some ca) = ok ca

  unfoldable pub parse_ca_file : Text → Result Pool
  parse_ca_file file =
      host.stat file >>= λ u. host.read_file file >>= λ b. pool_of file (host.certs_from_pem b)

  abbrev pub env_or_default : Text → Text
  env_or_default certs_dir = if certs_dir == [] then default_config_dir else certs_dir

  -- cfg with its TlsCerts set.
  abbrev pub with_certs : Config → Config
  with_certs cfg =
      if cfg.tls_certs == []
      then record cfg { tls_certs = env_or_default (host.getenv tls_config_dir_env) }
      else cfg

  abbrev pub load_tls : Config → Result (TlsConfig Cert Pool)
  load_tls cfg =
      host.load_x509_key_pair (host.join cfg.tls_certs server_cert_file)
        (host.join cfg.tls_certs server_key_file)
      >>= λ cert.
          parse_ca_file (host.join cfg.tls_certs ca_file) >>= λ ca. ok (tls_config_of cfg cert ca)

  -- The configuration is a pointer, which comes back with its TlsCerts set.
  unfoldable pub setup_tls_config : Config → Result (TlsConfig Cert Pool) × Config
  setup_tls_config cfg = let set = with_certs cfg in (load_tls set, set)

  unfoldable pub new_grpc_server : Config → Result (Server Cert Pool)
  new_grpc_server cfg =
      if cfg.tls_enabled then with_tls (setup_tls_config cfg) else ok (serve cfg insecure)
