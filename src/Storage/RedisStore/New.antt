-- ===== src/Storage/RedisStore/New.antt =====
-- pkg/storage/redis_store.go: the constructors of RedisStore, and its timeout. What connects to a
-- server, and the environment, are parameters.
use go_statemachine.Prelude.{ℕ, Text, text, Bool, false, not, List, [], ◌==◌, if◌then◌else◌}
use go_statemachine.Go.Strings.{split}
use go_statemachine.Storage.Redis.{Client, Wires}
use go_statemachine.Storage.RedisStore.{RedisStore, default_max_retries}

abbrev pub default_redis_db : ℕ
default_redis_db = 0

-- DefaultTimeout, in nanoseconds.
abbrev pub default_timeout : ℕ
default_timeout = 200000000

-- redis.NewClient and redis.NewClusterClient, each with a minimal version 1.2 of TLS or without TLS;
-- and the encodings of the messages.
pub record Driver (S Bytes : Type 0) : Type 0 where
  pub new_client : (uses_tls : Bool) → Text → ℕ → Client S Bytes
  pub new_cluster_client : (uses_tls : Bool) → List Text → Client S Bytes
  pub wires : Wires Bytes

-- The settings of a store.
pub record Address : Type 0 where
  pub url : Text
  pub is_cluster : Bool
  pub db : ℕ

module _ {S Bytes : Type 0} (driver : Driver S Bytes) (getenv : Text → Text) where
  abbrev uses_tls : Bool
  uses_tls = not (getenv (text "REDIS_TLS") == [])

  abbrev new_redis_client : Address → Client S Bytes
  new_redis_client a =
      if a.is_cluster
      then driver.new_cluster_client uses_tls (split a.url b',')
      else driver.new_client uses_tls a.url a.db

  unfoldable pub new_redis_store : Address → ℕ → ℕ → RedisStore S Bytes
  new_redis_store a timeout max_retries = record {
    client = new_redis_client a;
    wires = driver.wires;
    timeout_nanos = timeout;
    max_retries = max_retries;
  }

  unfoldable pub new_redis_store_with_defaults : Text → RedisStore S Bytes
  unfolding new_redis_store
  new_redis_store_with_defaults url =
      new_redis_store (record { url = url; is_cluster = false; db = default_redis_db })
        default_timeout default_max_retries

module _ {S Bytes : Type 0} where
  abbrev pub set_timeout : ℕ → RedisStore S Bytes → RedisStore S Bytes
  set_timeout duration csm = record csm { timeout_nanos = duration }

  abbrev pub get_timeout : RedisStore S Bytes → ℕ
  get_timeout csm = csm.timeout_nanos
