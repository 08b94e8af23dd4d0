-- ===== src/System/Catalogue.antt =====
-- pkg/grpc/grpc_server.go, GetAllConfigurations and StreamAllConfigurations, behind any calls of PutConfig
-- whose commands were answered.
pub mod Streamed
use mathlib.Core.List.{append-nil, append_assoc}
use go_statemachine.Prelude.{
  Text, ◌≡◌, ◌≢◌, ◌↔◌, inl, inr, refl, ◌∙◌, sym, ap, subst, true, some, List, [], ◌∷◌, ◌++◌, map,
  All, Any, arith, ◌==◌, eq_iff, eq_refl, eq_false, Bool-cases, if◌then◌else◌,
}
use go_statemachine.Protos.{Configuration}
use go_statemachine.Go.Result.{Result, ok, err, panic}
use go_statemachine.Go.Strings.Laws.{Lacks}
use go_statemachine.Api.Configuration.{get_version_id}
use go_statemachine.Storage.Keys.{configs_prefix, new_key_for_config}
use go_statemachine.Storage.Redis.{Reply, answer, timeout, failure, contains, Laws}
use go_statemachine.Storage.RedisStore
use go_statemachine.Storage.RedisStore.{RedisStore, get_config, members_or_nil}
use go_statemachine.Storage.RedisStore.Values.{Reads, look-get, get_sound}
use go_statemachine.Storage.RedisStore.Configs.{IsAnswered, HasConfig}
use go_statemachine.Storage.RedisStore.Configs.Catalogue.{Reachable, OfName, OfVersion}
use go_statemachine.Storage.RedisStore.Configs.Listed.{Reachable-IsCatalogued}
use go_statemachine.Storage.RedisStore.Tx.Index.{Reads-unique, Reads-of_Stored}
use go_statemachine.Storage.Manager.{redis_manager}
use go_statemachine.Grpc.Status.{Rpc, reply, status, raw, crash}
use go_statemachine.Grpc.Server.{GrpcSubscriber, get_all_configurations}
use go_statemachine.Grpc.Streams.{stream_configs, stream_config_ids, stream_all_configurations}
use go_statemachine.System.Streaming.{Stream, sent_reply, found_reply}

module _ {S Bytes : Type 0} (csm : RedisStore S Bytes) where
  answered :
      (r : Reply (List Text) × S)
      → IsAnswered r.0
      → (l : List Text) × (r.0 ≡ answer l) × (members_or_nil csm r ≡ (l, r.1))
  answered (answer l, s) h = (l, refl, refl)
  answered (timeout e, s) h = elim h [ ]
  answered (failure e, s) h = elim h [ ]

module _ {S Bytes : Type 0} (csm : RedisStore S Bytes) (laws : Laws csm.client)
    (server : GrpcSubscriber S) (running : server.store ≡ some (redis_manager csm)) where
  -- For a name, the reply is what SMEMBERS answered.
  pub versions_replied :
      (name : Text) (s : S)
      → name ≢ []
      → IsAnswered (csm.client.smembers (new_key_for_config name) s).0
      → (ids : List Text) × ((csm.client.smembers (new_key_for_config name) s).0 ≡ answer ids)
        × (get_all_configurations server name s
            ≡ (reply ids, (csm.client.smembers (new_key_for_config name) s).1))
  unfolding get_all_configurations RedisStore.get_all_versions
  versions_replied name s n a =
      let (l, e, same) = answered csm (csm.client.smembers (new_key_for_config name) s) a in
      (l, e, rw (running, eq_false name [] n) (ap (λ r. (reply r.0, r.1)) same))

  names_replied :
      (s : S)
      → IsAnswered (csm.client.smembers configs_prefix s).0
      → (ids : List Text) × ((csm.client.smembers configs_prefix s).0 ≡ answer ids)
        × (get_all_configurations server [] s
            ≡ (reply ids, (csm.client.smembers configs_prefix s).1))
  unfolding get_all_configurations RedisStore.get_all_configs ◌==◌
  names_replied s a =
      let (l, e, same) = answered csm (csm.client.smembers configs_prefix s) a in
      (l, e, rw running (ap (λ r. (reply r.0, r.1)) same))

  -- In a store that calls of PutConfig have made whose commands were all answered, if SMEMBERS is
  -- answered, GetAllConfigurations replies for a name without a colon exactly the identifiers of the
  -- stored configurations that have it.
  pub versions_iff :
      (s : S) (name : Text)
      → Reachable csm s
      → name ≢ []
      → Lacks b':' name
      → IsAnswered (csm.client.smembers (new_key_for_config name) s).0
      → (ids : List Text) × ((get_all_configurations server name s).0 ≡ reply ids)
        × ((id : Text) → (contains id ids ≡ true) ↔ OfVersion csm name id s)
  versions_iff s name r n p a =
      let (ids, e, replies) = versions_replied name s n a in
      let is_listed = (Reachable-IsCatalogued csm laws r).versions name in
      (
        ids,
        ap (λ r. r.0) replies,
        λ id.
            let all = laws.smembers_iff (new_key_for_config name) id s ids e in
            (λ m. (is_listed id p).0 (sym all ∙ m), λ stored. all ∙ (is_listed id p).1 stored),
      )

  -- For the empty name, it replies the names of all stored configurations, of those without a colon.
  pub names_iff :
      (s : S)
      → Reachable csm s
      → IsAnswered (csm.client.smembers configs_prefix s).0
      → (names : List Text) × ((get_all_configurations server [] s).0 ≡ reply names)
        × ((name : Text) → Lacks b':' name → (contains name names ≡ true) ↔ OfName csm name s)
  names_iff s r a =
      let (l, e, replies) = names_replied s a in
      (
        l,
        ap (λ r. r.0) replies,
        λ name p.
            let all = laws.smembers_iff configs_prefix name s l e in
            let is_listed = (Reachable-IsCatalogued csm laws r).names name p in
            (λ m. is_listed.0 (sym all ∙ m), λ stored. all ∙ is_listed.1 stored),
      )
