-- ===== src/Storage/RedisStore/Configs/Catalogue.antt =====
-- pkg/storage/redis_store.go, PutConfig, GetAllConfigs and GetAllVersions: the sets of names and versions,
-- as an index of the stored configurations.
use go_statemachine.Prelude.{Text, ◌≡◌, ◌↔◌, Bool, true, some}
use go_statemachine.Protos.{Configuration}
use go_statemachine.Go.Result.{ok}
use go_statemachine.Go.Strings.Laws.{Lacks}
use go_statemachine.Api.Configuration.{get_version_id}
use go_statemachine.Storage.Keys.{configs_prefix, new_key_for_config}
use go_statemachine.Storage.Redis.{answer, absent, has}
use go_statemachine.Storage.RedisStore.{RedisStore, put_config}
use go_statemachine.Storage.RedisStore.Configs.{IsAnswered, HasConfig}

module _ {S Bytes : Type 0} (csm : RedisStore S Bytes) where
  -- The states in which PutConfig sends its two SADDs.
  abbrev pub asked : Configuration → S → S
  asked c s = (csm.client.exists (new_key_for_config (get_version_id c)) s).1

  abbrev pub named : Configuration → S → S
  named c s = (csm.client.sadd configs_prefix c.name (asked c s)).1

  -- A PutConfig that returns nil and all of whose commands were answered, or anything that does not
  -- touch what is stored of configurations.
  pub data Step (s : S) : S → Type 0 where
    adds :
        (c : Configuration)
        → Lacks b':' c.name
        → IsAnswered (csm.client.exists (new_key_for_config (get_version_id c)) s).0
        → (csm.client.sadd configs_prefix c.name (asked c s)).0 ≡ answer tt
        → (csm.client.sadd (new_key_for_config c.name) (get_version_id c) (named c s)).0 ≡ answer tt
        → (put_config csm (some c) s).0 ≡ ok tt
        → Step s (put_config csm (some c) s).1
    elsewhere :
        (t : S)
        → csm.client.look t configs_prefix ≡ csm.client.look s configs_prefix
        → ((i : Text)
            → csm.client.look t (new_key_for_config i) ≡ csm.client.look s (new_key_for_config i))
        → Step s t

  -- Any number of these, from a store without configurations.
  pub data Reachable : S → Type 0 where
    empty :
        (s : S)
        → csm.client.look s configs_prefix ≡ absent
        → ((i : Text) → csm.client.look s (new_key_for_config i) ≡ absent)
        → Reachable s
    later : {s s' : S} → Reachable s → Step s s' → Reachable s'

  abbrev pub in_versions : Text → Text → S → Bool
  in_versions name id s = has (csm.client.look s (new_key_for_config name)) id

  abbrev pub in_names : Text → S → Bool
  in_names name s = has (csm.client.look s configs_prefix) name

  -- A stored configuration of the name, and one under the identifier.
  abbrev pub OfName : Text → S → Type 0
  OfName name s = (c : Configuration) × (c.name ≡ name) × HasConfig csm c s

  abbrev pub OfVersion : Text → Text → S → Type 0
  OfVersion name id s =
      (c : Configuration) × (c.name ≡ name) × (get_version_id c ≡ id) × HasConfig csm c s

  -- The sets list the configurations that are stored, and no others.
  pub record IsCatalogued (s : S) : Type 0 where
    pub names : (name : Text) → Lacks b':' name → (in_names name s ≡ true) ↔ OfName name s
    pub versions :
        (name id : Text) → Lacks b':' name → (in_versions name id s ≡ true) ↔ OfVersion name id s
