-- ===== src/Storage/RedisStore/Configs/Listed.antt =====
-- pkg/storage/redis_store.go, GetAllConfigs and GetAllVersions, behind any calls of PutConfig whose commands
-- were answered.
use go_statemachine.Prelude.{Text, ◌≡◌, ◌∙◌, sym, ap}
use go_statemachine.Protos.{Configuration}
use go_statemachine.Api.Configuration.{get_version_id}
use go_statemachine.Storage.Keys.{configs_prefix, new_key_for_config}
use go_statemachine.Storage.Redis.{absent, has, Laws}
use go_statemachine.Storage.RedisStore.{RedisStore}
use go_statemachine.Storage.RedisStore.Configs.{HasConfig, HasConfig-cast}
use go_statemachine.Storage.RedisStore.Configs.Catalogue.{
  Step, adds, elsewhere, Reachable, empty, later, IsCatalogued,
}
use go_statemachine.Storage.RedisStore.Configs.Added.{names_iff, versions_iff}

module _ {S Bytes : Type 0} (csm : RedisStore S Bytes) (laws : Laws csm.client) where
  abbrev key_of : Configuration → Text
  key_of c = new_key_for_config (get_version_id c)

  Step-IsCatalogued : {s s' : S} → Step csm s s' → IsCatalogued csm s → IsCatalogued csm s'
  Step-IsCatalogued {s} (adds c plain exists name version done) before = record {
    names = λ n p. names_iff csm laws c s plain exists name version done n p (before.names n p);
    versions = λ n i p.
        versions_iff csm laws c s plain exists name version done n i p (before.versions n i p);
  }
  Step-IsCatalogued {s} (elsewhere t same_names same) before = record {
    names = λ n p. (
      λ h.
          let (c, e, stored) = (before.names n p).0 (sym (ap (λ v. has v n) same_names) ∙ h) in
          (c, e, HasConfig-cast csm laws c s t (same (get_version_id c)) stored),
      λ (c, e, stored).
          ap (λ v. has v n) same_names
          ∙ (before.names n p).1
              (c, e, HasConfig-cast csm laws c t s (sym (same (get_version_id c))) stored),
    );
    versions = λ n i p. (
      λ h.
          let (c, e, v, stored) =
            (before.versions n i p).0 (sym (ap (λ v. has v i) (same n)) ∙ h) in
          (c, e, v, HasConfig-cast csm laws c s t (same (get_version_id c)) stored),
      λ (c, e, v, stored).
          ap (λ v. has v i) (same n)
          ∙ (before.versions n i p).1
              (c, e, v, HasConfig-cast csm laws c t s (sym (same (get_version_id c))) stored),
    );
  }

  nothing_stored :
      (s : S) (c : Configuration)
      → ((i : Text) → csm.client.look s (new_key_for_config i) ≡ absent)
      → ¬ HasConfig csm c s
  nothing_stored s c free (b, m, held) = let e = free (get_version_id c) in cc

  empty-IsCatalogued :
      (s : S)
      → csm.client.look s configs_prefix ≡ absent
      → ((i : Text) → csm.client.look s (new_key_for_config i) ≡ absent)
      → IsCatalogued csm s
  empty-IsCatalogued s none free = record {
    names = λ n p. (
      λ h. let e = ap (λ v. has v n) none in cc,
      λ (c, e, stored). absurd (nothing_stored s c free stored),
    );
    versions = λ n i p. (
      λ h. let e = ap (λ v. has v i) (free n) in cc,
      λ (c, e, v, stored). absurd (nothing_stored s c free stored),
    );
  }

  pub Reachable-IsCatalogued : {s : S} → Reachable csm s → IsCatalogued csm s
  Reachable-IsCatalogued (empty s none free) = empty-IsCatalogued s none free
  Reachable-IsCatalogued (later r step) = Step-IsCatalogued step (Reachable-IsCatalogued r)
