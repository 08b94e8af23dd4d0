-- ===== src/Storage/RedisStore/Configs/Added.antt =====
-- pkg/storage/redis_store.go, PutConfig: what it adds to the sets of names and versions.
use go_statemachine.Prelude.{
  Text, ◌≡◌, ◌≢◌, ◌↔◌, ◌⊎◌, inl, inr, refl, ◌∙◌, sym, ap, subst, Bool, Bool-cases, true, false,
  ◌&&◌, ◌||◌, some, eq_iff, nat_eq, ◌==◌, false≢true,
}
use go_statemachine.Protos.{Configuration}
use go_statemachine.Go.Result.{Error, Result, ok, err}
use go_statemachine.Go.Strings.Laws.{Lacks}
use go_statemachine.Api.Configuration.{get_version_id}
use go_statemachine.Storage.Keys.{configs_prefix, new_key_for_config}
use go_statemachine.Storage.Keys.Laws.{get_version_id_injective}
use go_statemachine.Storage.Redis.{answer, has, is_absent, Laws}
use go_statemachine.Storage.RedisStore.{RedisStore, val, add_config, put_config}
use go_statemachine.Storage.RedisStore.Values.{look-put}
use go_statemachine.Storage.RedisStore.Configs.{
  IsAnswered, HasConfig, config_key_ne, all_configs_ne, plain_name_ne, config_at-put_config,
  put_config-HasConfig, HasConfig-cast,
}
use go_statemachine.Storage.RedisStore.Configs.Catalogue.{
  asked, named, in_names, in_versions, OfName, OfVersion,
}

module _ {S Bytes : Type 0} (csm : RedisStore S Bytes) where
  module _ (laws : Laws csm.client) where
    put_state :
        (c : Configuration) (s : S)
        → (put_config csm (some c) s).0 ≡ ok tt
        → (put_config csm (some c) s).1 ≡ (add_config csm c (asked csm c s)).1
    unfolding put_config
    put_state c s done =
        elim (Bool-cases
          (nat_eq (val csm (csm.client.exists (new_key_for_config (get_version_id c)) s).0) 1)) [
            | inl one ↦ absurd (refused (rw one at done))
            | inr other ↦ rw other refl
          ]
      where
        refused : {e : Error} → ◌≡◌ {A = Result (Unit {0})} (err e) (ok tt) → ⊥
        refused h = cc

    module _ (c : Configuration) (s : S) (plain : Lacks b':' c.name)
        (answers_exists : IsAnswered
          (csm.client.exists (new_key_for_config (get_version_id c)) s).0)
        (adds_name : (csm.client.sadd configs_prefix c.name (asked csm c s)).0 ≡ answer tt)
        (adds_version : (csm.client.sadd
            (new_key_for_config c.name)
            (get_version_id c)
            (named csm c s)).0
          ≡ answer tt)
        (done : (put_config csm (some c) s).0 ≡ ok tt) where
      abbrev id : Text
      id = get_version_id c

      abbrev after : S
      after = (put_config csm (some c) s).1

      -- The SET behind the two SADDs.
      look_after :
          (j : Text)
          → new_key_for_config id ≢ j
          → csm.client.look after j
            ≡ csm.client.look (csm.client.sadd (new_key_for_config c.name) id (named csm c s)).1 j
      look_after j n =
          ap (λ t. csm.client.look t j) (put_state c s done)
          ∙ look-put csm laws csm.wires.configuration (new_key_for_config id) c 0 j _ n

      names_after : (x : Text) → in_names csm x after ≡ (c.name == x || in_names csm x s)
      names_after x =
          ap (λ c. has c x)
            (look_after configs_prefix (λ e. all_configs_ne id (sym e))
              ∙ laws.sadd_frame (new_key_for_config c.name) configs_prefix id (named csm c s)
                  (λ e. all_configs_ne c.name (sym e)))
          ∙ laws.sadd_done configs_prefix c.name x (asked csm c s) adds_name
          ∙ ap (λ v. c.name == x || has v x)
              (laws.look-exists (new_key_for_config id) configs_prefix s)

      before_version :
          (name : Text)
          → csm.client.look (named csm c s) (new_key_for_config name)
            ≡ csm.client.look s (new_key_for_config name)
      before_version name =
          laws.sadd_frame configs_prefix (new_key_for_config name) c.name (asked csm c s)
            (all_configs_ne name)
          ∙ laws.look-exists (new_key_for_config id) (new_key_for_config name) s

      own_after :
          (x : Text) → in_versions csm c.name x after ≡ (id == x || in_versions csm c.name x s)
      own_after x =
          ap (λ v. has v x)
            (look_after (new_key_for_config c.name)
              (config_key_ne id c.name (λ e. plain_name_ne c.name c plain (sym e))))
          ∙ laws.sadd_done (new_key_for_config c.name) id x (named csm c s) adds_version
          ∙ ap (λ v. id == x || has v x) (before_version c.name)

      versions_after :
          (name x : Text)
          → Lacks b':' name
          → in_versions csm name x after ≡ (c.name == name && id == x || in_versions csm name x s)
      versions_after name x p = elim (Bool-cases (c.name == name)) [
        | inl same ↦ rw same (
            subst (λ n. in_versions csm n x after ≡ (id == x || in_versions csm n x s))
              ((eq_iff _ _).0 same) (own_after x))
        | inr other ↦ rw other (
            ap (λ c. has c x)
              (look_after (new_key_for_config name)
                  (config_key_ne id name (λ e. plain_name_ne name c p (sym e)))
                ∙ laws.sadd_frame (new_key_for_config c.name) (new_key_for_config name) id
                    (named csm c s)
                    (config_key_ne c.name name (λ e. false≢true (sym other ∙ (eq_iff _ _).1 e)))
                ∙ before_version name))
      ]

      -- A configuration that is stored afterwards has the new identifier, or was stored before.
      stored_cases :
          (d : Configuration)
          → Lacks b':' d.name
          → HasConfig csm d after
          → ((id == get_version_id d) ≡ true) ⊎ HasConfig csm d s
      stored_cases d p h = elim (Bool-cases (id == get_version_id d)) [
        | inl same ↦ inl same
        | inr other ↦ inr (
            HasConfig-cast csm laws d after s
              (sym (
                config_at-put_config csm laws c (get_version_id d) s
                  (λ e. false≢true (sym other ∙ (eq_iff _ _).1 e)) (plain_name_ne c.name d plain)))
              h)
      ]

      still_stored : (d : Configuration) → HasConfig csm d s → HasConfig csm d after
      still_stored d (b, m, held) =
          HasConfig-cast csm laws d s after
            (config_at-put_config csm laws c (get_version_id d) s (λ e. free_before e)
              (plain_name_ne c.name d plain))
            (b, m, held)
        where
          free_before : id ≡ get_version_id d → ⊥
          free_before e = false≢true (
              sym (ap is_absent held)
              ∙ subst (λ i. is_absent (csm.client.look s (new_key_for_config i)) ≡ true) e
                  ((put_config-HasConfig csm laws c s done).1 answers_exists))

      or_cases : (a b : Bool) → (a || b) ≡ true → (a ≡ true) ⊎ (b ≡ true)
      or_cases true b h = inl refl
      or_cases false b h = inr h

      new_stored : HasConfig csm c after
      new_stored = (put_config-HasConfig csm laws c s done).0

      or_true : (a : Bool) → (a || true) ≡ true
      or_true true = refl
      or_true false = refl

      pub names_iff :
          (name : Text)
          → Lacks b':' name
          → (in_names csm name s ≡ true) ↔ OfName csm name s
          → (in_names csm name after ≡ true) ↔ OfName csm name after
      names_iff name p before = (
        λ h. elim (or_cases (c.name == name) (in_names csm name s) (sym (names_after name) ∙ h)) [
          | inl e ↦ (c, (eq_iff _ _).0 e, new_stored)
          | inr old ↦ let (d, e, stored) = before.0 old in (d, e, still_stored d stored)
        ],
        λ (d, e, stored). elim (stored_cases d (subst (Lacks b':') (sym e) p) stored) [
          | inl same ↦
              let own =
                (get_version_id_injective c d plain (subst (Lacks b':') (sym e) p)
                  ((eq_iff _ _).0 same)).0 in
              names_after name ∙ ap (λ b. b || in_names csm name s) ((eq_iff _ _).1 (own ∙ e))
          | inr old ↦
              names_after name
              ∙ ap (λ b. c.name == name || b) (before.1 (d, e, old))
              ∙ or_true (c.name == name)
        ],
      )

      pub versions_iff :
          (name x : Text)
          → Lacks b':' name
          → (in_versions csm name x s ≡ true) ↔ OfVersion csm name x s
          → (in_versions csm name x after ≡ true) ↔ OfVersion csm name x after
      versions_iff name x p before = (
        λ h.
            elim (or_cases (c.name == name && id == x) (in_versions csm name x s)
              (sym (versions_after name x p) ∙ h)) [
                | inl e ↦
                    let (n, v) = both (c.name == name) (id == x) e in
                    (c, (eq_iff _ _).0 n, (eq_iff _ _).0 v, new_stored)
                | inr old ↦ let (d, e, v, stored) = before.0 old in (d, e, v, still_stored d stored)
              ],
        λ (d, e, v, stored). elim (stored_cases d (subst (Lacks b':') (sym e) p) stored) [
          | inl same ↦
              let same_id = (eq_iff id _).0 same in
              let own =
                (get_version_id_injective c d plain (subst (Lacks b':') (sym e) p) same_id).0 in
              versions_after name x p
              ∙ ap (λ b. b && id == x || in_versions csm name x s) ((eq_iff _ _).1 (own ∙ e))
              ∙ ap (λ b. b || in_versions csm name x s) ((eq_iff _ _).1 (same_id ∙ v))
          | inr old ↦
              versions_after name x p
              ∙ ap (λ b. c.name == name && id == x || b) (before.1 (d, e, v, old))
              ∙ or_true (c.name == name && id == x)
        ],
      )
        where
          both : (a b : Bool) → (a && b) ≡ true → (a ≡ true) × (b ≡ true)
          both true b h = (refl, h)
          both false b h = cc
