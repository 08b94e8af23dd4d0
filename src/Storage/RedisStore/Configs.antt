-- ===== src/Storage/RedisStore/Configs.antt =====
-- pkg/storage/redis_store.go, PutConfig: a stored configuration stays as it is.
pub mod Catalogue
pub mod Added
pub mod Listed
use go_statemachine.Prelude.{
  ℕ, Text, ◌≡◌, ◌≢◌, inl, inr, refl, ◌∙◌, sym, ap, subst, Bool-cases, true, false, some, arith,
  eq_iff, nat_eq, if◌then◌else◌, ◌==◌,
}
use go_statemachine.Protos.{Configuration}
use go_statemachine.Go.Result.{Error, Result, ok, err}
use go_statemachine.Go.Strings.Laws.{Lacks, not-Lacks-append}
use go_statemachine.Api.Configuration.{get_version_id}
use go_statemachine.Storage.Errors.{already_exists_error}
use go_statemachine.Storage.Keys.{configs_prefix, new_key_for_config}
use go_statemachine.Storage.Keys.Laws.{all_configs, config, key_text_injective}
use go_statemachine.Storage.Redis.{Reply, answer, timeout, failure, Cell, is_absent, Laws}
use go_statemachine.Storage.RedisStore.{RedisStore, val, add_config, put_config}
use go_statemachine.Storage.RedisStore.Values.{Stored, look-put, put-Stored}

config_injective : {id id' : Text} → config id ≡ config id' → id ≡ id'
config_injective h = cc

pub config_key_ne : (a b : Text) → a ≢ b → new_key_for_config a ≢ new_key_for_config b
config_key_ne a b n e = n (config_injective (key_text_injective (config a) (config b) tt tt e))

pub all_configs_ne : (a : Text) → configs_prefix ≢ new_key_for_config a
all_configs_ne a e = differ (key_text_injective all_configs (config a) tt tt e)
  where
    differ : all_configs ≡ config a → ⊥
    differ h = cc

plain_name_ne : (name : Text) (c : Configuration) → Lacks b':' name → name ≢ get_version_id c
plain_name_ne name c h e = not-Lacks-append b':' c.name c.version (subst (Lacks b':') e h)

abbrev pub IsAnswered : {A : Type 0} → Reply A → Type 0
IsAnswered (answer a) = Unit
IsAnswered (timeout e) = ⊥
IsAnswered (failure e) = ⊥

-- The configuration is stored under its identifier.
abbrev pub HasConfig : {S Bytes : Type 0} → RedisStore S Bytes → Configuration → S → Type 0
HasConfig csm d s = Stored csm csm.wires.configuration (new_key_for_config (get_version_id d)) d s

module _ {S Bytes : Type 0} (csm : RedisStore S Bytes) (laws : Laws csm.client) where
  abbrev config_at : Text → S → Cell Bytes
  config_at id s = csm.client.look s (new_key_for_config id)

  -- Another identifier's configuration is not touched.
  config_at-add_config :
      (c : Configuration) (id : Text) (s : S)
      → get_version_id c ≢ id
      → c.name ≢ id
      → config_at id (add_config csm c s).1 ≡ config_at id s
  config_at-add_config c id s n m =
      let named = (csm.client.sadd configs_prefix c.name s).1 in
      let listed = (csm.client.sadd (new_key_for_config c.name) (get_version_id c) named).1 in
      look-put csm laws csm.wires.configuration (new_key_for_config (get_version_id c)) c 0
        (new_key_for_config id) listed (config_key_ne _ id n)
      ∙ laws.sadd_frame (new_key_for_config c.name) (new_key_for_config id) (get_version_id c) named
          (config_key_ne c.name id m)
      ∙ laws.sadd_frame configs_prefix (new_key_for_config id) c.name s (all_configs_ne id)

  answered : (r : Reply ℕ) → IsAnswered r → (n : ℕ) × (r ≡ answer n)
  answered (answer n) h = (n, refl)
  answered (timeout e) h = elim h [ ]
  answered (failure e) h = elim h [ ]

  -- If EXISTS is answered and something is stored under the identifier, PutConfig is refused and
  -- changes nothing.
  pub put_config-exists :
      (c : Configuration) (s : S)
      → IsAnswered (csm.client.exists (new_key_for_config (get_version_id c)) s).0
      → is_absent (config_at (get_version_id c) s) ≡ false
      → ((put_config csm (some c) s).0
          ≡ err (already_exists_error (new_key_for_config (get_version_id c))))
        × ((j : Text) → csm.client.look (put_config csm (some c) s).1 j ≡ csm.client.look s j)
  unfolding put_config
  put_config-exists c s a held =
      let key = new_key_for_config (get_version_id c) in
      let (n, e) = answered (csm.client.exists key s).0 a in
      let one : (csm.client.exists key s).0 ≡ answer 1 =
        e ∙ ap answer (laws.exists_answer key s n e ∙ ap (λ b. if b then 0 else 1) held) in
      (rw one refl, λ j. rw one (laws.look-exists key j s))

  -- Neither answer to EXISTS matters to another identifier.
  config_at-put_config :
      (c : Configuration) (id : Text) (s : S)
      → get_version_id c ≢ id
      → c.name ≢ id
      → config_at id (put_config csm (some c) s).1 ≡ config_at id s
  unfolding put_config
  config_at-put_config c id s n m =
      let key = new_key_for_config (get_version_id c) in
      elim (Bool-cases (nat_eq (val csm (csm.client.exists key s).0) 1)) [
        | inl one ↦ rw one (laws.look-exists key (new_key_for_config id) s)
        | inr other ↦ rw other (
            config_at-add_config c id (csm.client.exists key s).1 n m
            ∙ laws.look-exists key (new_key_for_config id) s)
      ]

  held_not_absent :
      (d : Configuration) (s : S)
      → HasConfig csm d s
      → is_absent (config_at (get_version_id d) s) ≡ false
  held_not_absent d s (b, m, h) = ap is_absent h

  HasConfig-cast :
      (d : Configuration) (s t : S)
      → config_at (get_version_id d) t ≡ config_at (get_version_id d) s
      → HasConfig csm d s
      → HasConfig csm d t
  HasConfig-cast d s t e (b, m, h) = (b, m, e ∙ h)

  -- A stored configuration stays stored as it is when any configuration is put, if EXISTS is answered
  -- and the name of the new one has no colon.
  pub put_config-keeps :
      (c d : Configuration) (s : S)
      → IsAnswered (csm.client.exists (new_key_for_config (get_version_id c)) s).0
      → Lacks b':' c.name
      → HasConfig csm d s
      → HasConfig csm d (put_config csm (some c) s).1
  put_config-keeps c d s a plain held = elim (Bool-cases (get_version_id c == get_version_id d)) [
    | inl same ↦
        let e = (eq_iff _ _).0 same in
        HasConfig-cast d s (put_config csm (some c) s).1
          ((put_config-exists c s a (
              subst (λ id. is_absent (config_at id s) ≡ false) (sym e)
                (held_not_absent d s held))).1
            (new_key_for_config (get_version_id d)))
          held
    | inr other ↦
        HasConfig-cast d s (put_config csm (some c) s).1
          (config_at-put_config c (get_version_id d) s
            (λ e. ground (arith, eq_iff (get_version_id c) (get_version_id d)))
            (plain_name_ne c.name d plain))
          held
  ]

  stores_config :
      (c : Configuration) (s : S)
      → (put_config csm (some c) s).0 ≡ ok tt
      → HasConfig csm c (put_config csm (some c) s).1
  unfolding put_config
  stores_config c s done =
      let key = new_key_for_config (get_version_id c) in
      let start = (csm.client.exists key s).1 in
      let named = (csm.client.sadd configs_prefix c.name start).1 in
      let listed = (csm.client.sadd (new_key_for_config c.name) (get_version_id c) named).1 in
      elim (Bool-cases (nat_eq (val csm (csm.client.exists key s).0) 1)) [
        | inl one ↦ absurd (refused (rw one at done))
        | inr other ↦
            rw other (put-Stored csm laws csm.wires.configuration key c listed (rw other at done))
      ]
    where
      refused : {e : Error} → ◌≡◌ {A = Result (Unit {0})} (err e) (ok tt) → ⊥
      refused h = cc

  -- If PutConfig returns nil, the configuration is stored, and if EXISTS was answered, nothing was
  -- stored under its identifier before.
  pub put_config-HasConfig :
      (c : Configuration) (s : S)
      → (put_config csm (some c) s).0 ≡ ok tt
      → HasConfig csm c (put_config csm (some c) s).1
        × (IsAnswered (csm.client.exists (new_key_for_config (get_version_id c)) s).0
            → is_absent (config_at (get_version_id c) s) ≡ true)
  put_config-HasConfig c s done = (
    stores_config c s done,
    λ a. elim (Bool-cases (is_absent (config_at (get_version_id c) s))) [
      | inl free ↦ free
      | inr held ↦ absurd (cc ((put_config-exists c s a held).0))
    ],
  )
