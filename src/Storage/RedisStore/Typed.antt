-- ===== src/Storage/RedisStore/Typed.antt =====
-- pkg/storage/redis_store.go: what kind of value each key of the store holds.

pub mod Calls
pub mod Changes
pub mod Reached
use go_statemachine.Prelude.{
  ℕ, zero, suc, Text, text, ◌≡◌, ◌≢◌, ◌⊎◌, inl, inr, refl, ◌∙◌, sym, ap, subst, Bool, true, false,
  Bool-cases, [], ◌∷◌, ◌==◌, eq_iff, false≢true, if◌then◌else◌,
}
use go_statemachine.Go.Result.{Result, ok, err, panic}
use go_statemachine.Go.Action.{Action, continue}
use go_statemachine.Go.Strings.{contains}
use go_statemachine.Storage.Keys.Laws.{
  Key, all_configs, config, machine, by_state, event, outcome, key_text, HasPlainName,
  key_text_injective,
}
use go_statemachine.Storage.Redis.{Cell, absent, value, members, Client, Wire, Laws}
use go_statemachine.Storage.RedisStore.{RedisStore, after_set, store, put_loop, put, decrement}
use go_statemachine.Storage.RedisStore.Values.{look-get}
use go_statemachine.Storage.RedisStore.Tx.Live.{HoldsSet}

-- The documented behaviour of the commands that write, whatever their reply: they leave at their key
-- what they write, or what was there; and SADD and SREM leave a set, if there was one or nothing.
pub record WritesWhole {S Bytes : Type 0} (r : Client S Bytes) : Type 0 where
  pub set_whole :
      (k : Text) (b : Bytes) (ttl : ℕ) (s : S)
      → (r.look (r.set k b ttl s).1 k ≡ value b) ⊎ (r.look (r.set k b ttl s).1 k ≡ r.look s k)
  pub exec_whole :
      (k : Text) (b : Bytes) (s : S)
      → (r.look (r.exec ((k, b) ∷ []) s).1 k ≡ value b)
        ⊎ (r.look (r.exec ((k, b) ∷ []) s).1 k ≡ r.look s k)
  pub sadd_whole :
      (k a : Text) (s : S) → HoldsSet (r.look s k) → HoldsSet (r.look (r.sadd k a s).1 k)
  pub srem_whole :
      (k a : Text) (s : S) → HoldsSet (r.look s k) → HoldsSet (r.look (r.srem k a s).1 k)

-- Nothing, or the encoding of a message.
abbrev pub Encodes : {Bytes A : Type 0} → Wire Bytes A → Cell Bytes → Type 0
Encodes w absent = Unit
Encodes {A = A} w (value b) = (a : A) × (w.marshal a ≡ ok b)
Encodes w (members xs) = ⊥

module _ {S Bytes : Type 0} (csm : RedisStore S Bytes) where
  -- The identifier of a configuration has a colon, and its name has none.
  abbrev pub HasKind : Key → Cell Bytes → Type 0
  HasKind all_configs c = HoldsSet c
  HasKind (config id) c =
      if contains id (text ":") then Encodes csm.wires.configuration c else HoldsSet c
  HasKind (machine id name) c = Encodes csm.wires.machine c
  HasKind (by_state name st) c = HoldsSet c
  HasKind (event id name) c = Encodes csm.wires.event c
  HasKind (outcome id name) c = Encodes csm.wires.outcome c

  -- At the keys of configuration names without # and :.
  abbrev pub IsTyped : S → Type 0
  IsTyped s = (k : Key) → HasPlainName k → HasKind k (csm.client.look s (key_text k))

  pub IsTyped-keeps :
      (s t : S) → ((j : Text) → csm.client.look t j ≡ csm.client.look s j) → IsTyped s → IsTyped t
  IsTyped-keeps s t same typed k p = subst (HasKind k) (sym (same (key_text k))) (typed k p)

  -- A change of one key.
  pub IsTyped-at :
      (k : Key) (s t : S)
      → HasPlainName k
      → ((j : Text) → key_text k ≢ j → csm.client.look t j ≡ csm.client.look s j)
      → HasKind k (csm.client.look t (key_text k))
      → IsTyped s
      → IsTyped t
  IsTyped-at k s t plain frame here typed l p = elim (Bool-cases (key_text k == key_text l)) [
    | inl same ↦
        subst (λ l. HasKind l (csm.client.look t (key_text l)))
          (key_text_injective k l plain p ((eq_iff _ _).0 same)) here
    | inr other ↦
        subst (HasKind l)
          (sym (frame (key_text l) (λ e. false≢true (sym other ∙ (eq_iff _ _).1 e)))) (typed l p)
  ]

  written :
      (k : Key) (b : Bytes) (c d : Cell Bytes)
      → (c ≡ value b) ⊎ (c ≡ d)
      → HasKind k (value b)
      → HasKind k d
      → HasKind k c
  written k b c d (inl e) new old = subst (HasKind k) (sym e) new
  written k b c d (inr e) new old = subst (HasKind k) (sym e) old

  module _ (laws : Laws csm.client) (whole : WritesWhole csm.client) where
    pub set-IsTyped :
        (k : Key) (b : Bytes) (ttl : ℕ) (s : S)
        → HasPlainName k
        → HasKind k (value b)
        → IsTyped s
        → IsTyped (csm.client.set (key_text k) b ttl s).1
    set-IsTyped k b ttl s p new typed =
        IsTyped-at k s _ p (λ j n. laws.set_frame (key_text k) j b ttl s n)
          (written k b _ _ (whole.set_whole (key_text k) b ttl s) new (typed k p)) typed

    pub exec-IsTyped :
        (k : Key) (b : Bytes) (s : S)
        → HasPlainName k
        → HasKind k (value b)
        → IsTyped s
        → IsTyped (csm.client.exec ((key_text k, b) ∷ []) s).1
    exec-IsTyped k b s p new typed =
        IsTyped-at k s _ p (λ j n. laws.exec_frame (key_text k) j b s n)
          (written k b _ _ (whole.exec_whole (key_text k) b s) new (typed k p)) typed

    -- A set of the store; `config name` is one if the name has no colon.
    abbrev pub KeepsSets : Key → Type 0
    KeepsSets k = (c d : Cell Bytes) → HasKind k c → (HoldsSet c → HoldsSet d) → HasKind k d

    pub sadd-IsTyped :
        (k : Key) (a : Text) (s : S)
        → HasPlainName k
        → KeepsSets k
        → IsTyped s
        → IsTyped (csm.client.sadd (key_text k) a s).1
    sadd-IsTyped k a s p sets typed =
        IsTyped-at k s _ p (λ j n. laws.sadd_frame (key_text k) j a s n)
          (sets _ _ (typed k p) (whole.sadd_whole (key_text k) a s)) typed

    pub srem-IsTyped :
        (k : Key) (a : Text) (s : S)
        → HasPlainName k
        → KeepsSets k
        → IsTyped s
        → IsTyped (csm.client.srem (key_text k) a s).1
    srem-IsTyped k a s p sets typed =
        IsTyped-at k s _ p (λ j n. laws.srem_frame (key_text k) j a s n)
          (sets _ _ (typed k p) (whole.srem_whole (key_text k) a s)) typed
