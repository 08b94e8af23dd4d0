-- ===== src/System/Catalogue/Streamed.antt =====
-- pkg/grpc/grpc_server.go, StreamAllConfigurations, behind any calls of PutConfig whose commands were answered.
use mathlib.Core.List.{append-nil, append_assoc}
use go_statemachine.Prelude.{
  Text, ◌≡◌, ◌≢◌, inl, inr, refl, ◌∙◌, sym, ap, subst, true, some, List, [], ◌∷◌, ◌++◌, map, All,
  Any, arith, ◌==◌, eq_iff, eq_refl, eq_false, Bool-cases,
}
use go_statemachine.Protos.{Configuration}
use go_statemachine.Go.Strings.Laws.{Lacks}
use go_statemachine.Api.Configuration.{get_version_id}
use go_statemachine.Storage.Keys.{new_key_for_config}
use go_statemachine.Storage.Redis.{contains, Laws}
use go_statemachine.Storage.RedisStore.{RedisStore, get_config}
use go_statemachine.Storage.RedisStore.Values.{Reads, look-get, get_sound}
use go_statemachine.Storage.RedisStore.Configs.{IsAnswered, HasConfig}
use go_statemachine.Storage.RedisStore.Configs.Catalogue.{Reachable}
use go_statemachine.Storage.RedisStore.Configs.Listed.{Reachable-IsCatalogued}
use go_statemachine.Storage.RedisStore.Tx.Index.{Reads-unique, Reads-of_Stored}
use go_statemachine.Storage.Manager.{redis_manager}
use go_statemachine.Grpc.Status.{Rpc, reply}
use go_statemachine.Grpc.Server.{GrpcSubscriber, get_all_configurations}
use go_statemachine.Grpc.Streams.{stream_configs, stream_all_configurations}
use go_statemachine.System.Streaming.{Stream, sent_reply, found_reply}
use go_statemachine.System.Catalogue.{versions_replied}

module _ {S T Bytes : Type 0} (csm : RedisStore S Bytes) (laws : Laws csm.client)
    (stream : Stream Configuration T) where
  abbrev loop : List Text → S × T → Rpc (Unit {0}) × (S × T)
  loop = stream_configs stream.send_msg (redis_manager csm)

  -- An identifier and what was read under it.
  abbrev Read : Type 0
  Read = Text × Configuration

  record Sent (ids : List Text) (s : S) (before after : T) : Type 0 where
    pub reads : List Read
    pub of_ids : map (λ r. r.0) reads ≡ ids
    pub sends : stream.messages after ≡ stream.messages before ++ map (λ r. r.1) reads
    pub read : All (λ r. Reads csm csm.wires.configuration (new_key_for_config r.0) r.1 s) reads

  stream_configs-Sent :
      (ids : List Text) (s w : S) (t : T)
      → ((j : Text) → csm.client.look w j ≡ csm.client.look s j)
      → (loop ids (w, t)).0 ≡ reply tt
      → Sent ids s t (loop ids (w, t)).1.1
  unfolding stream_configs get_config
  stream_configs-Sent [] s w t same h = record {
    reads = [];
    of_ids = refl;
    sends = sym (append-nil _);
    read = tt;
  }
  stream_configs-Sent (id ∷ ids) s w t same h =
      let key = new_key_for_config id in
      let got = get_config csm id w in
      let (c, is_found, by_store) = found_reply stream (loop ids) (λ c. c) t got h in
      let (is_sent, by_stream) =
        sent_reply stream (loop ids) got.1 (stream.send_msg c t)
          (ap (λ r. r.0) (sym by_store) ∙ h) in
      let ends = by_store ∙ by_stream in
      let t' = (stream.send_msg c t).1 in
      let rest =
        stream_configs-Sent ids s got.1 t'
          (λ j. look-get csm laws csm.wires.configuration key j w ∙ same j)
          (ap (λ r. r.0) (sym ends) ∙ h) in
      let (b, held, decoded) = get_sound csm laws csm.wires.configuration key c w is_found in
      record {
        reads = (id, c) ∷ rest.reads;
        of_ids = ap (λ l. id ∷ l) rest.of_ids;
        sends =
            ap (λ r. stream.messages r.1.1) ends
            ∙ rest.sends
            ∙ ap (λ l. l ++ map (λ r. r.1) rest.reads) (stream.messages-send_msg c t is_sent)
            ∙ append_assoc (stream.messages t) (c ∷ []) _;
        read = ((b, sym (same key) ∙ held, decoded), rest.read);
      }

  All-map :
      {P : Read → Type 0} (Q : Configuration → Type 0) (l : List Read)
      → ((r : Read) → contains r.0 (map (λ r. r.0) l) ≡ true → P r → Q r.1)
      → All P l
      → All Q (map (λ r. r.1) l)
  unfolding contains
  All-map Q [] k h = tt
  All-map Q (e ∷ l) k (p, rest) =
      (k e (ground (arith, eq_refl e.0)) p, All-map Q l (λ d m. k d (ground arith)) rest)

  contains-Any :
      {P : Read → Type 0} (Q : Configuration → Type 0) (l : List Read) (id : Text)
      → contains id (map (λ r. r.0) l) ≡ true
      → All P l
      → ((r : Read) → r.0 ≡ id → P r → Q r.1)
      → Any Q (map (λ r. r.1) l)
  unfolding contains
  contains-Any Q [] id m h k = cc
  contains-Any Q (e ∷ l) id m (p, rest) k = elim (Bool-cases (e.0 == id)) [
    | inl same ↦ inl (k e ((eq_iff e.0 id).0 same) p)
    | inr other ↦ inr (contains-Any Q l id (ground arith) rest k)
  ]

  -- What is read under the identifier of a stored configuration is that configuration.
  read_stored :
      (i : Text) (c d : Configuration) (s : S)
      → Reads csm csm.wires.configuration (new_key_for_config i) c s
      → get_version_id d ≡ i
      → HasConfig csm d s
      → c ≡ d
  read_stored i c d s held e stored =
      let w = csm.wires.configuration in
      Reads-unique csm w (new_key_for_config i) c d s held (
        subst (λ i. Reads csm w (new_key_for_config i) d s) e
          (Reads-of_Stored csm w (new_key_for_config (get_version_id d)) d s stored))

  module _ (server : GrpcSubscriber S) (running : server.store ≡ some (redis_manager csm)) where
    streams_ids :
        (name : Text) (s : S) (t : T) (ids : List Text) (w : S)
        → name ≢ []
        → get_all_configurations server name s ≡ (reply ids, w)
        → stream_all_configurations server stream.send_msg name (s, t) ≡ loop ids (w, t)
    unfolding stream_all_configurations
    streams_ids name s t ids w n e = rw (eq_false name [] n, e, running) refl

    -- In a store that calls of PutConfig have made, for configurations whose names have no colon, that
    -- returned nil and whose commands were all answered, if SMEMBERS is answered: for a name that is
    -- not empty and has no colon, if StreamAllConfigurations returns nil, it has sent, behind what the
    -- stream had, stored configurations of this name, and every one.
    pub stream_all_configurations-exact :
        (name : Text) (s : S) (t : T)
        → Reachable csm s
        → name ≢ []
        → Lacks b':' name
        → IsAnswered (csm.client.smembers (new_key_for_config name) s).0
        → (stream_all_configurations server stream.send_msg name (s, t)).0 ≡ reply tt
        → (configs : List Configuration) × (stream.messages
              (stream_all_configurations server stream.send_msg name (s, t)).1.1
            ≡ stream.messages t ++ configs)
          × All (λ c. (c.name ≡ name) × HasConfig csm c s) configs
          × ((d : Configuration) → d.name ≡ name → HasConfig csm d s → Any (λ c. c ≡ d) configs)
    stream_all_configurations-exact name s t r n p a h =
        let (ids, e, replies) = versions_replied csm laws server running name s n a in
        let w = (csm.client.smembers (new_key_for_config name) s).1 in
        let ends = streams_ids name s t ids w n replies in
        let all =
          stream_configs-Sent ids s w t (λ j. laws.look-smembers (new_key_for_config name) j s)
            (ap (λ r. r.0) (sym ends) ∙ h) in
        let listed = λ (id : Text). laws.smembers_iff (new_key_for_config name) id s ids e in
        let catalogued = λ (id : Text). (Reachable-IsCatalogued csm laws r).versions name id p in
        (
          map (λ r. r.1) all.reads,
          ap (λ r. stream.messages r.1.1) ends ∙ all.sends,
          All-map (λ c. (c.name ≡ name) × HasConfig csm c s) all.reads
              (λ read m held.
                let (d, same_name, same_id, stored) =
                  (catalogued read.0).0
                    (sym (listed read.0) ∙ subst (λ l. contains read.0 l ≡ true) all.of_ids m) in
                subst (λ c. (c.name ≡ name) × HasConfig csm c s)
                  (sym (read_stored read.0 read.1 d s held same_id stored)) (same_name, stored))
              all.read,
          λ d same_name stored.
              contains-Any (λ c. c ≡ d) all.reads (get_version_id d)
                (subst (λ l. contains (get_version_id d) l ≡ true) (sym all.of_ids)
                  (listed (get_version_id d)
                    ∙ (catalogued (get_version_id d)).1 (d, same_name, refl, stored)))
                all.read (λ read e held. read_stored read.0 read.1 d s held (sym e) stored),
        )
