-- ===== src/System/Streaming.antt =====
-- pkg/grpc/grpc_server.go, StreamAllInstate over a store that the calls of the program have made.
use mathlib.Core.List.{append-nil, append_assoc}
use go_statemachine.Prelude.{
  Text, ◌≡◌, inl, inr, refl, ◌∙◌, sym, ap, subst, true, some, List, [], ◌∷◌, ◌++◌, map, All, Any,
  arith, ◌==◌, eq_iff, eq_refl, Bool-cases,
}
use go_statemachine.Protos.{FiniteStateMachine, GetFsmRequest, PutResponse}
use go_statemachine.Go.Result.{Result, ok, err, panic}
use go_statemachine.Storage.Keys.{new_key_for_machine}
use go_statemachine.Storage.Keys.Laws.{IsPlain}
use go_statemachine.Storage.Redis.{contains, Laws}
use go_statemachine.Storage.RedisStore.{RedisStore, get_state_machine}
use go_statemachine.Storage.RedisStore.Configs.{IsAnswered}
use go_statemachine.Storage.RedisStore.Values.{Reads, look-get, get_sound}
use go_statemachine.Storage.RedisStore.Tx.Index.{Reads-unique}
use go_statemachine.Storage.Manager.{redis_manager}
use go_statemachine.Grpc.Status.{Rpc, reply, status, raw, crash}
use go_statemachine.Grpc.Server.{GrpcSubscriber, get_all_in_state}
use go_statemachine.Grpc.Streams.{
  machine_message, sent, found, listed, stream_machines, stream_ids, stream_all_instate,
}
use go_statemachine.System.Consistency.{Reachable}
use go_statemachine.System.Listing.{set_key, replied, get_all_in_state_iff}

-- A message of the stream: an id and its machine.
abbrev pub Entry : Type 0
Entry = Text × FiniteStateMachine

abbrev pub entry_message : Entry → PutResponse
entry_message e = machine_message e.0 e.1

-- A stream: SendMsg, and what the client has been sent. A call that returns nil has sent its message.
pub record Stream (A T : Type 0) : Type 0 where
  pub send_msg : A → T → Result (Unit {0}) × T
  pub messages : T → List A
  pub messages-send_msg :
      (m : A) (t : T) → (send_msg m t).0 ≡ ok tt → messages (send_msg m t).1 ≡ messages t ++ m ∷ []

module _ {S T A : Type 0} (stream : Stream A T) where
  pub sent_reply :
      (rest : S × T → Rpc (Unit {0}) × (S × T)) (w : S) (r : Result (Unit {0}) × T)
      → (sent stream.send_msg rest w r).0 ≡ reply tt
      → (r.0 ≡ ok tt) × (sent stream.send_msg rest w r ≡ rest (w, r.1))
  sent_reply rest w (ok u, t) h = (refl, refl)
  sent_reply rest w (err e, t) h = cc
  sent_reply rest w (panic, t) h = cc

  pub found_reply :
      {B : Type 0} (rest : S × T → Rpc (Unit {0}) × (S × T)) (f : B → A) (t : T) (r : Result B × S)
      → (found stream.send_msg rest f t r).0 ≡ reply tt
      → (b : B) × (r.0 ≡ ok b)
        × (found stream.send_msg rest f t r
            ≡ sent stream.send_msg rest r.1 (stream.send_msg (f b) t))
  found_reply rest f t (ok b, w) h = (b, refl, refl)
  found_reply rest f t (err e, w) h = cc
  found_reply rest f t (panic, w) h = cc

module _ {S T Bytes : Type 0} (csm : RedisStore S Bytes) (laws : Laws csm.client)
    (stream : Stream PutResponse T) where
  abbrev loop : Text → List Text → S × T → Rpc (Unit {0}) × (S × T)
  loop name = stream_machines stream.send_msg (redis_manager csm) name

  -- Every id was read in turn, and sent with its machine.
  record Sent (name : Text) (ids : List Text) (s : S) (before after : T) : Type 0 where
    pub entries : List Entry
    pub of_ids : map (λ e. e.0) entries ≡ ids
    pub sends : stream.messages after ≡ stream.messages before ++ map entry_message entries
    pub read : All (λ e. Reads csm csm.wires.machine (new_key_for_machine e.0 name) e.1 s) entries

  stream_machines-Sent :
      (name : Text) (ids : List Text) (s w : S) (t : T)
      → ((j : Text) → csm.client.look w j ≡ csm.client.look s j)
      → (loop name ids (w, t)).0 ≡ reply tt
      → Sent name ids s t (loop name ids (w, t)).1.1
  unfolding stream_machines get_state_machine
  stream_machines-Sent name [] s w t same h = record {
    entries = [];
    of_ids = refl;
    sends = sym (append-nil _);
    read = tt;
  }
  stream_machines-Sent name (id ∷ ids) s w t same h =
      let key = new_key_for_machine id name in
      let got = get_state_machine csm id name w in
      let (f, is_found, by_store) =
        found_reply stream (loop name ids) (machine_message id) t got h in
      let message = machine_message id f in
      let (is_sent, by_stream) =
        sent_reply stream (loop name ids) got.1 (stream.send_msg message t)
          (ap (λ r. r.0) (sym by_store) ∙ h) in
      let ends = by_store ∙ by_stream in
      let t' = (stream.send_msg message t).1 in
      let rest =
        stream_machines-Sent name ids s got.1 t'
          (λ j. look-get csm laws csm.wires.machine key j w ∙ same j)
          (ap (λ r. r.0) (sym ends) ∙ h) in
      let (b, held, decoded) = get_sound csm laws csm.wires.machine key f w is_found in
      record {
        entries = (id, f) ∷ rest.entries;
        of_ids = ap (λ l. id ∷ l) rest.of_ids;
        sends =
            ap (λ r. stream.messages r.1.1) ends
            ∙ rest.sends
            ∙ ap (λ l. l ++ map entry_message rest.entries)
                (stream.messages-send_msg message t is_sent)
            ∙ append_assoc (stream.messages t) (message ∷ []) _;
        read = ((b, sym (same key) ∙ held, decoded), rest.read);
      }

  All-map :
      {P Q : Entry → Type 0} (l : List Entry)
      → ((e : Entry) → contains e.0 (map (λ e. e.0) l) ≡ true → P e → Q e)
      → All P l
      → All Q l
  unfolding contains
  All-map [] k h = tt
  All-map (e ∷ l) k (p, rest) =
      (k e (ground (arith, eq_refl e.0)) p, All-map l (λ d m. k d (ground (arith))) rest)

  contains-Any :
      {P Q : Entry → Type 0} (l : List Entry) (id : Text)
      → contains id (map (λ e. e.0) l) ≡ true
      → All P l
      → ((e : Entry) → e.0 ≡ id → P e → Q e)
      → Any Q l
  unfolding contains
  contains-Any [] id m h k = cc
  contains-Any (e ∷ l) id m (p, rest) k = elim (Bool-cases (e.0 == id)) [
    | inl same ↦ inl (k e ((eq_iff e.0 id).0 same) p)
    | inr other ↦ inr (contains-Any l id (ground arith) rest k)
  ]

  listed_reply :
      (next : List Text → S × T → Rpc (Unit {0}) × (S × T)) (server : GrpcSubscriber S) (t : T)
      (r : Rpc (List Text) × S)
      → (listed server next t r).0 ≡ reply tt
      → (ids : List Text) × (r.0 ≡ reply ids) × (listed server next t r ≡ next ids (r.1, t))
  listed_reply next server t (reply ids, w) h = (ids, refl, refl)
  listed_reply next server t (status c e, w) h = cc
  listed_reply next server t (raw e, w) h = cc
  listed_reply next server t (crash, w) h = cc

  module _ (server : GrpcSubscriber S) (running : server.store ≡ some (redis_manager csm)) where
    -- If StreamAllInstate returns nil, it has sent the machines that are stored in the state, each
    -- with its id, all of them and no others: in a store that the calls of `Step` have made, for a
    -- configuration name without # and :, if SMEMBERS is answered. Among these calls, those of
    -- PutFiniteStateMachine and TxProcessEvent have configuration names without # and :, those of
    -- PutFiniteStateMachine reply, for ids without a machine and configurations stored under their
    -- own identifiers, and those of TxProcessEvent return nil, their first EXEC not refused.
    pub stream_all_instate-exact :
        (request : GetFsmRequest) (s : S) (t : T)
        → Reachable csm laws server s
        → IsPlain request.config
        → IsAnswered (csm.client.smembers (set_key request) s).0
        → (stream_all_instate server stream.send_msg request (s, t)).0 ≡ reply tt
        → (entries : List Entry) × (stream.messages
              (stream_all_instate server stream.send_msg request (s, t)).1.1
            ≡ stream.messages t ++ map entry_message entries)
          × All
              (λ e.
                Reads csm csm.wires.machine (new_key_for_machine e.0 request.config) e.1 s
                × (e.1.state ≡ request.state))
              entries
          × ((id : Text) (f : FiniteStateMachine)
              → Reads csm csm.wires.machine (new_key_for_machine id request.config) f s
              → f.state ≡ request.state
              → Any (λ e. (e.0 ≡ id) × (e.1 ≡ f)) entries)
    unfolding stream_all_instate
    stream_all_instate-exact request s t r plain a h =
        let list = get_all_in_state server request s in
        let (ids, is_list, by_list) =
          listed_reply (stream_ids server stream.send_msg request.config) server t list h in
        let (named, answered, state) = replied csm laws server running request s ids a is_list in
        let ends : stream_all_instate server stream.send_msg request (s, t)
            ≡ loop request.config ids (list.1, t) =
          by_list ∙ rw running in
        let all =
          stream_machines-Sent request.config ids s list.1 t
            (λ j. ap (λ w. csm.client.look w j) state ∙ laws.look-smembers (set_key request) j s)
            (ap (λ r. r.0) (sym ends) ∙ h) in
        let key = λ (id : Text). new_key_for_machine id request.config in
        (
          all.entries,
          ap (λ r. stream.messages r.1.1) ends ∙ all.sends,
          All-map all.entries
              (λ e m read.
                let (f, stored, is_in) =
                  (get_all_in_state_iff csm laws server running request s ids e.0 r plain a
                      is_list).0
                    (subst (λ l. contains e.0 l ≡ true) all.of_ids m) in
                (
                  read,
                  ap (λ f. f.state)
                        (Reads-unique csm csm.wires.machine (key e.0) e.1 f s read stored)
                      ∙ is_in,
                ))
              all.read,
          λ id f stored is_in.
              contains-Any all.entries id
                (subst (λ l. contains id l ≡ true) (sym all.of_ids)
                  ((get_all_in_state_iff csm laws server running request s ids id r plain a
                      is_list).1
                    (f, stored, is_in)))
                all.read
                (λ e same read. (
                  same,
                  Reads-unique csm csm.wires.machine (key id) e.1 f s
                      (subst (λ i. Reads csm csm.wires.machine (key i) e.1 s) same read) stored,
                )),
        )
