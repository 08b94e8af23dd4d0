-- ===== src/Grpc/Server/Configs.antt =====
-- pkg/grpc/grpc_server.go, PutConfiguration over the Redis store.
use go_statemachine.Prelude.{
  Text, text, ◌≡◌, inl, inr, refl, ◌∙◌, sym, ap, subst, true, false, none, some, [], ◌∷◌, ◌++◌,
  arith, if◌then◌else◌, Option-cases,
}
use go_statemachine.Protos.{Configuration, config, PutResponse}
use go_statemachine.Go.Result.{Error}
use go_statemachine.Go.Fmt.{errorf}
use go_statemachine.Go.Strings.{contains}
use go_statemachine.Api.Configuration.{check_valid, get_version_id}
use go_statemachine.Storage.Keys.{new_key_for_config}
use go_statemachine.Storage.Errors.{already_exists_error}
use go_statemachine.Storage.Redis.{is_absent, Laws}
use go_statemachine.Storage.RedisStore.{RedisStore, put_config}
use go_statemachine.Storage.RedisStore.Configs.{
  IsAnswered, HasConfig, put_config-exists, put_config-HasConfig,
}
use go_statemachine.Storage.Manager.{redis_manager}
use go_statemachine.Grpc.Status.{
  Rpc, reply, status, raw, after_reply, after_err, already_exists, internal,
}
use go_statemachine.Grpc.Server.{
  GrpcSubscriber, Deadline, pending, passed, in_time, config_put, validated, with_store,
  invalid_configuration, put_configuration,
}

contains-append : (s sub t : Text) → contains sub t ≡ true → contains (s ++ sub) t ≡ true
unfolding contains
contains-append [] sub t h = h
contains-append (c ∷ s) sub t h = ground (arith, contains-append s sub t)

contains_already_exists :
    (key : Text) → contains (already_exists_error key) (text "already exists") ≡ true
unfolding contains
contains_already_exists key =
    contains-append key (text " already exists") (text "already exists") refl

module _ {S Bytes : Type 0} (csm : RedisStore S Bytes) (laws : Laws csm.client)
    (server : GrpcSubscriber S) where
  abbrev timely : Deadline → Deadline → Configuration → S → Rpc PutResponse × S
  timely before afterwards c =
      in_time before (λ w. config_put afterwards c (put_config csm (some c) w))

  answer_of : Configuration → PutResponse
  answer_of c = record { id = get_version_id c; entity_response = config c }

  timely_reply :
      (before afterwards : Deadline) (c : Configuration) (w : S) (response : PutResponse)
      → (timely before afterwards c w).0 ≡ reply response
      → (response ≡ answer_of c) × HasConfig csm c (timely before afterwards c w).1
  unfolding answer_of
  timely_reply (passed e) afterwards c w response h = cc
  timely_reply pending (passed e) c w response h =
      let (u, done, rest) =
        after_reply _ _ (put_config csm (some c) w) response (λ e s z. ground arith) h in
      absurd (late (ap (λ r. r.0) (sym rest) ∙ h))
    where
      late : ◌≡◌ {A = Rpc PutResponse} (raw e) (reply response) → ⊥
      late h = cc
  timely_reply pending pending c w response h =
      let (u, done, rest) =
        after_reply _ _ (put_config csm (some c) w) response (λ e s z. ground arith) h in
      (
        same (sym h ∙ ap (λ r. r.0) rest),
        subst (λ r. HasConfig csm c r.1) (sym rest) ((put_config-HasConfig csm laws c w done).0),
      )
    where
      same :
          ◌≡◌ {A = Rpc PutResponse} (reply response) (reply (answer_of c)) → response ≡ answer_of c
      same h = cc

  reached :
      (before afterwards : Deadline) (c : Configuration) (w : S)
      → server.store ≡ some (redis_manager csm)
      → check_valid c ≡ none
      → put_configuration server before afterwards c w ≡ timely before afterwards c w
  unfolding put_configuration
  reached before afterwards c w m valid =
      ap
        (λ o.
          validated
            (in_time before
              (with_store server (λ m w. config_put afterwards c (m.put_config (some c) w))))
            o w)
        valid
      ∙ stored before
    where
      stored :
          (before : Deadline)
          → in_time before
              (with_store server (λ m w. config_put afterwards c (m.put_config (some c) w)))
              w
            ≡ timely before afterwards c w
      stored pending = rw m
      stored (passed e) = refl

  -- If PutConfiguration replies, the configuration is valid and stored under its identifier, and
  -- the reply has both.
  pub put_configuration-reply :
      (before afterwards : Deadline) (c : Configuration) (w : S) (response : PutResponse)
      → server.store ≡ some (redis_manager csm)
      → (put_configuration server before afterwards c w).0 ≡ reply response
      → (check_valid c ≡ none)
        × (response ≡ record { id = get_version_id c; entity_response = config c })
        × HasConfig csm c (put_configuration server before afterwards c w).1
  unfolding put_configuration answer_of
  put_configuration-reply before afterwards c w response m h = elim (Option-cases (check_valid c)) [
    | inr (e, invalid) ↦ absurd (
        refused e (
          sym (
            ap
              (λ o.
                (validated
                  (in_time before
                    (with_store server (λ m w. config_put afterwards c (m.put_config (some c) w))))
                  o w).0)
              invalid)
          ∙ h))
    | inl valid ↦
        let ends : put_configuration server before afterwards c w ≡ timely before afterwards c w =
          reached before afterwards c w m valid in
        let (told, held) =
          timely_reply before afterwards c w response (ap (λ r. r.0) (sym ends) ∙ h) in
        (valid, told, subst (λ r. HasConfig csm c r.1) (sym ends) held)
  ]
    where
      refused :
          (e : Error) → ◌≡◌ {A = Rpc PutResponse} (invalid_configuration e) (reply response) → ⊥
      refused e h = cc

  -- If the identifier of a valid configuration has something stored and EXISTS is answered, then
  -- before the deadline PutConfiguration returns AlreadyExists and changes nothing.
  pub put_configuration-exists :
      (afterwards : Deadline) (c : Configuration) (w : S)
      → server.store ≡ some (redis_manager csm)
      → check_valid c ≡ none
      → IsAnswered (csm.client.exists (new_key_for_config (get_version_id c)) w).0
      → is_absent (csm.client.look w (new_key_for_config (get_version_id c))) ≡ false
      → ((put_configuration server pending afterwards c w).0
          ≡ status already_exists (
              errorf
                (text "cannot store configuration: %v")
                (already_exists_error (new_key_for_config (get_version_id c)))))
        × ((j : Text)
            → csm.client.look (put_configuration server pending afterwards c w).1 j
              ≡ csm.client.look w j)
  unfolding put_configuration
  put_configuration-exists afterwards c w m valid a held =
      let (refused, kept) = put_config-exists csm laws c w a held in
      let ends : put_configuration server pending afterwards c w
          ≡ config_put afterwards c (put_config csm (some c) w) =
        reached pending afterwards c w m valid in
      let answered =
        ends ∙ after_err _ _ (put_config csm (some c) w) (already_exists_error key) refused in
      (
        ap (λ r. r.0) answered
            ∙ ap
                (λ b.
                  if b
                  then status already_exists
                      (errorf (text "cannot store configuration: %v") (already_exists_error key))
                  else status internal (already_exists_error key))
                (contains_already_exists key),
        λ j. ap (λ r. csm.client.look r.1 j) answered ∙ kept j,
      )
    where
      key : Text
      key = new_key_for_config (get_version_id c)
