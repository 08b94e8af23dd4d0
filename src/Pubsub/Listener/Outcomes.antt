-- ===== src/Pubsub/Listener/Outcomes.antt =====
-- pkg/pubsub/listener.go: which outcome the listener reports for a request.
use go_statemachine.Prelude.{
  Text, ◌≡◌, ◌≢◌, inl, inr, refl, ◌∙◌, some, [], ◌∷◌, ◌++◌, arith, Bool-cases, Bool, true, false,
  List, sym, ap, subst, if◌then◌else◌,
}
use go_statemachine.Protos.{
  EventOutcome, EventRequest, EventResponse, StatusCode, success, missing_destination,
  fsm_not_found, internal_error,
}
use go_statemachine.Go.Result.{Result, ok, err, panic}
use go_statemachine.Storage.RedisStore.{never_expire}
use go_statemachine.Pubsub.Listener.{
  EventsListener, Scene, get_event_id, logged, make_response, report_outcome, post, handle,
}
use go_statemachine.Pubsub.Listener.Verdicts.{Verdict, noted, concluded, handle-Concluded}

-- The answer to a request, with the outcome in it.
abbrev pub outcome_of : EventRequest → StatusCode → Text → EventOutcome
outcome_of request code details = record {
  code = code;
  details = details;
  config = request.config;
  id = request.id;
}

abbrev pub response_of : EventRequest → StatusCode → Text → EventResponse
response_of request code details = record {
  event_id = get_event_id request.event;
  outcome = some (outcome_of request code details);
}

-- What has been posted after a round that ends with an outcome.
pub data Posted (notifies : Bool) (code : StatusCode) (response : EventResponse)
    (before : List EventResponse) : List EventResponse → Type 0 where
  no_notice : code ≡ success → Posted notifies code response before before
  no_channel : notifies ≡ false → Posted notifies code response before before
  notice :
      notifies ≡ true
      → code ≢ success
      → Posted notifies code response before (before ++ response ∷ [])

module _ {S : Type 0} (listener : EventsListener S) where
  -- A round that returns: the verdict on the request, the outcome that AddEventOutcome is asked to
  -- store, and the notification.
  pub record Handled (request : EventRequest) (s : Scene S) : Type 0 where
    pub code : StatusCode
    pub details : Text
    pub world : S
    pub verdict : Verdict listener request s.world code details world
    pub returns : (handle listener request s).0 ≡ ok tt
    pub reports :
        (handle listener request s).1.world
        ≡ (listener.store.add_event_outcome
            (get_event_id request.event)
            request.config
            (some (outcome_of request code details))
            never_expire
            world).1
    pub posts :
        Posted listener.notifies code
          (response_of request code details)
          s.posted
          (handle listener request s).1.posted

  noted-world :
      (request : EventRequest) (code : StatusCode) (details : Text) (s : Scene S)
      → (noted listener request code details s).world ≡ s.world
  noted-world request success details s = refl
  noted-world request missing_destination details s = ground arith
  noted-world request fsm_not_found details s = ground arith
  noted-world request internal_error details s = ground arith

  logged-world : (r : Result (Unit {0}) × S) (s : Scene S) → (logged listener r s).1.world ≡ r.1
  logged-world (ok u, w) s = refl
  logged-world (err e, w) s = refl
  logged-world (panic, w) s = refl

  logged-posted :
      (r : Result (Unit {0}) × S) (s : Scene S) → (logged listener r s).1.posted ≡ s.posted
  logged-posted (ok u, w) s = refl
  logged-posted (err e, w) s = refl
  logged-posted (panic, w) s = refl

  logged-returns :
      (r : Result (Unit {0}) × S) (s : Scene S)
      → (logged listener r s).0 ≢ panic
      → (logged listener r s).0 ≡ ok tt
  logged-returns (ok u, w) s n = refl
  logged-returns (err e, w) s n = refl
  logged-returns (panic, w) s n = absurd (n refl)

  concluded-world :
      (request : EventRequest) (code : StatusCode) (details : Text) (s : Scene S)
      → (concluded listener request code details s).1.world
        ≡ (listener.store.add_event_outcome
            (get_event_id request.event)
            request.config
            (some (outcome_of request code details))
            never_expire
            s.world).1
  unfolding report_outcome make_response
  concluded-world request code details s =
      logged-world _ _
      ∙ ap
          (λ w.
            (listener.store.add_event_outcome (get_event_id request.event) request.config
              (some (outcome_of request code details)) never_expire w).1)
          (noted-world request code details s)

  concluded-returns :
      (request : EventRequest) (code : StatusCode) (details : Text) (s : Scene S)
      → (concluded listener request code details s).0 ≢ panic
      → (concluded listener request code details s).0 ≡ ok tt
  unfolding report_outcome
  concluded-returns request code details s n = logged-returns _ _ n

  post-Posted :
      (request : EventRequest) (code : StatusCode) (details : Text) (s : Scene S)
      → code ≢ success
      → Posted listener.notifies code
          (response_of request code details)
          s.posted
          (post listener (make_response request code details) s).posted
  unfolding make_response
  post-Posted request code details s n =
      let response = response_of request code details in
      let by = λ (b : Bool).
        Posted listener.notifies code response s.posted
          (if b then record s { posted = s.posted ++ response ∷ [] } else s).posted in
      elim (Bool-cases listener.notifies) [
        | inl h ↦ subst by (sym h) (notice h n)
        | inr h ↦ subst by (sym h) (no_channel h)
      ]

  noted-Posted :
      (request : EventRequest) (code : StatusCode) (details : Text) (s : Scene S)
      → Posted listener.notifies code
          (response_of request code details)
          s.posted
          (noted listener request code details s).posted
  noted-Posted request success details s = no_notice refl
  noted-Posted request missing_destination details s = post-Posted request _ details s (λ h. cc)
  noted-Posted request fsm_not_found details s = post-Posted request _ details s (λ h. cc)
  noted-Posted request internal_error details s = post-Posted request _ details s (λ h. cc)

  concluded-Posted :
      (request : EventRequest) (code : StatusCode) (details : Text) (s : Scene S)
      → Posted listener.notifies code
          (response_of request code details)
          s.posted
          (concluded listener request code details s).1.posted
  unfolding report_outcome
  concluded-Posted request code details s =
      subst (Posted listener.notifies code (response_of request code details) s.posted)
        (sym (logged-posted _ _)) (noted-Posted request code details s)

  -- Every round of ListenForMessages that does not panic ends with the outcome that the verdict on the
  -- request says: MissingDestination for a missing id or configuration name, InternalError if PutEvent
  -- fails, FsmNotFound or InternalError if TxProcessEvent fails, by whether its error is a
  -- NotFoundError, and Ok if both succeed. The store is then as AddEventOutcome of this outcome, with
  -- the request's id and configuration name, leaves it, and the outcome is posted if it is not Ok and
  -- there is a notifications channel.
  pub handle-Handled :
      (request : EventRequest) (s : Scene S)
      → (handle listener request s).0 ≢ panic
      → Handled request s
  handle-Handled request s n =
      let c = handle-Concluded listener request s n in
      let behind = record s { world = c.world } in
      record {
        code = c.code;
        details = c.details;
        world = c.world;
        verdict = c.verdict;
        returns =
            ap (λ r. r.0) c.ends
            ∙ concluded-returns request c.code c.details behind (λ h. n (ap (λ r. r.0) c.ends ∙ h));
        reports = ap (λ r. r.1.world) c.ends ∙ concluded-world request c.code c.details behind;
        posts =
            subst
              (λ r.
                Posted listener.notifies c.code (response_of request c.code c.details) s.posted
                  r.1.posted)
              (sym c.ends) (concluded-Posted request c.code c.details behind);
      }
