-- ===== src/Pubsub/Listener/Verdicts.antt =====
-- pkg/pubsub/listener.go: the verdict of the listener on a request, and the calls that end its round.
use go_statemachine.Prelude.{
  Text, text, ◌≡◌, ◌≢◌, inl, inr, refl, ◌∙◌, some, [], ◌++◌, arith, ◌==◌, eq_iff, Bool-cases,
  Option-cases, true, false, sym, subst, if◌then◌else◌,
}
use go_statemachine.Protos.{
  Event, EventRequest, StatusCode, success, missing_destination, fsm_not_found, internal_error,
}
use go_statemachine.Go.Result.{Error, Result, ok, err, panic}
use go_statemachine.Storage.Errors.{is_not_found_err}
use go_statemachine.Storage.RedisStore.{never_expire}
use go_statemachine.Pubsub.Listener.{
  EventsListener, Scene, make_response, report_outcome, post, post_notification_and_report_outcome,
  update_error, error_code, process, handle,
}

-- The code for an error of TxProcessEvent: whether it is a NotFoundError.
pub data FailureCode (e : Error) : StatusCode → Type 0 where
  not_found : is_not_found_err e ≡ true → FailureCode e fsm_not_found
  other : is_not_found_err e ≡ false → FailureCode e internal_error

error_code-FailureCode : (e : Error) → FailureCode e (error_code e)
error_code-FailureCode e = elim (Bool-cases (is_not_found_err e)) [
  | inl h ↦
      subst (λ b. FailureCode e (if b then fsm_not_found else internal_error)) (sym h) (not_found h)
  | inr h ↦
      subst (λ b. FailureCode e (if b then fsm_not_found else internal_error)) (sym h) (other h)
]

pub FailureCode-ne : {e : Error} {code : StatusCode} → FailureCode e code → code ≢ success
FailureCode-ne (not_found h) same = cc
FailureCode-ne (other h) same = cc

pub error_code_ne : (e : Error) → error_code e ≢ success
error_code_ne e h = ground arith

module _ {S : Type 0} where
  -- A call of the store, by its result.
  pub data Ended (r : Result (Unit {0}) × S) : Type 0 where
    well : (w : S) → r ≡ (ok tt, w) → Ended r
    badly : (e : Error) (w : S) → r ≡ (err e, w) → Ended r
    panics : (w : S) → r ≡ (panic, w) → Ended r

  pub Ended-cases : (r : Result (Unit {0}) × S) → Ended r
  Ended-cases (ok u, w) = well w refl
  Ended-cases (err e, w) = badly e w refl
  Ended-cases (panic, w) = panics w refl

module _ {S : Type 0} (listener : EventsListener S) where
  -- What becomes of a request in the store's state `w`: the outcome's code and details, and the
  -- state in which the outcome is reported.
  pub data Verdict (request : EventRequest) (w : S) : StatusCode → Text → S → Type 0 where
    no_id :
        request.id ≡ []
        → Verdict request w missing_destination (text "no statemachine ID specified") w
    no_config :
        request.id ≢ []
        → request.config ≡ []
        → Verdict request w missing_destination (text "no Configuration name specified") w
    not_stored :
        {e : Error} {w' : S}
        → request.id ≢ []
        → request.config ≢ []
        → listener.store.put_event request.event request.config never_expire w ≡ (err e, w')
        → Verdict request w internal_error (text "could not store event: " ++ e) w'
    failed :
        (evt : Event) {e : Error} {code : StatusCode} {w' w'' : S}
        → request.id ≢ []
        → request.config ≢ []
        → request.event ≡ some evt
        → listener.store.put_event request.event request.config never_expire w ≡ (ok tt, w')
        → listener.store.tx_process_event request.id request.config evt w' ≡ (err e, w'')
        → FailureCode e code
        → Verdict request w code
            (text "could not update statemachine ["
              ++ request.config
              ++ text "#"
              ++ request.id
              ++ text "] in store: "
              ++ e)
            w''
    processed :
        (evt : Event) {w' w'' : S}
        → request.id ≢ []
        → request.config ≢ []
        → request.event ≡ some evt
        → listener.store.put_event request.event request.config never_expire w ≡ (ok tt, w')
        → listener.store.tx_process_event request.id request.config evt w' ≡ (ok tt, w'')
        → Verdict request w success [] w''

  -- The listener posts every outcome but a success, and reports them all.
  abbrev pub noted : EventRequest → StatusCode → Text → Scene S → Scene S
  noted request success details s = s
  noted request missing_destination details s =
      post listener (make_response request missing_destination details) s
  noted request fsm_not_found details s =
      post listener (make_response request fsm_not_found details) s
  noted request internal_error details s =
      post listener (make_response request internal_error details) s

  abbrev pub concluded : EventRequest → StatusCode → Text → Scene S → Result (Unit {0}) × Scene S
  concluded request code details s =
      report_outcome listener (make_response request code details) (noted request code details s)

  pub record Concluded (request : EventRequest) (s : Scene S) : Type 0 where
    pub code : StatusCode
    pub details : Text
    pub world : S
    pub verdict : Verdict request s.world code details world
    pub ends :
        handle listener request s ≡ concluded request code details (record s { world = world })

  post-noted :
      (request : EventRequest) (code : StatusCode) (details : Text) (s : Scene S)
      → code ≢ success
      → post_notification_and_report_outcome listener (make_response request code details) s
        ≡ concluded request code details s
  unfolding post_notification_and_report_outcome make_response
  post-noted request success details s n = absurd (n refl)
  post-noted request missing_destination details s n = refl
  post-noted request fsm_not_found details s n = refl
  post-noted request internal_error details s n = refl

  process-Concluded :
      (request : EventRequest) (evt : Event) (s : Scene S) (w : S)
      → request.id ≢ []
      → request.config ≢ []
      → request.event ≡ some evt
      → listener.store.put_event request.event request.config never_expire s.world ≡ (ok tt, w)
      → handle listener request s ≡ process listener request (some evt) (record s { world = w })
      → (process listener request (some evt) (record s { world = w })).0 ≢ panic
      → Concluded request s
  unfolding process
  process-Concluded request evt s w i c v p h n =
      elim (Ended-cases (listener.store.tx_process_event request.id request.config evt w)) [
        | well u e ↦ record {
          code = success;
          details = [];
          world = u;
          verdict = processed evt i c v p e;
          ends = h ∙ ground arith;
        }
        | badly x u e ↦ record {
          code = error_code x;
          details = update_error request x;
          world = u;
          verdict = failed evt i c v p e (error_code-FailureCode x);
          ends =
              h
              ∙ ground (
                arith,
                post-noted request (error_code x) (update_error request x) (record s { world = u })
                    (error_code_ne x),
              );
        }
        | panics u e ↦ absurd (n (ground arith))
      ]

  -- A round that does not panic reports one outcome, the one that the verdict on the request says.
  pub handle-Concluded :
      (request : EventRequest) (s : Scene S)
      → (handle listener request s).0 ≢ panic
      → Concluded request s
  unfolding handle process
  handle-Concluded request s n = elim (Bool-cases (request.id == [])) [
    | inl p ↦ record {
      code = missing_destination;
      details = text "no statemachine ID specified";
      world = s.world;
      verdict = no_id ((eq_iff _ _).0 p);
      ends = ground (
        arith,
        post-noted request missing_destination (text "no statemachine ID specified") s (λ e. cc),
      );
    }
    | inr p ↦ elim (Bool-cases (request.config == [])) [
      | inl q ↦ record {
        code = missing_destination;
        details = text "no Configuration name specified";
        world = s.world;
        verdict = no_config (λ e. ground (arith, eq_iff request.id [])) ((eq_iff _ _).0 q);
        ends = ground (
          arith,
          post-noted request missing_destination (text "no Configuration name specified") s
              (λ e. cc),
        );
      }
      | inr q ↦
          elim (Ended-cases
            (listener.store.put_event request.event request.config never_expire s.world)) [
              | well w e ↦ elim (Option-cases request.event) [
                | inl g ↦ absurd (n (ground arith))
                | inr (evt, g) ↦
                    process-Concluded request evt s w (λ e. ground (arith, eq_iff request.id []))
                      (λ e. ground (arith, eq_iff request.config [])) g e (ground arith)
                      (λ z. n (ground arith))
              ]
              | badly x w e ↦ record {
                code = internal_error;
                details = text "could not store event: " ++ x;
                world = w;
                verdict =
                    not_stored (λ e. ground (arith, eq_iff request.id []))
                      (λ e. ground (arith, eq_iff request.config [])) e;
                ends = ground (
                  arith,
                  post-noted request internal_error (text "could not store event: " ++ x)
                      (record s { world = w }) (λ e. cc),
                );
              }
              | panics w e ↦ absurd (n (ground arith))
            ]
    ]
  ]
