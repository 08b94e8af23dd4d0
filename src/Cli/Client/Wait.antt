-- ===== src/Cli/Client/Wait.antt =====
-- fsm-cli/client/client.go: the wait of sendEvent for the outcome of its event.
use go_statemachine.Prelude.{
  ℕ, zero, suc, Text, text, ◌≡◌, ◌≢◌, ◌⊎◌, inl, inr, refl, ◌∙◌, ap, Option, none, some, [], ◌∷◌,
  ◌++◌, ◌<◌, arith,
}
use go_statemachine.Protos.{Event, EventRequest, EventResponse}
use go_statemachine.Go.Result.{Error, Result, ok, panic}
use go_statemachine.Api.Event.{update_event}
use go_statemachine.Grpc.Status.{
  invalid_argument, deadline_exceeded, not_found, already_exists, failed_precondition,
  unimplemented, internal, other, Rpc, reply, status, raw, crash,
}
use go_statemachine.Cli.Types.{CliClient, Terminal, or_return}
use go_statemachine.Cli.Client.{
  max_retries, after_outcome, wait_outcome, waited, outcome_request, send_event,
}

-- The event of the request, completed.
abbrev pub updated : Text → ℕ → EventRequest → Event → EventRequest
updated fresh now request evt = record request { event = some (update_event fresh now evt) }

-- What the loop makes of the reply that ends it.
abbrev pub settled : Rpc EventResponse → Result (Option EventResponse)
settled (reply r) = ok (some r)
settled (status c e) = ok none
settled (raw e) = ok none
settled crash = panic

module _ {S : Type 0} (c : CliClient S) (question : EventRequest) where
  -- So many calls of GetEventOutcome in a row said NotFound.
  pub data NotFounds (s : S) : ℕ → S → Type 0 where
    no_call : NotFounds s 0 s
    one_more :
        {n : ℕ} {u : S} (e : Error)
        → NotFounds s n u
        → (c.get_event_outcome question u).0 ≡ status not_found e
        → NotFounds s (suc n) (c.get_event_outcome question u).1

  -- At most `n` calls were made: either all said NotFound, or the last one was the first that did
  -- not, and its reply is the result.
  pub data Waited (n : ℕ) (s : S) (r : Result (Option EventResponse) × S) : Type 0 where
    gave_up : (u : S) → NotFounds s n u → r ≡ (ok none, u) → Waited n s r
    stopped :
        (k : ℕ) (u : S)
        → k < n
        → NotFounds s k u
        → ((e : Error) → (c.get_event_outcome question u).0 ≢ status not_found e)
        → r ≡ (settled (c.get_event_outcome question u).0, (c.get_event_outcome question u).1)
        → Waited n s r

  earlier :
      (e : Error) {s u : S} {n : ℕ}
      → (c.get_event_outcome question s).0 ≡ status not_found e
      → NotFounds (c.get_event_outcome question s).1 n u
      → NotFounds s (suc n) u
  earlier e h no_call = one_more e no_call h
  earlier e h (one_more d before g) = one_more d (earlier e h before) g

  -- A round says NotFound and goes on, or ends the loop.
  one_round :
      (again : S → Result (Option EventResponse) × S) (r : Rpc EventResponse × S)
      → ((e : Error) × (r.0 ≡ status not_found e) × (after_outcome c again r ≡ again r.1))
        ⊎ (((e : Error) → r.0 ≢ status not_found e)
            × (after_outcome c again r ≡ (settled r.0, r.1)))
  one_round again (reply a, s) = inr (λ d h. cc, refl)
  one_round again (status invalid_argument e, s) = inr (λ d h. cc, refl)
  one_round again (status deadline_exceeded e, s) = inr (λ d h. cc, refl)
  one_round again (status already_exists e, s) = inr (λ d h. cc, refl)
  one_round again (status failed_precondition e, s) = inr (λ d h. cc, refl)
  one_round again (status unimplemented e, s) = inr (λ d h. cc, refl)
  one_round again (status internal e, s) = inr (λ d h. cc, refl)
  one_round again (status (other n) e, s) = inr (λ d h. cc, refl)
  one_round again (status not_found e, s) = inl (e, refl, refl)
  one_round again (raw e, s) = inr (λ d h. cc, refl)
  one_round again (crash, s) = inr (λ d h. cc, refl)

  pub wait_outcome-Waited : (n : ℕ) (s : S) → Waited n s (wait_outcome c question n s)
  unfolding wait_outcome
  wait_outcome-Waited zero s = gave_up s no_call refl
  wait_outcome-Waited (suc n) s =
      let asked = c.get_event_outcome question s in
      elim (one_round (wait_outcome c question n) asked) [
        | inr (last, ends) ↦ stopped 0 s (omega arith) no_call last ends
        | inl (e, h, on) ↦ elim (wait_outcome-Waited n asked.1) [
          | gave_up u before ends ↦ gave_up u (earlier e h before) (on ∙ ends)
          | stopped k u few before last ends ↦
              stopped (suc k) u (omega arith) (earlier e h before) last (on ∙ ends)
        ]
      ]

module _ {S : Type 0} (c : CliClient S) where
  sent_reply :
      {A B : Type 0} (next : A → Terminal S → Rpc B × Terminal S) (r : Rpc A × Terminal S) (a : A)
      → r.0 ≡ reply a
      → or_return next r ≡ next a r.1
  sent_reply next (reply b, t) a h = ap (λ (r : Rpc _). or_return next (r, t)) h
  sent_reply next (status k e, t) a h = cc
  sent_reply next (raw e, t) a h = cc
  sent_reply next (crash, t) a h = cc

  -- If SendEvent replies for a request with an event, sendEvent makes at most MaxRetries calls of
  -- GetEventOutcome: it makes another one only if all before said NotFound, and returns the response
  -- of the last one, or nil without an error if it returned an error or all of them said NotFound,
  -- or panics if it panicked.
  pub send_event-Waited :
      (fresh : Text) (now : ℕ) (request : EventRequest) (evt : Event) (response : EventResponse)
      (t : Terminal S)
      → request.event ≡ some evt
      → (c.send_event (updated fresh now request evt) t.world).0 ≡ reply response
      → (r : Result (Option EventResponse) × S) × Waited c
          (outcome_request c request response.event_id)
          max_retries
          (c.send_event (updated fresh now request evt) t.world).1
          r
        × (send_event c fresh now (some request) t
            ≡ waited c (t.printed ++ (text "Event ID: " ++ response.event_id ++ text "\n") ∷ []) r)
  unfolding send_event
  send_event-Waited fresh now request evt response t g h =
      let ask = outcome_request c request response.event_id in
      let w = (c.send_event (updated fresh now request evt) t.world).1 in
      (
        wait_outcome c ask max_retries w,
        wait_outcome-Waited c ask max_retries w,
        rw g (sent_reply _ _ response h),
      )
