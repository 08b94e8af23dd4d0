-- ===== src/Cli/Client/Ends.antt =====
-- fsm-cli/client/client.go: how Send of an event ends.
use go_statemachine.Prelude.{
  ℕ, Text, ◌≡◌, ◌⊎◌, inl, inr, refl, ◌∙◌, ap, sym, subst, Option, none, some, List, Option-cases,
  ◌==◌,
}
use go_statemachine.Protos.{Event, EventOutcome, EventRequest, EventResponse}
use go_statemachine.Go.Result.{Error, Result, ok, err, panic}
use go_statemachine.Grpc.Status.{Rpc, reply, status, raw, crash}
use go_statemachine.Cli.Types.{
  version, kind_event, Entity, CliClient, Response, event_response, Platform, Terminal,
}
use go_statemachine.Cli.Client.{
  max_retries, waited, outcome_request, send_event, as_response, handled, file_at, send_handlers,
  send,
}
use go_statemachine.Cli.Client.Wait.{updated, settled, Waited, gave_up, stopped, send_event-Waited}

module _ {File Bytes : Type 0} (os : Platform File Bytes) where
  -- At the path is a file of the client's version that holds the request.
  pub record EventFile (path : Text) (request : EventRequest) : Type 0 where
    pub file : File
    pub content : Bytes
    pub id : Text
    pub entity : Entity EventRequest
    pub opens : file_at os path ≡ ok file
    pub reads : os.read_all file ≡ ok content
    pub head :
        os.unmarshal_generic content ≡ ok (record { version = version; kind = kind_event; id = id })
    pub decodes : os.unmarshal_event content ≡ ok entity
    pub holds : entity.spec ≡ some request

-- The wait ended with a response that has an outcome.
abbrev pub HasOutcome : Result (Option EventResponse) → Type 0
HasOutcome r =
    (response : EventResponse) × (o : EventOutcome) × (r ≡ ok (some response))
    × (response.outcome ≡ some o)

module _ {S File Bytes : Type 0} (c : CliClient S) (os : Platform File Bytes) where
  settled_ne_err : (r : Rpc EventResponse) (e : Error) → settled r ≡ err e → ⊥
  settled_ne_err (reply a) e h = cc
  settled_ne_err (status k d) e h = cc
  settled_ne_err (raw d) e h = cc
  settled_ne_err crash e h = cc

  wait_ne_err :
      (question : EventRequest) (s : S) (r : Result (Option EventResponse) × S) (e : Error)
      → Waited c question max_retries s r
      → r.0 ≡ err e
      → ⊥
  wait_ne_err question s r e (gave_up u before ends) h = cc
  wait_ne_err question s r e (stopped k u few before last ends) h =
      settled_ne_err (c.get_event_outcome question u).0 e (ap (λ r. r.0) (sym ends) ∙ h)

  send_of_file :
      (fresh : Text) (now : ℕ) (path : Text) (request : EventRequest) (t : Terminal S)
      → EventFile os path request
      → send c os fresh now path t
        ≡ handled os kind_event
            (as_response event_response (send_event c fresh now (some request) t))
  unfolding send send_handlers ◌==◌
  send_of_file fresh now path request t f =
      rw f.opens (rw f.reads (rw f.head (rw f.decodes (rw f.holds refl))))

  -- What Send makes of the wait's result.
  abbrev told : List Text → Result (Option EventResponse) × S → Rpc (Unit {0}) × Terminal S
  told printed r = handled os kind_event (as_response event_response (waited c printed r))

  told_cases :
      ((resp : Response) → (out : Text) × (os.marshal_response resp ≡ ok out))
      → (printed : List Text) (r : Result (Option EventResponse) × S)
      → ((e : Error) → r.0 ≡ err e → ⊥)
      → (HasOutcome r.0 × ((told printed r).0 ≡ reply tt))
        ⊎ ((¬ HasOutcome r.0) × ((told printed r).0 ≡ crash))
  told_cases marshals printed (ok none, w) n =
      let (out, h) = marshals (event_response none) in inr (λ (a, o, e, i). cc, rw h refl)
  told_cases marshals printed (ok (some response), w) n =
      let (out, h) = marshals (event_response (some response)) in
      elim (Option-cases response.outcome) [
        | inl e ↦ inr (λ (a, o, d, i). cc, rw h (rw e refl))
        | inr (o, e) ↦ inl ((response, o, refl, e), rw h (rw e refl))
      ]
  told_cases marshals printed (err e, w) n = absurd (n e refl)
  told_cases marshals printed (panic, w) n = inr (λ (a, o, e, i). cc, refl)

  -- For a file with an event that the server accepts, if every response can be written as YAML: Send
  -- returns nil if one of the first MaxRetries calls of GetEventOutcome, all before it having said
  -- NotFound, responds with an outcome; if not, it panics, and returns no error.
  pub send_ends :
      (fresh : Text) (now : ℕ) (path : Text) (request : EventRequest) (evt : Event)
      (response : EventResponse) (t : Terminal S)
      → EventFile os path request
      → request.event ≡ some evt
      → (c.send_event (updated fresh now request evt) t.world).0 ≡ reply response
      → ((resp : Response) → (out : Text) × (os.marshal_response resp ≡ ok out))
      → (r : Result (Option EventResponse) × S) × Waited c
          (outcome_request c request response.event_id)
          max_retries
          (c.send_event (updated fresh now request evt) t.world).1
          r
        × ((HasOutcome r.0 × ((send c os fresh now path t).0 ≡ reply tt))
            ⊎ ((¬ HasOutcome r.0) × ((send c os fresh now path t).0 ≡ crash)))
  send_ends fresh now path request evt response t f g h marshals =
      let (r, waits, ends) = send_event-Waited c fresh now request evt response t g h in
      let same : send c os fresh now path t ≡ told _ r =
        send_of_file fresh now path request t f
        ∙ ap (λ x. handled os kind_event (as_response event_response x)) ends in
      (
        r,
        waits,
        subst (λ x. (HasOutcome r.0 × (x.0 ≡ reply tt)) ⊎ ((¬ HasOutcome r.0) × (x.0 ≡ crash)))
            (sym same) (told_cases marshals _ r (λ e. wait_ne_err _ _ r e waits)),
      )
