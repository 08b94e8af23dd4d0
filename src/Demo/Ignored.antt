-- ===== src/Demo/Ignored.antt =====
-- docs/examples/sqs_client.go against pkg/pubsub/sqs_sub.go, ProcessMessage: what becomes of the
-- example's message.
use go_statemachine.Prelude.{
  ℕ, Text, text, ◌≡◌, ◌≢◌, ◌∙◌, ap, sym, true, Option, some, [], arith, eq_iff,
}
use go_statemachine.Protos.{EventRequest}
use go_statemachine.Go.Result.{Error, Result, ok, err, panic}
use go_statemachine.Go.Action.{Action, lift, continue-eq-ok, ◌>>=◌, ◌>>◌}
use go_statemachine.Go.Strings.{contains}
use go_statemachine.Pubsub.Sqs.{SqsSubscriber, Box, process_message}
use go_statemachine.Demo.{
  DemoFlags, Chance, Desk, Tools, or_panic, on_queues, say, string, new_sqs, order_of, message_of,
  must_name, publishing, sent_event, send_to, main,
}

or_panic_ok : {A : Type 0} (r : Result A) (a : A) → or_panic r ≡ ok a → r ≡ ok a
or_panic_ok (ok b) a h = h
or_panic_ok (err e) a h = cc
or_panic_ok panic a h = cc

module _ {Conn File S : Type 0} (tools : Tools Conn File S) (flags : DemoFlags)
    (chance : Chance) where
  abbrev pub conn : Conn
  conn = new_sqs tools flags.endpoint

  abbrev pub body : Text → Text
  body details = tools.marshal_text_string (message_of tools flags chance details)

  -- The one message that was sent.
  pub record Sent (s s' : S) : Type 0 where
    pub url : Option Text
    pub details : Text
    pub has_id : flags.fsm_id ≢ []
    pub has_event : flags.event ≢ []
    pub found : (tools.get_queue_url conn flags.q s).0 ≡ ok url
    pub described : tools.marshal_order (order_of tools chance) ≡ ok details
    pub accepted :
        (tools.send_message conn url (body details) (tools.get_queue_url conn flags.q s).1).0
        ≡ ok tt
    pub left :
        s' ≡ (tools.send_message conn url (body details) (tools.get_queue_url conn flags.q s).1).1

  named : must_name tools flags ≡ ok tt → (flags.fsm_id ≢ []) × (flags.event ≢ [])
  named h =
      (λ e. ground (arith, eq_iff flags.fsm_id []), λ e. ground (arith, eq_iff flags.event []))

  -- The rest of main behind String, and behind GetQueueUrl.
  abbrev with_details : Option Text → Text → Action (Desk S) (Unit {0})
  with_details url details =
      send_to tools flags chance url details >> say (sent_event tools flags chance)

  abbrev described_next : Option Text → Action (Desk S) (Unit {0})
  described_next url = lift (string tools (order_of tools chance)) >>= with_details url

  abbrev with_url : Option Text → Action (Desk S) (Unit {0})
  with_url url =
      lift (must_name tools flags) >> (say (publishing tools flags) >> described_next url)

  -- If the example does not panic, its flags name a machine and an event, and it has sent one message.
  main-Sent :
      (d : Desk S)
      → (main tools flags chance d).0 ≡ ok tt
      → Sent d.queues (main tools flags chance d).1.queues
  unfolding main
  main-Sent d h =
      let asked = on_queues (tools.get_queue_url conn flags.q) d in
      let (url, found, by_url) = continue-eq-ok with_url asked h in
      let (u, is_named, by_name) =
        continue-eq-ok (λ _. say (publishing tools flags) >> described_next url)
          (must_name tools flags, asked.1) (ap (λ r. r.0) (sym by_url) ∙ h) in
      let ready = (say (publishing tools flags) asked.1).1 in
      let (details, described, by_details) =
        continue-eq-ok (with_details url) (string tools (order_of tools chance), ready)
          (ap (λ r. r.0) (sym (by_url ∙ by_name)) ∙ h) in
      let delivered = send_to tools flags chance url details ready in
      let (v, accepted, by_sent) =
        continue-eq-ok (λ _. say (sent_event tools flags chance)) delivered
          (ap (λ r. r.0) (sym (by_url ∙ by_name ∙ by_details)) ∙ h) in
      record {
        url = url;
        details = details;
        has_id = (named is_named).0;
        has_event = (named is_named).1;
        found = or_panic_ok _ url found;
        described = or_panic_ok _ details described;
        accepted = or_panic_ok _ v accepted;
        left =
            ap (λ (r : Result (Unit {0}) × Desk S). r.1.queues)
              (by_url ∙ by_name ∙ by_details ∙ by_sent);
      }

  undecoded :
      {T Bytes : Type 0} (sub : SqsSubscriber T Bytes) (fresh : Text) (now : ℕ)
      (receipt text_of : Text) (box : Box T) (e : Error)
      → sub.requests.decode_string text_of ≡ err e
      → process_message sub fresh now (record { body = some text_of; receipt_handle = receipt }) box
        ≡ (ok tt, box)
  unfolding process_message
  undecoded sub fresh now receipt text_of box e h = ground (arith, h)

  -- If the example does not panic, ProcessMessage of the subscriber, asked for a message with the body
  -- that the example has sent, posts nothing on the events channel and does not remove the message,
  -- where Base64 decoding refuses a text with a colon, and the text form of a request with an id has
  -- one.
  pub main-Ignored :
      {T Bytes : Type 0} (sub : SqsSubscriber T Bytes) (d : Desk S) (fresh : Text) (now : ℕ)
      (receipt : Text) (box : Box T)
      → ((t : Text)
          → contains t (text ":") ≡ true
          → (e : Error) × (sub.requests.decode_string t ≡ err e))
      → ((r : EventRequest) → r.id ≢ [] → contains (tools.marshal_text_string r) (text ":") ≡ true)
      → (main tools flags chance d).0 ≡ ok tt
      → (sent : Sent d.queues (main tools flags chance d).1.queues) × (process_message sub fresh now
            (record { body = some (body sent.details); receipt_handle = receipt })
            box
          ≡ (ok tt, box))
  main-Ignored sub d fresh now receipt box refuses has_colon h =
      let sent = main-Sent d h in
      let (e, refused) =
        refuses (body sent.details)
          (has_colon (message_of tools flags chance sent.details) sent.has_id) in
      (sent, undecoded sub fresh now receipt (body sent.details) box e refused)
