-- ===== src/Pubsub/Sqs/Notifications.antt =====
-- pkg/pubsub/sqs_pub.go, Publish, of what the listener posts.
use go_statemachine.Prelude.{
  Text, ◌≡◌, ◌≢◌, refl, ◌∙◌, ap, sym, subst, Option, some, List, [], ◌∷◌, map, false, if◌then◌else◌,
}
use go_statemachine.Protos.{
  EventRequest, EventResponse, StatusCode, success, missing_destination, fsm_not_found,
  internal_error,
}
use go_statemachine.Go.Result.{Error, Result, ok, err, panic}
use go_statemachine.Pubsub.Listener.{EventsListener, make_response}
use go_statemachine.Pubsub.Listener.Notices.{Notices, stop, quiet, noticed}
use go_statemachine.Pubsub.Sqs.{
  Queue, TextWire, marshal_to_text, sent, marshalled, is_success, publish,
}
use go_statemachine.Pubsub.Sqs.Subscribe.{Stop, returned, panicked, url_of}
use go_statemachine.Pubsub.Sqs.Publisher.{SqsPublisher, Posting, publish_at, publish_to, ended}

ok_ne_panic : (u : Unit {0}) → ok u ≢ panic
ok_ne_panic u h = cc

err_ne_panic : (e : Error) → ◌≢◌ {A = Result (Unit {0})} (err e) panic
err_ne_panic e h = cc

module _ {S Bytes : Type 0} (client : Queue S) (w : TextWire Bytes EventResponse) where
  -- The sending of texts as the loop does it.
  abbrev send_all : List Text → S → Result (Unit {0}) × S
  send_all [] q = (ok tt, q)
  send_all (body ∷ bodies) q = sent client w (send_all bodies) (client.send_message body q)

  is_ok_ne : (code : StatusCode) → code ≢ success → is_success code ≡ false
  is_ok_ne success n = absurd (n refl)
  is_ok_ne missing_destination n = refl
  is_ok_ne fsm_not_found n = refl
  is_ok_ne internal_error n = refl

  sent_ext :
      (f g : S → Result (Unit {0}) × S)
      → ((q : S) → f q ≡ g q)
      → (r : Result (Unit {0}) × S) → sent client w f r ≡ sent client w g r
  sent_ext f g e (ok u, q) = e q
  sent_ext f g e (err x, q) = e q
  sent_ext f g e (panic, q) = refl

  -- If every response can be encoded, Publish sends all that the listener posts, in this order, up to
  -- a panic of the client.
  pub publish-Notices :
      {T : Type 0} (listener : EventsListener T) (encode : EventResponse → Text)
      (requests : List EventRequest) (new : List EventResponse) (q : S)
      → Notices listener requests new
      → ((response : EventResponse) → marshal_to_text w response ≡ ok (encode response))
      → publish client w new q ≡ send_all (map encode new) q
  unfolding publish make_response
  publish-Notices listener encode requests new q stop k = refl
  publish-Notices listener encode requests new q (quiet request n) k =
      publish-Notices listener encode _ new q n k
  publish-Notices listener encode requests new q
        (noticed request code details {requests = rs} {new = more} c n) k =
      let response = make_response request code details in
      ap
        (λ b.
          if b
          then publish client w more q
          else marshalled client w (publish client w more) (marshal_to_text w response) q)
        (is_ok_ne code c)
      ∙ ap (λ m. marshalled client w (publish client w more) m q) (k response)
      ∙ sent_ext _ _ (λ q. publish-Notices listener encode rs more q n k)
          (client.send_message (encode response) q)

module _ {S : Type 0} (client : Queue S) where
  -- How the sending of texts ends: each has been sent, in this order, whatever errors the client
  -- returned; or the client panicked, for the last one that was sent.
  pub data Sends : List Text → S → Stop → S → Type 0 where
    all_sent : (q : S) → Sends [] q returned q
    one_sent :
        (body : Text) {bodies : List Text} (q : S) {end : Stop} {q' : S}
        → (client.send_message body q).0 ≢ panic
        → Sends bodies (client.send_message body q).1 end q'
        → Sends (body ∷ bodies) q end q'
    crashes :
        (body : Text) (bodies : List Text) (q : S)
        → (client.send_message body q).0 ≡ panic
        → Sends (body ∷ bodies) q panicked (client.send_message body q).1

module _ {Conn S Bytes : Type 0} (posting : Posting Conn S Bytes) (s : SqsPublisher Conn) where
  send_all-Sends :
      (client : Queue S) (bodies : List Text) (q : S)
      → Sends client bodies q
          (ended posting s (send_all client posting.responses bodies q)).0
          (ended posting s (send_all client posting.responses bodies q)).1
  send_all-Sends client [] q = all_sent q
  send_all-Sends client (body ∷ bodies) q =
      one_step (client.send_message body q) refl (send_all-Sends client bodies)
    where
      one_step :
          (r : Result (Unit {0}) × S)
          → client.send_message body q ≡ r
          → ((t : S)
              → Sends client bodies t
                  (ended posting s (send_all client posting.responses bodies t)).0
                  (ended posting s (send_all client posting.responses bodies t)).1)
          → Sends client
              (body ∷ bodies)
              q
              (ended posting s
                (sent client posting.responses (send_all client posting.responses bodies) r)).0
              (ended posting s
                (sent client posting.responses (send_all client posting.responses bodies) r)).1
      one_step (ok u, t) e later =
          one_sent body q (λ h. ok_ne_panic u (sym (ap (λ r. r.0) e) ∙ h))
            (subst
              (λ v.
                Sends client bodies v
                  (ended posting s (send_all client posting.responses bodies t)).0
                  (ended posting s (send_all client posting.responses bodies t)).1)
              (sym (ap (λ r. r.1) e)) (later t))
      one_step (err x, t) e later =
          one_sent body q (λ h. err_ne_panic x (sym (ap (λ r. r.0) e) ∙ h))
            (subst
              (λ v.
                Sends client bodies v
                  (ended posting s (send_all client posting.responses bodies t)).0
                  (ended posting s (send_all client posting.responses bodies t)).1)
              (sym (ap (λ r. r.1) e)) (later t))
      one_step (panic, t) e later =
          subst (Sends client (body ∷ bodies) q panicked) (ap (λ r. r.1) e)
            (crashes body bodies q (ap (λ r. r.0) e))

  publish_to-sends_all :
      {T : Type 0} (listener : EventsListener T) (encode : EventResponse → Text)
      (requests : List EventRequest) (topic url : Text) (q : S)
      → Notices listener requests s.notifications
      → ((posting.poller_of s.client).get_queue_url topic q).0 ≡ ok (some url)
      → ((response : EventResponse)
          → marshal_to_text posting.responses response ≡ ok (encode response))
      → publish_to posting s topic q
        ≡ ended posting s (
            send_all
              (posting.queue_at s.client url)
              posting.responses
              (map encode s.notifications)
              ((posting.poller_of s.client).get_queue_url topic q).1)
  unfolding publish_to
  publish_to-sends_all listener encode requests topic url q n found k =
      let asked = (posting.poller_of s.client).get_queue_url topic q in
      ap
        (λ (r : Result (Option Text)).
          publish_at posting s (url_of (posting.poller_of s.client) (r, asked.1)))
        found
      ∙ ap (ended posting s) (
          publish-Notices (posting.queue_at s.client url) posting.responses listener encode requests
            s.notifications asked.1 n k)

  -- If GetQueueUrl has a URL for the topic and every response can be encoded, Publish of all that the
  -- listener posts sends them to the queue with this URL, each of them and in this order, whatever
  -- errors the client returns, and then returns; or the client panics for one of them, and no other
  -- is sent after it.
  pub publish_to-Notices :
      {T : Type 0} (listener : EventsListener T) (encode : EventResponse → Text)
      (requests : List EventRequest) (topic url : Text) (q : S)
      → Notices listener requests s.notifications
      → ((posting.poller_of s.client).get_queue_url topic q).0 ≡ ok (some url)
      → ((response : EventResponse)
          → marshal_to_text posting.responses response ≡ ok (encode response))
      → Sends
          (posting.queue_at s.client url)
          (map encode s.notifications)
          ((posting.poller_of s.client).get_queue_url topic q).1
          (publish_to posting s topic q).0
          (publish_to posting s topic q).1
  publish_to-Notices listener encode requests topic url q n found k =
      let queue = posting.queue_at s.client url in
      let asked = (posting.poller_of s.client).get_queue_url topic q in
      subst (λ r. Sends queue (map encode s.notifications) asked.1 r.0 r.1)
        (sym (publish_to-sends_all listener encode requests topic url q n found k))
        (send_all-Sends queue (map encode s.notifications) asked.1)
