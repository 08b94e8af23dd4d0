-- ===== src/Pubsub/Sqs/Messages.antt =====
-- pkg/pubsub/sqs_sub.go, ProcessMessage: which messages are taken from the queue.
use go_statemachine.Prelude.{
  ℕ, zero, suc, Text, ◌≡◌, ◌≢◌, refl, ◌∙◌, sym, ap, subst, inl, inr, Bool-cases, Option, none, some,
  [], ◌∷◌, ◌++◌, arith, ◌==◌, eq_iff, if◌then◌else◌,
}
use go_statemachine.Protos.{Event, EventRequest}
use go_statemachine.Go.Result.{Error, Result, ok, err, panic}
use go_statemachine.Api.Event.{update_event}
use go_statemachine.Pubsub.Sqs.{
  Message, SqsSubscriber, Box, unmarshal_from_text, after_delete, remove, take, decoded,
  process_message,
}

module _ {S Bytes : Type 0} (s : SqsSubscriber S Bytes) where
  -- At most `n` removals are tried; the first one that succeeds is the last one.
  pub data Removal (receipt : Text) : ℕ → S → S → Type 0 where
    given_up : (q : S) → Removal receipt zero q q
    removed :
        {n : ℕ} (q : S)
        → (s.client.delete_message receipt q).0 ≡ ok tt
        → Removal receipt (suc n) q (s.client.delete_message receipt q).1
    refused :
        {n : ℕ} (q : S) {q' : S} (e : Error)
        → (s.client.delete_message receipt q).0 ≡ err e
        → Removal receipt n (s.client.delete_message receipt q).1 q'
        → Removal receipt (suc n) q q'

  pub remove-Removal :
      (receipt : Text) (n : ℕ) (q : S)
      → (remove s receipt n q).0 ≡ ok tt
      → Removal receipt n q (remove s receipt n q).1
  unfolding remove
  remove-Removal receipt zero q h = given_up q
  remove-Removal receipt (suc n) q h =
      one_round receipt n q (remove-Removal receipt n) (s.client.delete_message receipt q) refl h
    where
      one_round :
          (receipt : Text) (n : ℕ) (q : S)
          → ((q : S)
              → (remove s receipt n q).0 ≡ ok tt
              → Removal receipt n q (remove s receipt n q).1)
          → (r : Result (Unit {0}) × S) → s.client.delete_message receipt q ≡ r
          → (after_delete s (remove s receipt n) r).0 ≡ ok tt
          → Removal receipt (suc n) q (after_delete s (remove s receipt n) r).1
      one_round receipt n q later (ok u, t) e h =
          subst (Removal receipt (suc n) q) (ap (λ r. r.1) e) (removed q (ap (λ r. r.0) e))
      one_round receipt n q later (err x, t) e h = refused q x (ap (λ r. r.0) e) (
          subst (λ v. Removal receipt n v (remove s receipt n t).1) (ap (λ r. r.1) (sym e))
            (later t h))
      one_round receipt n q later (panic, t) e h = cc

  -- The message is left alone, or its request was posted and its removal tried.
  pub data Fate (fresh : Text) (now : ℕ) (msg : Message) (box : Box S) : Box S → Type 0 where
    no_body : msg.body ≡ none → Fate fresh now msg box box
    invalid :
        (body : Text) (e : Error)
        → msg.body ≡ some body
        → unmarshal_from_text s.requests body ≡ err e
        → Fate fresh now msg box box
    no_destination :
        (body : Text) (request : EventRequest)
        → msg.body ≡ some body
        → unmarshal_from_text s.requests body ≡ ok request
        → request.id ≡ []
        → Fate fresh now msg box box
    taken :
        (body : Text) (request : EventRequest) (evt : Event) (q : S)
        → msg.body ≡ some body
        → unmarshal_from_text s.requests body ≡ ok request
        → request.id ≢ []
        → request.event ≡ some evt
        → Removal msg.receipt_handle s.message_remove_retries box.queues q
        → Fate fresh now msg box (record {
          queues = q;
          events = box.events ++ record request { event = some (update_event fresh now evt) } ∷ [];
        })

  taken_of :
      (fresh : Text) (now : ℕ) (msg : Message) (box : Box S) (body : Text) (request : EventRequest)
      (o : Option Event)
      → msg.body ≡ some body
      → unmarshal_from_text s.requests body ≡ ok request
      → request.id ≢ []
      → request.event ≡ o
      → (take s fresh now msg.receipt_handle (record request { event = o }) box).0 ≡ ok tt
      → Fate fresh now msg box
          (take s fresh now msg.receipt_handle (record request { event = o }) box).1
  taken_of fresh now msg box body request none b u i e h = cc
  taken_of fresh now msg box body request (some evt) b u i e h =
      taken body request evt _ b u i e
        (remove-Removal msg.receipt_handle s.message_remove_retries box.queues h)

  decoded-Fate :
      (fresh : Text) (now : ℕ) (msg : Message) (box : Box S) (body : Text) (r : Result EventRequest)
      → msg.body ≡ some body
      → unmarshal_from_text s.requests body ≡ r
      → (decoded s fresh now msg.receipt_handle r box).0 ≡ ok tt
      → Fate fresh now msg box (decoded s fresh now msg.receipt_handle r box).1
  decoded-Fate fresh now msg box body (ok request) b u h = elim (Bool-cases (request.id == [])) [
    | inl p ↦
        subst (Fate fresh now msg box)
          (sym (
            ap
              (λ c. (if c then (ok tt, box) else take s fresh now msg.receipt_handle request box).1)
              p))
          (no_destination body request b u ((eq_iff _ _).0 p))
    | inr p ↦
        subst (Fate fresh now msg box)
          (sym (
            ap
              (λ c. (if c then (ok tt, box) else take s fresh now msg.receipt_handle request box).1)
              p))
          (taken_of fresh now msg box body request request.event b u
            (λ e. ground (arith, eq_iff request.id [])) refl
            (sym (
                ap
                  (λ c.
                    (if c then (ok tt, box) else take s fresh now msg.receipt_handle request box).0)
                  p)
              ∙ h))
  ]
  decoded-Fate fresh now msg box body (err e) b u h = invalid body e b u
  decoded-Fate fresh now msg box body panic b u h = cc

  -- If ProcessMessage does not panic, the message is left alone, with nothing posted, because it has
  -- no body, one that cannot be decoded, or a request without an id; or its request is posted, with
  -- the event completed, and then its removal is tried up to MessageRemoveRetries times, until it
  -- succeeds.
  pub process_message-Fate :
      (fresh : Text) (now : ℕ) (msg : Message) (box : Box S)
      → (process_message s fresh now msg box).0 ≡ ok tt
      → Fate fresh now msg box (process_message s fresh now msg box).1
  unfolding process_message
  process_message-Fate fresh now msg box h = with_body msg.body refl h
    where
      result : Option Text → Result (Unit {0}) × Box S
      result none = (ok tt, box)
      result (some body) =
          decoded s fresh now msg.receipt_handle (unmarshal_from_text s.requests body) box

      with_body :
          (o : Option Text)
          → msg.body ≡ o
          → (result o).0 ≡ ok tt
          → Fate fresh now msg box (result o).1
      with_body none b h = no_body b
      with_body (some body) b h = decoded-Fate fresh now msg box body _ b refl h
