-- ===== src/Main/Shutdown.antt =====
-- cmd/main.go: the goroutines that post on the events channel, the listener that reads it, and
-- RunUntilStopped, which closes it.
pub mod Served
use mathlib.Core.List.{Perm, perm_middle, append_assoc}
use mathlib.Core.List.Perm
use go_statemachine.Prelude.{◌≡◌, refl, ◌∙◌, ap, sym, subst, List, [], ◌∷◌, ◌++◌}
use go_statemachine.Protos.{EventRequest}
use go_statemachine.Go.Result.{ok, panic}
use go_statemachine.Go.Action.{continue_ok, continue-eq-ok}
use go_statemachine.Pubsub.Listener.{EventsListener, Scene, handle, listen_for_messages}

-- Where main is: before a signal, behind close(done), behind close(eventsCh), and behind the wait
-- for the services.
pub data Phase : Type 0 where
  serving signalled closed stopped : Phase

-- What ends the program, if anything has: a send on the closed channel, or a panic of the listener.
pub data Panic : Type 0 where
  no_panic send_on_closed in_listener : Panic

abbrev pub IsOpen : Phase → Type 0
IsOpen serving = Unit
IsOpen signalled = Unit
IsOpen closed = ⊥
IsOpen stopped = ⊥

-- `in_flight` are the requests of the goroutines (SendEvent and ProcessMessage) that are at their
-- send on the channel, the last one first, of all that were `taken`; `handled` are those that the
-- listener has received, in this order, and `given_up` those whose SendEvent timed out.
pub record Program (S : Type 0) : Type 0 where
  pub phase : Phase
  pub ending : Panic
  pub taken : List EventRequest
  pub in_flight : List EventRequest
  pub handled : List EventRequest
  pub given_up : List EventRequest
  pub scene : Scene S

abbrev pub start : {S : Type 0} → Scene S → Program S
start s = record {
  phase = serving;
  ending = no_panic;
  taken = [];
  in_flight = [];
  handled = [];
  given_up = [];
  scene = s;
}

module _ {S : Type 0} (listener : EventsListener S) where
  -- The channel has no buffer: a send and the listener's receive are one step. The listener takes
  -- the next request when it has handled the last one.
  pub data Step (p : Program S) : Program S → Type 0 where
    takes :
        (r : EventRequest)
        → p.ending ≡ no_panic
        → Step p (record p { taken = r ∷ p.taken; in_flight = r ∷ p.in_flight })
    hands_over :
        (a b : List EventRequest) (r : EventRequest)
        → p.ending ≡ no_panic
        → IsOpen p.phase
        → p.in_flight ≡ a ++ r ∷ b
        → (handle listener r p.scene).0 ≡ ok tt
        → Step p (record p {
          in_flight = a ++ b;
          handled = p.handled ++ r ∷ [];
          scene = (handle listener r p.scene).1;
        })
    gives_up :
        (a b : List EventRequest) (r : EventRequest)
        → p.ending ≡ no_panic
        → IsOpen p.phase
        → p.in_flight ≡ a ++ r ∷ b
        → Step p (record p { in_flight = a ++ b; given_up = r ∷ p.given_up })
    listener_panics :
        (a b : List EventRequest) (r : EventRequest)
        → p.ending ≡ no_panic
        → IsOpen p.phase
        → p.in_flight ≡ a ++ r ∷ b
        → (handle listener r p.scene).0 ≡ panic
        → Step p (record p { ending = in_listener })
    sends_on_closed :
        (a b : List EventRequest) (r : EventRequest)
        → p.ending ≡ no_panic
        → (IsOpen p.phase → ⊥)
        → p.in_flight ≡ a ++ r ∷ b
        → Step p (record p { ending = send_on_closed })
    closes_done : p.ending ≡ no_panic → p.phase ≡ serving → Step p (record p { phase = signalled })
    closes_events : p.ending ≡ no_panic → p.phase ≡ signalled → Step p (record p { phase = closed })
    stops : p.ending ≡ no_panic → p.phase ≡ closed → Step p (record p { phase = stopped })

  pub data Reachable (s : Scene S) : Program S → Type 0 where
    starts : Reachable s (start s)
    later : {p q : Program S} → Reachable s p → Step p q → Reachable s q

  -- The listener's state is that of ListenForMessages for the requests that it has received; these,
  -- those at their send and those given up are the requests that were taken, each as often.
  pub record Runs (s : Scene S) (p : Program S) : Type 0 where
    pub listens : listen_for_messages listener p.handled s ≡ (ok tt, p.scene)
    pub accounts : Perm (p.in_flight ++ (p.handled ++ p.given_up)) p.taken

  listen_snoc :
      (rs : List EventRequest) (r : EventRequest) (s s' : Scene S)
      → listen_for_messages listener rs s ≡ (ok tt, s')
      → (handle listener r s').0 ≡ ok tt
      → listen_for_messages listener (rs ++ r ∷ []) s ≡ (ok tt, (handle listener r s').1)
  unfolding listen_for_messages
  listen_snoc [] r s s' h g =
      let same : s ≡ s' = ap (λ m. m.1) h in
      subst (λ x. listen_for_messages listener (r ∷ []) x ≡ (ok tt, (handle listener r s').1))
        (sym same) (continue_ok (λ _ x. (ok tt, x)) (handle listener r s') tt g)
  listen_snoc (q ∷ rs) r s s' h g =
      let m = handle listener q s in
      let (u, is_ok, ends) =
        continue-eq-ok (λ _. listen_for_messages listener rs) m (ap (λ x. x.0) h) in
      continue_ok (λ _. listen_for_messages listener (rs ++ r ∷ [])) m u is_ok
      ∙ listen_snoc rs r m.1 s' (sym ends ∙ h) g

  removed :
      (a b rest : List EventRequest) (r : EventRequest)
      → Perm ((a ++ r ∷ b) ++ rest) (r ∷ ((a ++ b) ++ rest))
  removed a b rest r = Perm.append_right rest (perm_middle a b)

  added :
      (f h g : List EventRequest) (r : EventRequest)
      → Perm (f ++ (h ++ r ∷ g)) (r ∷ (f ++ (h ++ g)))
  added f h g r = Perm.trans (Perm.append_left f (perm_middle h g)) (perm_middle f (h ++ g))

  -- The requests that are left when one leaves its send.
  taken_of :
      {f t : List EventRequest} (a b rest : List EventRequest) (r : EventRequest)
      → f ≡ a ++ r ∷ b
      → Perm (f ++ rest) t
      → Perm (r ∷ ((a ++ b) ++ rest)) t
  taken_of {t = t} a b rest r e p =
      Perm.trans (Perm.symm (removed a b rest r)) (subst (λ f. Perm (f ++ rest) t) e p)

  Step-Runs : {s : Scene S} {p q : Program S} → Step p q → Runs s p → Runs s q
  Step-Runs (takes r e) runs = record {
    listens = runs.listens;
    accounts = Perm.cons r runs.accounts;
  }
  Step-Runs {s} {p} (hands_over a b r e open_yet split handled) runs = record {
    listens = listen_snoc p.handled r s p.scene runs.listens handled;
    accounts =
        subst (λ h. Perm ((a ++ b) ++ h) p.taken) (sym (append_assoc p.handled (r ∷ []) p.given_up))
          (Perm.trans (added (a ++ b) p.handled p.given_up r)
            (taken_of a b (p.handled ++ p.given_up) r split runs.accounts));
  }
  Step-Runs {s} {p} (gives_up a b r e open_yet split) runs = record {
    listens = runs.listens;
    accounts =
        Perm.trans (added (a ++ b) p.handled p.given_up r)
          (taken_of a b (p.handled ++ p.given_up) r split runs.accounts);
  }
  Step-Runs (listener_panics a b r e open_yet split h) runs = record {
    listens = runs.listens;
    accounts = runs.accounts;
  }
  Step-Runs (sends_on_closed a b r e shut split) runs = record {
    listens = runs.listens;
    accounts = runs.accounts;
  }
  Step-Runs (closes_done e at) runs = record { listens = runs.listens; accounts = runs.accounts }
  Step-Runs (closes_events e at) runs = record { listens = runs.listens; accounts = runs.accounts }
  Step-Runs (stops e at) runs = record { listens = runs.listens; accounts = runs.accounts }

  -- Whatever the turns: the listener's state is that of ListenForMessages for the requests that it has
  -- received; these, those still at their send and those given up are the requests that were taken.
  pub Reachable-Runs : {s : Scene S} {p : Program S} → Reachable s p → Runs s p
  unfolding listen_for_messages
  Reachable-Runs starts = record { listens = refl; accounts = Perm.nil }
  Reachable-Runs (later r step) = Step-Runs step (Reachable-Runs r)
