-- ===== src/Main/Shutdown/Served.antt =====
-- cmd/main.go with pkg/pubsub/listener.go: what becomes of the requests that goroutines post on the
-- events channel until RunUntilStopped closes it.
use mathlib.Core.List.{Perm}
use go_statemachine.Prelude.{◌≡◌, List, [], ◌∷◌, ◌++◌}
use go_statemachine.Protos.{EventRequest, EventResponse}
use go_statemachine.Go.Result.{Result, panic}
use go_statemachine.Pubsub.Listener.{EventsListener, Scene, handle}
use go_statemachine.Pubsub.Listener.Outcomes.{Handled}
use go_statemachine.Pubsub.Listener.Notices.{Notices}
use go_statemachine.Main.Shutdown.{Panic, no_panic, send_on_closed, in_listener, IsOpen, Program}

module _ {S : Type 0} (listener : EventsListener S) where
  -- Each of the requests had a round, in this order, that ended with the outcome of its verdict.
  pub data Served (s : Scene S) : List EventRequest → Scene S → Type 0 where
    none_yet : Served s [] s
    one_more :
        {requests : List EventRequest} {t : Scene S} (r : EventRequest)
        → Served s requests t
        → Handled listener r t
        → Served s (requests ++ r ∷ []) (handle listener r t).1

  -- Why the program has ended, if it has: one of the requests that are at their send found the channel
  -- closed, or the listener panics for it.
  pub data Ended (p : Program S) : Panic → Type 0 where
    runs_on : Ended p no_panic
    unsent :
        (a b : List EventRequest) (r : EventRequest)
        → p.in_flight ≡ a ++ r ∷ b
        → (IsOpen p.phase → ⊥)
        → Ended p send_on_closed
    crashed :
        (a b : List EventRequest) (r : EventRequest)
        → p.in_flight ≡ a ++ r ∷ b
        → (handle listener r p.scene).0 ≡ panic
        → Ended p in_listener

  pub record IsServed (s : Scene S) (p : Program S) : Type 0 where
    pub serves : Served s p.handled p.scene
    pub new : List EventResponse
    pub notices : Notices listener p.handled new
    pub posts : p.scene.posted ≡ s.posted ++ new
    pub accounts : Perm (p.in_flight ++ (p.handled ++ p.given_up)) p.taken
    pub ends : Ended p p.ending
