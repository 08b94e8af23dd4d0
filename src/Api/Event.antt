-- ===== src/Api/Event.antt =====
-- pkg/api/fsm.go: NewEvent and UpdateEvent. The identifier that uuid.NewString would return, and the
-- time that timestamppb.Now would, are arguments.
use go_statemachine.Prelude.{
  ℕ, Text, ◌≡◌, ◌≢◌, Option, none, some, [], arith, ◌==◌, eq_iff, if◌then◌else◌,
}
use go_statemachine.Protos.{Event}

abbrev or_now : ℕ → Option ℕ → Option ℕ
or_now now none = some now
or_now now (some t) = some t

unfoldable pub update_event : Text → ℕ → Event → Event
update_event fresh now event = record event {
  event_id = if event.event_id == [] then fresh else event.event_id;
  timestamp = or_now now event.timestamp;
}

unfoldable pub new_event : Text → ℕ → Text → Event
unfolding update_event
new_event fresh now event_name = update_event fresh now (record {
  event_id = [];
  timestamp = none;
  transition = some (record { from = []; to = []; event = event_name });
  originator = [];
  details = [];
})

-- Once an event has an identifier and a timestamp, a later call, at any later time, keeps both.
pub update_event_idem :
    (fresh later : Text) (now after : ℕ) (event : Event)
    → fresh ≢ []
    → update_event later after (update_event fresh now event) ≡ update_event fresh now event
unfolding update_event
update_event_idem fresh later now after event h =
    ground (arith, eq_iff event.event_id [], eq_iff fresh [])
