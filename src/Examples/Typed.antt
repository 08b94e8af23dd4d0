-- ===== src/Examples/Typed.antt =====
-- The kinds of the values that the calls leave in the server in memory.
use go_statemachine.Prelude.{Text, text, refl, some, [], ◌∷◌, arith}
use go_statemachine.Go.Strings.{split, head}
use go_statemachine.Storage.Keys.Laws.{IsPlain}
use go_statemachine.Storage.Redis.{absent}
use go_statemachine.Storage.Redis.Memory.{
  healthy, slow, broken, conflict, Server, memory, memory-Laws,
}
use go_statemachine.Storage.Redis.Memory.Whole.{memory-WritesWhole}
use go_statemachine.Storage.RedisStore.{put_config, put_state_machine, update_state}
use go_statemachine.Storage.RedisStore.Tx.{tx_process_event}
use go_statemachine.Storage.RedisStore.Typed.{IsTyped}
use go_statemachine.Storage.RedisStore.Typed.Reached.{
  Called, empty, later, puts_config, puts_machine, updates_state, processes, Called-IsTyped,
}
use go_statemachine.Examples.Orders.{orders, event_of, fresh, Blob, store}

-- The first SADD and the SADD of the state fail, and an EXEC is refused.
abbrev unsteady : Server Blob
unsteady = record {
  cells = λ k. absent;
  faults =
      healthy ∷ broken ∷ healthy ∷ slow ∷ healthy ∷ healthy ∷ broken ∷ healthy ∷ healthy ∷ healthy
      ∷ healthy ∷ healthy ∷ conflict ∷ [];
}

abbrev o1 : Text
o1 = text "o1"

abbrev name : Text
name = text "orders"

abbrev configured : Server Blob
configured = (put_config store (some orders) unsteady).1

abbrev created : Server Blob
created = (put_state_machine store o1 (some fresh.fsm) configured).1

abbrev listed : Server Blob
listed = (update_state store name o1 [] (text "new") created).1

abbrev moved : Server Blob
moved = (tx_process_event store o1 name (event_of (text "ship")) listed).1

name-IsPlain : IsPlain name
name-IsPlain = omega arith

config-IsPlain : IsPlain (head (split fresh.fsm.config_id b':'))
unfolding split
config-IsPlain = omega arith

called : Called store moved
unfolding memory
called =
    later
      (later
        (later (later (empty unsteady (λ j. refl)) (puts_config orders (omega arith)))
          (puts_machine o1 fresh.fsm config-IsPlain))
        (updates_state name o1 [] (text "new") name-IsPlain))
      (processes o1 name (event_of (text "ship")) name-IsPlain)

Called-IsTyped_example : IsTyped store moved
Called-IsTyped_example = Called-IsTyped store memory-Laws memory-WritesWhole called
