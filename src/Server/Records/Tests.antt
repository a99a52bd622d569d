-- ===== src/Server/Records/Tests.antt =====
-- Three records of which the second fails, and a worker that stops with one of them waiting.
use ws_chat.Base.{
  ℕ, ◌+◌, ◌≤◌, ◌≡◌, refl, Bool, false, List, [], ◌∷◌, ◌++◌, bytes, eqb, length, none,
}
use ws_chat.Hook.{Identity}
use ws_chat.Config.{default_config}
use ws_chat.Proto.Codec.{json}
use ws_chat.Server.State.{Record, of_message, of_private, of_sanction, App}
use ws_chat.Server.Handlers.{record_queue, enqueue}
use ws_chat.Server.Run.{new_app, blank_conn}
use ws_chat.Server.Records.{
  DeskMove, asks, works, stops, ask, run_record, on_desk, on_desks, new_desk,
}
use ws_chat.Server.Records.Order.{on_desks-in_order}

abbrev nobody : Identity
nobody = record { id = []; nick = bytes "nobody"; roles = []; attrs = [] }

abbrev said : ℕ → Record
said n = of_message (record { id = n; from = nobody; body = []; at = n })

abbrev second_fails : Record → Bool
second_fails (of_message m) = eqb m.id 2
second_fails (of_private p) = false
second_fails (of_sanction s) = false

abbrev quiet : App
quiet = new_app default_config (blank_conn json nobody none)

abbrev three_asked : List DeskMove
three_asked = asks (said 1) ∷ asks (said 2) ∷ works ∷ asks (said 3) ∷ works ∷ []

after_three :
    ((on_desks second_fails three_asked (new_desk quiet)).ran ≡ said 1 ∷ said 2 ∷ [])
    × ((on_desks second_fails three_asked (new_desk quiet)).failed ≡ 1)
unfolding on_desks on_desk ask enqueue run_record new_desk new_app
after_three = (refl, refl)

none_waiting : quiet.records ≡ []
unfolding new_app
none_waiting = refl

on_desks-in_order_example :
    ((on_desks second_fails three_asked (new_desk quiet)).ran
        ++ (on_desks second_fails three_asked (new_desk quiet)).app.records
      ≡ (on_desks second_fails three_asked (new_desk quiet)).queued)
    × (length (on_desks second_fails three_asked (new_desk quiet)).app.records ≤ record_queue)
    × (length (on_desks second_fails three_asked (new_desk quiet)).queued
          + (on_desks second_fails three_asked (new_desk quiet)).app.dropped
        ≡ (on_desks second_fails three_asked (new_desk quiet)).asked + quiet.dropped)
    × ((on_desks second_fails three_asked (new_desk quiet)).done ≡ false
        → length (on_desks second_fails three_asked (new_desk quiet)).app.records ≤ 1
        → (on_desk second_fails
            (stops 0)
            (on_desks second_fails three_asked (new_desk quiet))).app.records
          ≡ [])
on_desks-in_order_example = on_desks-in_order second_fails quiet three_asked 0 none_waiting
