-- ===== src/Server/FanOut/Tests.antt =====
-- Two callers send while the one ring is closed: it gets the first message, and the other ring both.
use ws_chat.Base.{◌≡◌, refl, Option, none, some, List, [], ◌∷◌, Text, bytes}
use ws_chat.Proto.Frame.{Outbound, out_err}
use ws_chat.Proto.Codec.{Codec, msg_pack, json}
use ws_chat.Server.Channels.{encode_all}
use ws_chat.Server.FanOut.{
  Move, begins, sends, ends, closes, moves, move, begin_send, send_one, end_send, new_hall,
}
use ws_chat.Server.FanOut.Order.{HoldsFirst, AllSent, moves-one_order}

abbrev saying : Text → Outbound
saying t = out_err (record { verb = []; description = t })

-- Only errors are encoded, in JSON with one more character.
abbrev encode : Codec → Outbound → Option Text
encode msg_pack (out_err e) = some e.description
encode json (out_err e) = some (34 ∷ e.description)
encode k payload = none

abbrev schedule : List Move
schedule =
    begins 0 (saying (bytes "a"))
    ∷ begins 1 (saying (bytes "x"))
    ∷ sends 0 json
    ∷ sends 0 msg_pack
    ∷ ends 0
    ∷ begins 1 (saying (bytes "b"))
    ∷ closes json
    ∷ sends 1 json
    ∷ sends 1 msg_pack
    ∷ ends 1
    ∷ []

half_closed :
    (((moves encode schedule new_hall).rings msg_pack).log ≡ bytes "a" ∷ bytes "b" ∷ [])
    × (((moves encode schedule new_hall).rings json).log ≡ (34 ∷ bytes "a") ∷ [])
    × ((moves encode schedule new_hall).lock ≡ none)
unfolding moves move begin_send send_one end_send encode_all
half_closed = (refl, refl, refl)

moves-one_order_example :
    let h = moves encode schedule new_hall in
    (said : List Outbound) × ((k : Codec) → HoldsFirst encode said k (h.rings k))
    × ((k : Codec) → AllSent encode said h k h.lock)
moves-one_order_example = moves-one_order encode schedule
