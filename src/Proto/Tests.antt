-- ===== src/Proto/Tests.antt =====
-- A subprotocol that a client offers, and a frame.
use ws_chat.Base.{◌≡◌, true, some, bytes}
use ws_chat.Proto.Frame.{out_err, new_err, check_verb, of_err, IsBuilt-check_verb}

IsBuilt-check_verb_example : check_verb (some (out_err (new_err (bytes "muted")))) ≡ true
IsBuilt-check_verb_example =
    IsBuilt-check_verb (out_err (new_err (bytes "muted"))) (of_err (bytes "muted"))
