-- ===== src/Server/Lifecycle/Tests.antt =====
-- A server with Bob in a channel is closed while three frames wait for him.
use ws_chat.Base.{
  ◌≡◌, eqb, if◌then◌else◌, refl, true, false, none, some, [], ◌∷◌, Text, bytes, same_text,
  text_keyed,
}
use ws_chat.Config.{default_config, pos}
use ws_chat.Proto.Codec.{json}
use ws_chat.Server.State.{Membership, closing, Conn, App}
use ws_chat.Server.Run.{new_app, blank_conn, blank_chan}
use ws_chat.Server.Sanctions.{load_sanctions}
use ws_chat.Server.Pumps.{Pump}
use ws_chat.Server.Lifecycle.{new_app_with, run, listener, broke}

abbrev blank : Conn
blank = blank_conn json (record { id = bytes "7"; nick = bytes "bob"; roles = []; attrs = [] }) none

abbrev room : Text
room = bytes "main"

abbrev joined : Membership
joined = record { stamp = 1; chan = 0; start = 1 }

abbrev busy : App
busy = record (new_app (record default_config { capacity = pos 4; write_batch = pos 2 }) blank) {
  conns = (bytes "bob", 0) ∷ [];
  channels = (room, 0) ∷ [];
  conn_at = λ p. record blank { memberships = (room, joined) ∷ [] };
  chan_at = λ p. record blank_chan {
    rings = λ c. record { log = bytes "a" ∷ bytes "b" ∷ bytes "c" ∷ bytes "d" ∷ []; shut = false };
  };
}

abbrev pump : Pump
pump = record {
  who = 0;
  name = room;
  member = joined;
  codec = json;
  wrote = [];
  pos = 1;
  stopped = false;
}

no_level : new_app_with (λ l. false) none default_config blank ≡ none
unfolding new_app_with
no_level = refl

-- Sanctions that cannot be read stop the server.
no_sanctions : new_app_with (λ l. true) (some none) default_config blank ≡ none
unfolding new_app_with load_sanctions
no_sanctions = refl

no_port : (run none (listener (broke (bytes "in use"))) busy).1 ≡ some (bytes "in use")
unfolding run new_app default_config same_text
no_port = refl

-- The last two of his frames do not get out, and connection 1 was banned.
abbrev one_banned : App
one_banned = record busy {
  conn_at =
      λ c. if eqb c 1 then record blank { socket = closing (bytes "banned") } else busy.conn_at c;
}
