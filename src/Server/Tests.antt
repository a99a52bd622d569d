-- ===== src/Server/Tests.antt =====
-- A server with the default settings, whose frames all read `frame`, and two connections.
use ws_chat.Base.{
  ℕ, ◌≡◌, inl, inr, refl, true, false, none, some, List, [], ◌∷◌, Text, bytes, text_keyed,
  same_text, arith,
}
use ws_chat.Base.Dict.{lookup, delete}
use ws_chat.Hook.{Identity}
use ws_chat.Config.{default_config}
use ws_chat.Utf8.{decode}
use ws_chat.Proto.Command.{Command, verb_msg}
use ws_chat.Proto.Codec.{json}
use ws_chat.Server.State.{App, Conn}
use ws_chat.Server.Env.{Env}
use ws_chat.Server.Channels.{remove_member, sweep_list, sweep_channels, enter, channel_for}
use ws_chat.Server.Names.{trim_left, trim_right, trim_space, normalise}
use ws_chat.Server.Membership.{leave, join_enter}
use ws_chat.Server.Handlers.{handle_msg}
use ws_chat.Server.Run.{
  Event, accepted, command, gone, sweeping, new_app, blank_conn, blank_chan, run_events,
}
use ws_chat.Server.Race.{Turn, joins, bans, turns, turn, join_turn, ban_turn, start_race}
use ws_chat.Server.Race.Outcome.{turns-out}
use ws_chat.Server.Limits.{Bounded}
use ws_chat.Server.Limits.Runs.{run_events-Bounded}
use ws_chat.Server.Alike.{Unheard}
use ws_chat.Server.Silence.{handle_msg-Unheard}

abbrev env : Env
env = record {
  encode = λ c payload. some (bytes "frame");
  is_space = λ r. false;
  is_print = λ r. true;
  is_mark = λ r. false;
  channel_limits = none;
  can_join = none;
  can_moderate = none;
  resolve_nick = none;
  parse_duration = λ d. none;
  filter_hook = none;
  autojoin = none;
  has_recorder = false;
  has_sanctions = false;
}

abbrev bob : Identity
bob = record { id = bytes "7"; nick = bytes "bob"; roles = []; attrs = [] }

abbrev blank : Conn
blank = blank_conn json bob none

abbrev start : App
start = new_app default_config blank

abbrev main : Text
main = bytes "main"

abbrev say : Text → Command
say body = record {
  verb = verb_msg;
  body = body;
  channel = main;
  nick = [];
  duration = [];
  reason = [];
}

-- Bob joins, says something, and leaves; the janitor comes.
abbrev visit : List (ℕ × Event)
visit =
    (1, accepted bob json none)
    ∷ (2, command 0 (say (bytes "hello")))
    ∷ (3, gone 0)
    ∷ (4, sweeping)
    ∷ []

run_events-Bounded_example : Bounded default_config (run_events env visit start)
run_events-Bounded_example =
    run_events-Bounded env default_config blank visit (omega arith, omega arith)

handle_msg-Unheard_example : Unheard start (handle_msg env start 1 0 (say (bytes "hello")))
unfolding normalise trim_space trim_left trim_right decode same_text new_app lookup
handle_msg-Unheard_example =
    handle_msg-Unheard env start 1 0 (say (bytes "hello")) main refl (inr (inr (inl refl)))

-- The ban is filed between the two halves of the join.
abbrev order : List Turn
order = joins ∷ bans ∷ joins ∷ bans ∷ []

turns-out_example :
    lookup main ((turns env 1 0 main 0 order (start_race start)).app.conn_at 0).memberships ≡ none
unfolding normalise trim_space trim_left trim_right decode same_text new_app lookup turns turn
    join_turn ban_turn start_race join_enter channel_for enter default_config
turns-out_example = turns-out env 1 0 main 0 start order refl refl (inl refl) refl refl

-- Bob is connected twice, and the channel knows the newer connection.
abbrev twice : App
twice = record start {
  channels = (main, 0) ∷ [];
  chan_at = λ p. record blank_chan { members = (bytes "bob", 1) ∷ [] };
  conn_at =
      λ c. record blank { memberships = (main, record { stamp = c; chan = 0; start = 0 }) ∷ [] };
}

-- The newer one leaves: the sweep takes the channel away, and the older one is still in it.
swept_with_member :
    (lookup main
        (sweep_channels (leave 1 (record { stamp = 1; chan = 0; start = 0 }) twice)).0.channels
      ≡ none)
    × (lookup main
          ((sweep_channels (leave 1 (record { stamp = 1; chan = 0; start = 0 }) twice)).0.conn_at
            0).memberships
        ≡ some (record { stamp = 0; chan = 0; start = 0 }))
unfolding leave remove_member sweep_channels sweep_list lookup delete same_text new_app
swept_with_member = (refl, refl)
