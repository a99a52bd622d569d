-- ===== src/Server/Pumps/Tests.antt =====
-- Bob comes, and his pump writes; and a channel with three frames for him.
use ws_chat.Base.{
  ◌≡◌, ◌⊎◌, refl, true, false, none, some, List, [], ◌∷◌, bytes, All, arith, same_text, text_keyed,
}
use ws_chat.Base.Dict.{lookup}
use ws_chat.Hook.{Identity}
use ws_chat.Config.{Config, default_config, pos}
use ws_chat.Proto.Codec.{json}
use ws_chat.Server.State.{Membership, Channel, Conn, App}
use ws_chat.Server.Env.{Env}
use ws_chat.Server.Run.{accepted, sweeping, new_app, blank_conn, blank_chan}
use ws_chat.Server.Pumps.{
  Pump, IsStretchOf, Turn, serves, starts, pumps, privs, got, too_slow, on_turns, recv_ring,
  on_received,
}
use ws_chat.Server.Pumps.Delivery.{on_turns-stretches}
use ws_chat.Server.Pumps.Progress.{pump_rounds, Wrote}
use ws_chat.Server.Pumps.Swept.{Swept, Spared, sweep_channels-settles}
use ws_chat.Server.Pumps.Reached.{handle_msg-reaches}
use ws_chat.Utf8.{decode, runes_after, valid_string}
use ws_chat.Proto.Command.{Command, verb_msg}
use ws_chat.Server.Channels.{encode_all}
use ws_chat.Server.Names.{trim_left, trim_right, trim_space, normalise}
use ws_chat.Server.Handlers.{handle_msg, spend_conn, spend_chan, passes}
use ws_chat.Moderation.{muted, active, first_active, scopes_of, new}
use ws_chat.RateLimit.{allow_at}
use ws_chat.Filter.{chain, allow, chain_allow, utf8_allow, zalgo_allow, zalgo_loop}

abbrev env : Env
env = record {
  encode = λ c payload. some (bytes "frame");
  is_space = λ r. false;
  is_print = λ r. true;
  is_mark = λ r. false;
  channel_limits = none;
  can_join = none;
  can_moderate = none;
  resolve_nick = none;
  parse_duration = λ d. none;
  filter_hook = none;
  autojoin = none;
  has_recorder = false;
  has_sanctions = false;
}

abbrev bob : Identity
bob = record { id = bytes "7"; nick = bytes "bob"; roles = []; attrs = [] }

abbrev blank : Conn
blank = blank_conn json bob none

abbrev day : List Turn
day =
    serves 1 (accepted bob json none)
    ∷ starts 0 (bytes "main")
    ∷ pumps 0 none
    ∷ privs 0 true
    ∷ serves 2 sweeping
    ∷ pumps 0 (some 0)
    ∷ []

on_turns-stretches_example :
    let end = on_turns env day (record { app = new_app default_config blank; running = [] }) in
    All (IsStretchOf end.app) end.running
on_turns-stretches_example = on_turns-stretches env default_config blank day refl

-- A ring of four slots, and batches of two.
abbrev small_config : Config
small_config = record default_config { capacity = pos 4; write_batch = pos 2 }

abbrev joined : Membership
joined = record { stamp = 1; chan = 0; start = 1 }

abbrev four_frames : Channel
four_frames = record blank_chan {
  rings = λ c. record { log = bytes "a" ∷ bytes "b" ∷ bytes "c" ∷ bytes "d" ∷ []; shut = false };
}

abbrev busy : App
busy = record (new_app small_config blank) {
  conn_at = λ p. record blank { memberships = (bytes "main", joined) ∷ [] };
  chan_at = λ p. four_frames;
}

abbrev pump : Pump
pump = record {
  who = 0;
  name = bytes "main";
  member = joined;
  codec = json;
  wrote = [];
  pos = 1;
  stopped = false;
}

-- A batch, a ring that was lapped, and a write that fails after one frame.
two_received : recv_ring (some 4) 2 (four_frames.rings json) 1 ≡ got (bytes "b" ∷ bytes "c" ∷ [])
unfolding recv_ring
two_received = refl

lapped : recv_ring (some 2) 2 (four_frames.rings json) 1 ≡ too_slow
unfolding recv_ring
lapped = refl

one_written :
    (on_received (some 1) busy pump (got (bytes "b" ∷ bytes "c" ∷ []))).1
    ≡ record pump { wrote = bytes "b" ∷ []; pos = 3; stopped = true }
unfolding on_received
one_written = refl

abbrev hello : Command
hello = record {
  verb = verb_msg;
  body = bytes "hello";
  channel = bytes "main";
  nick = [];
  duration = [];
  reason = [];
}

-- Bob hears himself, after the three frames that wait for him.
handle_msg-reaches_example :
    Wrote 0
      (bytes "b" ∷ bytes "c" ∷ bytes "d" ∷ bytes "frame" ∷ [])
      (bytes "b" ∷ bytes "c" ∷ bytes "d" ∷ bytes "frame" ∷ [])
      (pump_rounds 2 (handle_msg env busy 5 0 hello) pump)
unfolding normalise trim_space trim_left trim_right decode same_text new_app lookup spend_conn
    spend_chan allow_at muted active first_active scopes_of new passes chain allow chain_allow
    utf8_allow valid_string runes_after zalgo_allow zalgo_loop default_config encode_all
handle_msg-reaches_example =
    handle_msg-reaches env busy 5 0 hello (bytes "main") joined (λ k. bytes "frame") 2 pump refl
      (λ e. cc) refl refl refl refl (refl, refl) (λ k. refl) refl refl (omega arith) refl refl
      (omega arith) (omega arith) (omega arith)

-- A channel without nicks, of which Bob still has a membership.
abbrev left_over : App
left_over = record busy { channels = (bytes "main", 0) ∷ [] }

sweep_channels-settles_example :
    Swept (none ∷ some 0 ∷ none ∷ []) left_over (bytes "main") pump
    ⊎ Spared left_over (bytes "main") 0
unfolding lookup same_text default_config new_app
sweep_channels-settles_example =
    sweep_channels-settles (none ∷ some 0 ∷ none ∷ []) 2 left_over pump (bytes "main") (refl, tt)
      refl (omega arith) refl
