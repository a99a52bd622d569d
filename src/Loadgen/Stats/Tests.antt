-- ===== src/Loadgen/Stats/Tests.antt =====
-- Four frames for a client that speaks JSON, and three messages in two channels.
use ws_chat.Base.{
  ◌+◌, ◌%◌, ◌^◌, ◌≡◌, refl, false, true, Option, none, some, List, [], ◌∷◌, count, length, Text,
  bytes, arith, same_text, text_keyed, ◌==◌, if◌then◌else◌,
}
use ws_chat.Base.Dict.{lookup, insert}
use ws_chat.Loadgen.Hist.{empty}
use ws_chat.Loadgen.Plan.{Plan}
use ws_chat.Loadgen.Stats.{
  Frame, Client, Arrival, no_frame, new_stats, bump, refused, closed_early, on_frame, read_frame,
  on_arrival, read, expected,
}
use ws_chat.Loadgen.Stats.Accounts.{counted, is_unnamed, read-counted}
use ws_chat.Loadgen.Stats.Expected.{spoke_all, audience, expected-spoke_all}

-- A codec of three frames: `x` is none, `-` has no verb, and all others are refusals.
abbrev unmarshal : Text → Option Frame
unmarshal t =
    if t == bytes "x"
    then none
    else (if t == bytes "-"
        then some no_frame
        else some (record no_frame { verb = bytes "ERR"; description = t }))

abbrev client : Client
client = record { stats = new_stats 2; nick = bytes "bob"; binary = false; lat = empty; joins = [] }

abbrev text : Text → Arrival
text t = record { binary = false; bytes = t; now = 0 }

abbrev four : List Arrival
four = text (bytes "x") ∷ text (bytes "-") ∷ text (bytes "muted") ∷ text (bytes "muted") ∷ []

muted_twice :
    (read unmarshal four (some (bytes "eof")) client).stats.refusals ≡ (bytes "muted", 2) ∷ []
unfolding read on_arrival read_frame on_frame refused closed_early bump new_stats lookup insert
    same_text
muted_twice = refl

-- The frame without a verb is not garbage either.
one_garbage : (read unmarshal four none client).stats.garbage ≡ 1
unfolding read on_arrival read_frame on_frame refused new_stats same_text
one_garbage = refl

read-counted_example :
    (counted (read unmarshal four (some (bytes "eof")) client).stats
        + count (is_unnamed unmarshal false) four)
      % 2 ^ 64
    ≡ (counted client.stats + length four) % 2 ^ 64
read-counted_example = read-counted unmarshal four (some (bytes "eof")) client

abbrev five : Plan
five = record {
  url = bytes "ws://localhost/ws";
  conns = 5;
  percent = 100;
  parts = 1;
  rated = true;
  message_size = 100;
  channels = 2;
  ping_every = 30;
}

expected-spoke_all_example :
    (expected five (spoke_all five (0 ∷ 1 ∷ 2 ∷ []) (new_stats 2)) % 2 ^ 64
      ≡ audience five (0 ∷ 1 ∷ 2 ∷ []) % 2 ^ 64)
    × ((spoke_all five (0 ∷ 1 ∷ 2 ∷ []) (new_stats 2)).sent % 2 ^ 64 ≡ 3 % 2 ^ 64)
expected-spoke_all_example = expected-spoke_all five (0 ∷ 1 ∷ 2 ∷ []) (omega arith)
