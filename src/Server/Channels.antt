-- ===== src/Server/Channels.antt =====
-- channel.go: the table of channels, their members, and the fan-out. Both branches of `channelFor`
-- that find the channel do the same, so the double-checked locking is one lookup.
use ws_chat.Base.{
  ℕ, ◌+◌, ◌%◌, ◌^◌, Bool, false, Option, none, some, List, [], ◌∷◌, ltb, leb, eqb, if◌then◌else◌,
  Text, length, text_keyed, take,
}
use ws_chat.Base.Sorting.{text_le, sort_by}
use ws_chat.Base.Dict.{Dict, keys, lookup, insert, delete}
use ws_chat.Hook.{Limits}
use ws_chat.RateLimit.{new_bucket}
use ws_chat.Config.{bound}
use ws_chat.Proto.Frame.{Outbound}
use ws_chat.Proto.Codec.{Codec, msg_pack, json}
use ws_chat.Server.State.{new_ring, send_ring, close_ring, Channel, App, set_at, set_chan}

abbrev pub max_names : ℕ
max_names = 1000

abbrev pub nick : App → ℕ → Text
nick a c = (a.conn_at c).identity.nick

unfoldable pub add_member : Text → ℕ → Channel → Channel
add_member who c ch = record ch { members = insert who c ch.members }

-- `cur, ok := ch.members[nick]; ok && cur == c`.
abbrev pub is_at : ℕ → Option ℕ → Bool
is_at c none = false
is_at c (some cur) = eqb cur c

unfoldable pub remove_member : Text → ℕ → Channel → Channel
remove_member who c ch =
    if is_at c (lookup who ch.members) then record ch { members = delete who ch.members } else ch

-- `sort.Strings`.
abbrev pub sort_texts : List Text → List Text
sort_texts xs = sort_by text_le xs

-- `names`: up to `max_names` nicks, in order, and how many there are.
unfoldable pub member_names : Channel → List Text × ℕ
member_names ch = (take max_names (sort_texts (keys ch.members)), length ch.members)

unfoldable pub channel_names : App → List Text
channel_names a = sort_texts (keys a.channels)

unfoldable pub lookup_channel : App → Text → Option ℕ
lookup_channel a name = lookup name a.channels

abbrev pub close_all : Channel → Channel
close_all ch = record ch { rings = λ c. close_ring (ch.rings c) }

-- The loop of `sweepChannels`: the table that is left, the memory, and how many went.
unfoldable pub sweep_list : Dict Text ℕ → (ℕ → Channel) → Dict Text ℕ × (ℕ → Channel) × ℕ
sweep_list [] at = ([], at, 0)
sweep_list ((name, p) ∷ table) at =
    let (left, memory, removed) = sweep_list table at in
    if ltb 0 (length (at p).members)
    then ((name, p) ∷ left, memory, removed)
    else (left, set_at p (close_all (memory p)) memory, removed + 1)

unfoldable pub sweep_channels : App → App × ℕ
sweep_channels a =
    let (left, memory, removed) = sweep_list a.channels a.chan_at in
    (record a { channels = left; chan_at = memory }, removed)

unfoldable pub close_list : Dict Text ℕ → (ℕ → Channel) → ℕ → Channel
close_list [] at = at
close_list ((name, p) ∷ table) at =
    let memory = close_list table at in set_at p (close_all (memory p)) memory

unfoldable pub close_channels : App → App
close_channels a = record a { chan_at = close_list a.channels a.chan_at }

-- `channel_limits` is the Limiter hook's `ChannelLimits`, if there is a Limiter.
module _ (channel_limits : Option (Text → Limits)) where
  unfoldable pub new_channel : Text → Text → ℕ → Channel
  new_channel name who c = record {
    name = name;
    rings = λ codec. new_ring;
    limit = elim channel_limits [
      | none ↦ none
      | some limits ↦ new_bucket (limits name).burst (limits name).interval
    ];
    members = (who, c) ∷ [];
  }

  -- A channel that was found, or none.
  unfoldable pub enter : App → Text → ℕ → Option ℕ → App × Option ℕ
  enter a name c (some p) = (set_chan p (add_member (nick a c) c (a.chan_at p)) a, some p)
  enter a name c none = if leb (bound a.cfg.max_channels) (length a.channels) then (a, none) else (
    record a {
      channels = insert name a.next a.channels;
      chan_at = set_at a.next (new_channel name (nick a c) c) a.chan_at;
      next = a.next + 1;
    },
    some a.next,
  )

  unfoldable pub channel_for : App → Text → ℕ → App × Option ℕ
  channel_for a name c = enter a name c (lookup name a.channels)

-- The frame of each codec, or none if one of them fails.
abbrev pub frame_of : Text → Text → Codec → Text
frame_of m j msg_pack = m
frame_of m j json = j

abbrev pub both_frames : Option Text → Option Text → Option (Codec → Text)
both_frames (some m) (some j) = some (frame_of m j)
both_frames (some m) none = none
both_frames none j = none

unfoldable pub fan_out : (Codec → Text) → Channel → Channel
fan_out frames ch = record ch { rings = λ c. send_ring (frames c) (ch.rings c) }

-- What `broadcastTo` does once the frames are encoded, or not.
unfoldable pub send_frames : App → ℕ → (ℕ → App → App) → Option (Codec → Text) → App × Option ℕ
send_frames a p after none = (a, none)
send_frames a p after (some frames) =
    let told = after a.seq a in (set_chan p (fan_out frames (told.chan_at p)) told, some a.seq)

-- The id that the next message gets.
abbrev pub next_seq : App → ℕ
next_seq a = (a.seq + 1) % 2 ^ 64

-- `encode` is the codecs' `Encode`, which the JSON and MessagePack libraries do.
module _ (encode : Codec → Outbound → Option Text) where
  unfoldable pub encode_all : Outbound → Option (Codec → Text)
  encode_all payload = both_frames (encode msg_pack payload) (encode json payload)

  -- `broadcastTo`, with the id of the frame, or `none` if it could not be encoded.
  unfoldable pub broadcast_to : App → ℕ → (ℕ → Outbound) → (ℕ → App → App) → App × Option ℕ
  broadcast_to a p build after =
      send_frames (record a { seq = next_seq a }) p after (encode_all (build (next_seq a)))
