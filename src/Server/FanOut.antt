-- ===== src/Server/FanOut.antt =====
-- channel.go: broadcasts into the rings of one channel, each under `sendMu`, beside `sweepChannels` and
-- `closeChannels`, which close the rings one by one and do not take that lock. What is done with a
-- frame before it is sent, and the numbers of messages, are left to Server.
pub mod Order
mod Tests
use ws_chat.Base.{
  ℕ, Bool, true, false, ◌||◌, Option, none, some, List, [], ◌∷◌, if◌then◌else◌, Text,
}
use ws_chat.Proto.Frame.{Outbound}
use ws_chat.Proto.Codec.{Codec, msg_pack, json}
use ws_chat.Server.State.{Ring, new_ring, send_ring, close_ring, set_at}
use ws_chat.Server.Channels.{encode_all}

-- Where a caller of `broadcastTo` stands: outside, or with the lock, where `left` says which rings
-- have not got the frame.
pub data Stage : Type 0 where
  outside : Stage
  sending : Outbound → (Codec → Text) → (Codec → Bool) → Stage

pub record Hall : Type 0 where
  pub rings : Codec → Ring
  pub stage : ℕ → Stage
  pub lock : Option ℕ

abbrev pub is_codec : Codec → Codec → Bool
is_codec msg_pack msg_pack = true
is_codec msg_pack json = false
is_codec json msg_pack = false
is_codec json json = true

abbrev pub put_ring : Codec → Ring → (Codec → Ring) → Codec → Ring
put_ring k r rings c = if is_codec k c then r else rings c

abbrev pub sent_to : Codec → (Codec → Bool) → Codec → Bool
sent_to k left c = if is_codec k c then false else left c

-- The lock, once it is free, and the frames; a codec that fails gives the lock back.
unfoldable pub begin_send : ℕ → Outbound → Hall → Stage → Option ℕ → Option (Codec → Text) → Hall
begin_send i payload h (sending p frames left) lock made = h
begin_send i payload h outside (some holder) made = h
begin_send i payload h outside none none = h
begin_send i payload h outside none (some frames) = record h {
  stage = set_at i (sending payload frames (λ c. true)) h.stage;
  lock = some i;
}

-- `Broadcast` of one ring; the map of frames is ranged over in any order.
unfoldable pub send_one : ℕ → Codec → Hall → Stage → Hall
send_one i k h outside = h
send_one i k h (sending payload frames left) =
    if left k
    then record h {
      rings = put_ring k (send_ring (frames k) (h.rings k)) h.rings;
      stage = set_at i (sending payload frames (sent_to k left)) h.stage;
    }
    else h

unfoldable pub end_send : ℕ → Hall → Stage → Hall
end_send i h outside = h
end_send i h (sending payload frames left) =
    if left msg_pack || left json
    then h
    else record h { stage = set_at i outside h.stage; lock = none }

-- What happens next: a caller begins, sends to one ring or ends, or somebody closes a ring.
pub data Move : Type 0 where
  begins : ℕ → Outbound → Move
  sends : ℕ → Codec → Move
  ends : ℕ → Move
  closes : Codec → Move

module _ (encode : Codec → Outbound → Option Text) where
  unfoldable pub move : Move → Hall → Hall
  move (begins i payload) h = begin_send i payload h (h.stage i) h.lock (encode_all encode payload)
  move (sends i k) h = send_one i k h (h.stage i)
  move (ends i) h = end_send i h (h.stage i)
  move (closes k) h = record h { rings = put_ring k (close_ring (h.rings k)) h.rings }

  unfoldable pub moves : List Move → Hall → Hall
  moves [] h = h
  moves (m ∷ ms) h = moves ms (move m h)

abbrev pub new_hall : Hall
new_hall = record { rings = λ c. new_ring; stage = λ i. outside; lock = none }
