-- ===== src/Server/Pumps.antt =====
-- membership.go and conn.go: the goroutines that write to a socket what its channels broadcast and what
-- others sent in private. A write may fail at any point; `writes` is how many of a batch still get out,
-- `none` if all do.
pub mod Onward
pub mod Standing
pub mod Delivery
pub mod Progress
pub mod Stopping
pub mod Reached
pub mod Swept
mod Tests
use ws_chat.Base.{
  ℕ, ◌+◌, ◌-◌, ◌≤◌, ◌<◌, ◌≡◌, Bool, true, false, Option, none, some, ◌⊎◌, List, [], ◌∷◌, ◌++◌, ltb,
  eqb, if◌then◌else◌, length, take, drop, get_elem?, update, Text, bytes, text_keyed,
}
use ws_chat.Base.Dict.{lookup}
use ws_chat.Config.{bound}
use ws_chat.Broadcast.Capacity.{ring_capacity}
use ws_chat.Proto.Codec.{Codec}
use ws_chat.Server.State.{Ring, Membership, App, set_conn, close_conn, cut_conn}
use ws_chat.Server.Env.{Env}
use ws_chat.Server.Membership.{is_mine}
use ws_chat.Server.Run.{Event, on_event}

-- A `channelPump`: its connection, its membership with the codec of the ring it reads, what it has
-- written, the next sequence number of its subscription, and whether it returned.
pub record Pump : Type 0 where
  pub who : ℕ
  pub name : Text
  pub member : Membership
  pub codec : Codec
  pub wrote : List Text
  pub pos : ℕ
  pub stopped : Bool

abbrev pub ring_of : App → Pump → Ring
ring_of a pu = (a.chan_at pu.member.chan).rings pu.codec

-- What `Recv` returns, or that it blocks.
pub data Received : Type 0 where
  got : List Text → Received
  too_slow at_end blocked : Received

abbrev pub overrun : Option ℕ → ℕ → Bool
overrun none n = false
overrun (some slots) n = ltb slots n

-- `Recv` on the ring, by what SeqRing promises, with the capacity that was allocated for it.
unfoldable pub recv_ring : Option ℕ → ℕ → Ring → ℕ → Received
recv_ring slots size r pos =
    let pending = length r.log - pos in
    if eqb pending 0
    then (if r.shut then at_end else blocked)
    else (if overrun slots pending then too_slow else got (take size (drop pos r.log)))

-- A subscription is closed with its membership.
unfoldable pub recv : App → Pump → Received
recv a pu =
    let mine = lookup pu.name (a.conn_at pu.who).memberships in
    if is_mine pu.member.stamp mine
    then recv_ring (ring_capacity (bound a.cfg.capacity)) (bound a.cfg.write_batch) (ring_of a pu)
        pu.pos
    else at_end

-- Frames written to the socket of a connection.
abbrev pub write_out : ℕ → List Text → App → App
write_out c out a = set_conn c (record (a.conn_at c) { sent = (a.conn_at c).sent ++ out }) a

-- `writeBatch`: what gets out, and whether it all does.
abbrev pub written : Option ℕ → List Text → List Text × Bool
written none batch = (batch, true)
written (some n) batch = (take n batch, false)

-- `uncork` drops the socket after a failed write.
abbrev pub uncorked : Bool → ℕ → App → App
uncorked true c a = a
uncorked false c a = cut_conn c a

abbrev pub stop : Pump → Pump
stop pu = record pu { stopped = true }

-- One round of `channelPump`, after `Recv`.
unfoldable pub on_received : Option ℕ → App → Pump → Received → App × Pump
on_received writes a pu blocked = (a, pu)
on_received writes a pu at_end = (a, stop pu)
on_received writes a pu too_slow = (close_conn (bytes "too slow") pu.who a, stop pu)
on_received writes a pu (got batch) =
    let (out, all) = written writes batch in
    (
      uncorked all pu.who (write_out pu.who out a),
      record pu {
        wrote = pu.wrote ++ out;
        pos = pu.pos + length batch;
        stopped = if all then false else true;
      },
    )

-- One round of `channelPump`, unless it returned.
unfoldable pub pump_round : Option ℕ → App → Pump → App × Pump
pump_round writes a pu =
    let round = on_received writes a pu (recv a pu) in if pu.stopped then (a, pu) else round

-- One round of `privPump`: a frame that cannot be written is lost. The code's pump returns then, so
-- that the sequences of turns below include more than those of the code.
abbrev pub priv_out : ℕ → Bool → App → List Text → App
priv_out c ok a [] = a
priv_out c ok a (frame ∷ rest) =
    let taken = set_conn c (record (a.conn_at c) { priv = rest }) a in
    if ok then write_out c (frame ∷ []) taken else cut_conn c taken

unfoldable pub priv_round : ℕ → Bool → App → App
priv_round c ok a = priv_out c ok a (a.conn_at c).priv

-- The server with its pumps: an event of the server, a pump that `join` starts for a membership, and
-- rounds of the pumps.
pub data Turn : Type 0 where
  serves : ℕ → Event → Turn
  starts : ℕ → Text → Turn
  pumps : ℕ → Option ℕ → Turn
  privs : ℕ → Bool → Turn

pub record Floor : Type 0 where
  pub app : App
  pub running : List Pump

abbrev pub new_pump : App → ℕ → Text → Membership → Pump
new_pump a c name m = record {
  who = c;
  name = name;
  member = m;
  codec = (a.conn_at c).codec;
  wrote = [];
  pos = m.start;
  stopped = false;
}

abbrev pub started : App → ℕ → Text → Option Membership → List Pump → List Pump
started a c name none ps = ps
started a c name (some m) ps = ps ++ new_pump a c name m ∷ []

abbrev pub pumped : ℕ → Option ℕ → Floor → Option Pump → Floor
pumped i writes f none = f
pumped i writes f (some pu) =
    let (a, pu') = pump_round writes f.app pu in
    record { app = a; running = update i pu' f.running }

-- A pump's frames are a stretch of its ring, from where its subscription began up to where the
-- subscription is, unless the pump returned before.
abbrev pub IsStretchOf : App → Pump → Type 0
IsStretchOf a pu =
    (pu.member.chan < a.next)
    × (pu.member.start + length pu.wrote ≤ pu.pos)
    × (pu.pos ≤ length (ring_of a pu).log)
    × (pu.wrote ≡ take (length pu.wrote) (drop pu.member.start (ring_of a pu).log))
    × ((pu.stopped ≡ true) ⊎ (pu.pos ≡ pu.member.start + length pu.wrote))

module _ (env : Env) where
  unfoldable pub on_turn : Turn → Floor → Floor
  on_turn (serves now e) f = record f { app = on_event env now e f.app }
  on_turn (starts c name) f = record f {
    running = started f.app c name (lookup name (f.app.conn_at c).memberships) f.running;
  }
  on_turn (pumps i writes) f = pumped i writes f (get_elem? f.running i)
  on_turn (privs c ok) f = record f { app = priv_round c ok f.app }

  unfoldable pub on_turns : List Turn → Floor → Floor
  on_turns [] f = f
  on_turns (t ∷ ts) f = on_turns ts (on_turn t f)
