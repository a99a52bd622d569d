-- ===== src/Server/State.antt =====
-- The structs of channel.go, membership.go, conn.go and init.go. A ring is what SeqRing promises
-- of itself: the frames broadcast so far, in order, and whether it was closed. A membership
-- holds where in it its subscription began; the subscription is closed when the membership goes.
use ws_chat.Base.{ℕ, Bool, true, false, Option, List, [], ◌∷◌, ◌++◌, eqb, if◌then◌else◌, Text}
use ws_chat.Base.Dict.{Dict}
use ws_chat.Hook.{Identity, Message, Private, Sanction}
use ws_chat.Proto.Codec.{Codec}
use ws_chat.Config.{Config}
use ws_chat.RateLimit.{Bucket}
use ws_chat.History.{Memory}
use ws_chat.Moderation.{Store}

pub record Ring : Type 0 where
  pub log : List Text
  pub shut : Bool

abbrev pub new_ring : Ring
new_ring = record { log = []; shut = false }

-- `Broadcast` and `Close` of a ring.
abbrev pub send_ring : Text → Ring → Ring
send_ring frame r = if r.shut then r else record r { log = r.log ++ frame ∷ [] }

abbrev pub close_ring : Ring → Ring
close_ring r = record r { shut = true }

-- `bcs` has a ring for every codec, and `members` a pointer for every nick.
pub record Channel : Type 0 where
  pub name : Text
  pub rings : Codec → Ring
  pub limit : Option Bucket
  pub members : Dict Text ℕ

pub record Membership : Type 0 where
  pub stamp : ℕ
  pub chan : ℕ
  pub start : ℕ

-- A socket: open, closed with a reason that was given to `close`, or cut off without one.
pub data Socket : Type 0 where
  live cut_off : Socket
  closing : Text → Socket

-- `Close` of a socket, which sends a reason only where nothing closed it before, and `CloseNow`.
abbrev pub close_socket : Text → Socket → Socket
close_socket reason live = closing reason
close_socket reason cut_off = cut_off
close_socket reason (closing first) = closing first

abbrev pub cut : Socket → Socket
cut live = cut_off
cut cut_off = cut_off
cut (closing first) = closing first

pub record Conn : Type 0 where
  pub identity : Identity
  pub codec : Codec
  pub memberships : Dict Text Membership
  pub limit : Option ℕ
  pub priv : List Text
  pub sent : List Text
  pub socket : Socket

-- What waits for the Recorder and the Sanctions hook.
pub data Record : Type 0 where
  of_message : Message → Record
  of_private : Private → Record
  of_sanction : Sanction → Record

pub record App : Type 0 where
  pub cfg : Config
  pub conns : Dict Text ℕ
  pub channels : Dict Text ℕ
  pub conn_at : ℕ → Conn
  pub chan_at : ℕ → Channel
  pub bucket_at : ℕ → Option Bucket
  pub next : ℕ
  pub seq : ℕ
  pub store : Store
  pub hist : Memory Message
  pub records : List Record
  pub dropped : ℕ

-- A write through a pointer.
abbrev pub set_at {ℓ} : {A : Type ℓ} → ℕ → A → (ℕ → A) → ℕ → A
set_at p v f q = if eqb p q then v else f q

abbrev pub set_chan : ℕ → Channel → App → App
set_chan p ch a = record a { chan_at = set_at p ch a.chan_at }

abbrev pub set_conn : ℕ → Conn → App → App
set_conn p c a = record a { conn_at = set_at p c a.conn_at }

-- `close` of a connection, and `CloseNow` of its socket.
abbrev pub close_conn : Text → ℕ → App → App
close_conn reason c a =
    set_conn c (record (a.conn_at c) { socket = close_socket reason (a.conn_at c).socket }) a

abbrev pub cut_conn : ℕ → App → App
cut_conn c a = set_conn c (record (a.conn_at c) { socket = cut (a.conn_at c).socket }) a
