-- ===== src/Server/Keeping.antt =====
-- The writes of the server's handlers, as the interface of an invariant: what keeps each of them is
-- kept by every command, and so in every run.
pub mod Joining
pub mod Messages
pub mod Commands
use ws_chat.Base.{ℕ, ◌+◌, ◌≡◌, Bool, Option, none, [], Text}
use ws_chat.Hook.{Identity}
use ws_chat.Moderation.{Store}
use ws_chat.Proto.Codec.{Codec}
use ws_chat.Proto.Frame.{Outbound}
use ws_chat.Server.State.{Membership, Record, Socket, App, set_conn}
use ws_chat.Server.Env.{Env}
use ws_chat.Server.Channels.{broadcast_to, next_seq, sweep_channels, close_channels}
use ws_chat.Server.Messages.{write_frame, broadcast_msg}
use ws_chat.Server.Membership.{quiet, leave, drop_membership, join_refused, join_enter}
use ws_chat.Server.Handlers.{enqueue, spend_conn, spend_chan, deliver, register, unregister}
use ws_chat.Server.Run.{blank_conn}

pub record Keeps (env : Env) (P : App → Type 0) : Type 0 where
  pub sends : (c : ℕ) (a : App) (frame : Option Text) → P a → P (write_frame env c a frame)
  pub tells :
      (a : App) (p : ℕ) (build : ℕ → Outbound) → P a → P (broadcast_to env.encode a p build quiet).0
  pub says :
      (p : ℕ) (from : Identity) (body : Text) (at : ℕ) (a : App)
      → P a
      → P (broadcast_msg env a p from body at).0
  -- a join that passed its checks
  pub enters :
      (now c : ℕ) (name : Text) (force : Bool) (a : App)
      → join_refused env a now c name force ≡ none
      → P a
      → P (join_enter env a c name).0
  pub drops : (c : ℕ) (name : Text) (a : App) → P a → P (drop_membership c name a)
  pub leaves : (c : ℕ) (m : Membership) (a : App) → P a → P (leave c m a)
  pub clears :
      (c : ℕ) (a : App) → P a → P (set_conn c (record (a.conn_at c) { memberships = [] }) a)
  pub shuts :
      (t : ℕ) (end : Socket) (a : App)
      → P a
      → P (set_conn t (record (a.conn_at t) { socket = end }) a)
  pub queues : (r : Record) (a : App) → P a → P (enqueue r a)
  pub pays : (now c : ℕ) (a : App) → P a → P (spend_conn a now c).0
  pub drains : (now p : ℕ) (a : App) → P a → P (spend_chan a now p).0
  pub delivers : (t : ℕ) (frame : Text) (a : App) → P a → P (deliver env t frame a).0
  pub counts : (a : App) → P a → P (record a { seq = next_seq a })
  pub moderates : (s : Store) (a : App) → P a → P (record a { store = s })
  pub accepts :
      (who : Identity) (codec : Codec) (limit : Option ℕ) (a : App)
      → P a
      → P (set_conn a.next (blank_conn codec who limit) (record a { next = a.next + 1 }))
  pub registers : (c : ℕ) (a : App) → P a → P (register c a)
  pub unregisters : (c : ℕ) (a : App) → P a → P (unregister c a)
  pub sweeps : (a : App) → P a → P (sweep_channels a).0
  pub closes : (a : App) → P a → P (close_channels a)
