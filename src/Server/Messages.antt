-- ===== src/Server/Messages.antt =====
-- init.go and conn.go: messages on their way to the ring, the history and the client. The history
-- is the built-in one, which serves when no History hook is set.
use ws_chat.Base.{ℕ, ◌/◌, Option, none, some, List, [], ◌∷◌, ◌++◌, map, ltb, if◌then◌else◌, Text}
use ws_chat.Hook.{Identity, Message}
use ws_chat.Config.{bound}
use ws_chat.History.{append, recent}
use ws_chat.Proto.Frame.{
  Outbound, out_msg, out_backlog, out_err, Msg, new_msg, new_backlog, new_err,
}
use ws_chat.Server.State.{App, set_conn}
use ws_chat.Server.Env.{Env}
use ws_chat.Server.Channels.{broadcast_to}

-- `UnixMilli`.
abbrev pub unix_milli : ℕ → ℕ
unix_milli t = t / 1000000

unfoldable pub wire_msg : Text → Message → Msg
wire_msg channel m = new_msg (record {
  verb = [];
  channel = channel;
  id = m.id;
  nick = m.from.nick;
  body = m.body;
  timestamp = unix_milli m.at;
  roles = m.from.roles;
  attrs = m.from.attrs;
})

unfoldable pub backlog : App → Text → List Msg
backlog a channel =
    let limit = bound a.cfg.backlog in
    if ltb limit 1 then [] else map (wire_msg channel) (recent a.hist channel limit)

abbrev pub sent_message : ℕ → Identity → Text → ℕ → Message
sent_message id from body at = record { id = id; from = from; body = body; at = at }

module _ (env : Env) where
  unfoldable pub broadcast_msg : App → ℕ → Identity → Text → ℕ → App × Option ℕ
  broadcast_msg a p from body at =
      let name = (a.chan_at p).name in
      broadcast_to env.encode a p (λ id. out_msg (wire_msg name (sent_message id from body at)))
        (λ id b. record b { hist = append b.hist name (sent_message id from body at) })

  -- A frame that could not be encoded is only logged.
  abbrev pub write_frame : ℕ → App → Option Text → App
  write_frame c a none = a
  write_frame c a (some frame) =
      set_conn c (record (a.conn_at c) { sent = (a.conn_at c).sent ++ frame ∷ [] }) a

  unfoldable pub send_frame : ℕ → Outbound → App → App
  send_frame c payload a = write_frame c a (env.encode (a.conn_at c).codec payload)

  unfoldable pub reply : ℕ → Text → App → App
  reply c description a = send_frame c (out_err (new_err description)) a

  unfoldable pub send_backlog : ℕ → Text → App → App
  send_backlog c channel a =
      if ltb (bound a.cfg.backlog) 1
      then a
      else send_frame c (out_backlog (new_backlog channel (backlog a channel))) a
