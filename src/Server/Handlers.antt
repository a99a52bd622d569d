-- ===== src/Server/Handlers.antt =====
-- conn.go and hooks.go: messages, private messages and the names of a room. Metrics are left out.
use ws_chat.Base.{
  ℕ, ◌+◌, Bool, true, false, not, Option, none, some, [], ◌∷◌, ◌++◌, ltb, if◌then◌else◌, Text,
  length, ◌==◌, text_keyed,
}
use ws_chat.Base.Dict.{lookup, insert, delete}
use ws_chat.Hook.{Identity, Message, Private, key}
use ws_chat.Config.{bound}
use ws_chat.Filter.{chain, allow, utf8_allow, zalgo_allow}
use ws_chat.RateLimit.{allow_at}
use ws_chat.Moderation.{global, muted}
use ws_chat.Proto.Command.{
  Command, err_empty, err_too_long, err_not_joined, err_throttled, err_chan_throttled, err_muted,
  err_protocol, err_self, err_no_such, err_backlog,
}
use ws_chat.Proto.Frame.{Outbound, out_priv, out_names, new_priv, new_names}
use ws_chat.Server.State.{
  Membership, Record, of_message, of_private, App, set_at, set_conn, set_chan,
}
use ws_chat.Server.Env.{Env}
use ws_chat.Server.Names.{normalise}
use ws_chat.Server.Channels.{nick, is_at, member_names, next_seq}
use ws_chat.Server.Messages.{
  unix_milli, broadcast_msg, sent_message, send_frame, reply, write_frame,
}

-- `register`, `unregister` and `lookup`.
unfoldable pub register : ℕ → App → App
register c a = record a { conns = insert (nick a c) c a.conns }

unfoldable pub unregister : ℕ → App → App
unregister c a =
    if is_at c (lookup (nick a c) a.conns)
    then record a { conns = delete (nick a c) a.conns }
    else a

abbrev pub record_queue : ℕ
record_queue = 1024

-- `record`: a full queue drops what it is given.
unfoldable pub enqueue : Record → App → App
enqueue r a =
    if ltb (length a.records) record_queue
    then record a { records = a.records ++ r ∷ [] }
    else record a { dropped = a.dropped + 1 }

-- A token of the sender's bucket, which several connections may share; no bucket, no limit.
abbrev pub spend_at : Option ℕ → App → ℕ → App × Bool
spend_at none a now = (a, true)
spend_at (some b) a now =
    let spent = allow_at (a.bucket_at b) now in
    (record a { bucket_at = set_at b spent.0 a.bucket_at }, spent.1)

unfoldable pub spend_conn : App → ℕ → ℕ → App × Bool
spend_conn a now c = spend_at (a.conn_at c).limit a now

unfoldable pub spend_chan : App → ℕ → ℕ → App × Bool
spend_chan a now p =
    let spent = allow_at (a.chan_at p).limit now in
    (set_chan p (record (a.chan_at p) { limit = spent.0 }) a, spent.1)

module _ (env : Env) where
  -- `app.filters`, and the message against it.
  unfoldable pub passes : App → Identity → Text → Bool × Text
  passes a from body =
      allow
        (chain (
          some utf8_allow
          ∷ some (zalgo_allow env.is_mark (bound a.cfg.max_diacritics))
          ∷ env.filter_hook
          ∷ []))
        from body

  unfoldable pub record_message : Message → App → App
  record_message m a = if env.has_recorder then enqueue (of_message m) a else a

  unfoldable pub record_private : Private → App → App
  record_private p a = if env.has_recorder then enqueue (of_private p) a else a

  -- `handleMsg` after the broadcast.
  abbrev pub msg_sent : ℕ → ℕ → Text → App → Option ℕ → App
  msg_sent now c body a none = reply env c err_protocol a
  msg_sent now c body a (some id) =
      record_message (sent_message id (a.conn_at c).identity body now) a

  -- `handleMsg` once the sender's and the channel's tokens were spent.
  unfoldable pub msg_paid : ℕ → ℕ → Text → Text → Membership → App → App
  msg_paid now c name body m a =
      let who = (a.conn_at c).identity in
      let verdict = passes a who body in
      if (muted a.store now name (key who)).holds
      then reply env c err_muted a
      else (if not verdict.0
          then reply env c verdict.1 a
          else (let done = broadcast_msg env a m.chan who body now in
              msg_sent now c body done.0 done.1))

  -- `handleMsg` in a channel that the sender is in.
  unfoldable pub msg_joined : ℕ → ℕ → Text → Text → App → Option Membership → App
  msg_joined now c name body a none = reply env c err_not_joined a
  msg_joined now c name body a (some m) =
      let mine = spend_conn a now c in
      let room = spend_chan mine.0 now m.chan in
      if not mine.1
      then reply env c err_throttled mine.0
      else (if not room.1
          then reply env c err_chan_throttled room.0
          else msg_paid now c name body m room.0)

  unfoldable pub handle_msg : App → ℕ → ℕ → Command → App
  handle_msg a now c cmd =
      let name = normalise env.is_space env.is_print a.cfg cmd.channel in
      if cmd.body == []
      then reply env c err_empty a
      else (if ltb (bound a.cfg.max_message) (length cmd.body)
          then reply env c err_too_long a
          else msg_joined now c name cmd.body a (lookup name (a.conn_at c).memberships))

  -- `deliver`: into the recipient's queue, unless it is full.
  unfoldable pub deliver : ℕ → Text → App → App × Bool
  deliver t frame a =
      if ltb (length (a.conn_at t).priv) (bound a.cfg.priv_buffer)
      then (set_conn t (record (a.conn_at t) { priv = (a.conn_at t).priv ++ frame ∷ [] }) a, true)
      else (a, false)

  abbrev pub priv_frame : ℕ → Text → Text → ℕ → Bool → Identity → Outbound
  priv_frame id who body now sent shown = out_priv (
      new_priv (record {
        verb = [];
        id = id;
        nick = who;
        body = body;
        timestamp = unix_milli now;
        sent = sent;
        roles = shown.roles;
        attrs = shown.attrs;
      }))

  -- The echo, once the recipient has the message; without one nothing is recorded.
  abbrev pub priv_echo : ℕ → ℕ → ℕ → ℕ → Text → App → Option Text → App
  priv_echo now c t id body a none = a
  priv_echo now c t id body a (some echo) =
      record_private
        (record {
          id = id;
          from = (a.conn_at c).identity;
          to = (a.conn_at t).identity;
          body = body;
          at = now;
        })
        (write_frame env c a (some echo))

  abbrev pub priv_frame_made : ℕ → ℕ → ℕ → ℕ → Text → Text → App → Option Text → App
  priv_frame_made now c t id to_nick body a none = reply env c err_protocol a
  priv_frame_made now c t id to_nick body a (some frame) =
      let given = deliver t frame a in
      if not given.1
      then reply env c err_backlog given.0
      else priv_echo now c t id body given.0 (
          env.encode (a.conn_at c).codec
            (priv_frame id to_nick body now true (a.conn_at t).identity))

  abbrev pub priv_found : ℕ → ℕ → Text → Text → App → Option ℕ → App
  priv_found now c to_nick body a none = reply env c err_no_such a
  priv_found now c to_nick body a (some t) =
      let counted = record a { seq = next_seq a } in
      priv_frame_made now c t (next_seq a) to_nick body counted (
        env.encode (a.conn_at t).codec
          (priv_frame (next_seq a) (nick a c) body now false (a.conn_at c).identity))

  -- `handlePriv` once the sender's token was spent.
  unfoldable pub priv_paid : ℕ → ℕ → Text → Text → App → App
  priv_paid now c to_nick body a =
      let who = (a.conn_at c).identity in
      let verdict = passes a who body in
      if (muted a.store now global (key who)).holds
      then reply env c err_muted a
      else (if not verdict.0
          then reply env c verdict.1 a
          else priv_found now c to_nick body a (lookup to_nick a.conns))

  unfoldable pub handle_priv : App → ℕ → ℕ → Command → App
  handle_priv a now c cmd =
      let mine = spend_conn a now c in
      if cmd.body == []
      then reply env c err_empty a
      else (if ltb (bound a.cfg.max_message) (length cmd.body)
          then reply env c err_too_long a
          else (if cmd.nick == nick a c
              then reply env c err_self a
              else (if not mine.1
                  then reply env c err_throttled mine.0
                  else priv_paid now c cmd.nick cmd.body mine.0)))

  abbrev pub names_joined : ℕ → Text → App → Option Membership → App
  names_joined c name a none = reply env c err_not_joined a
  names_joined c name a (some m) =
      let there = member_names (a.chan_at m.chan) in
      send_frame env c (out_names (new_names name there.0 there.1)) a

  unfoldable pub handle_names : App → ℕ → Command → App
  handle_names a c cmd =
      let name = normalise env.is_space env.is_print a.cfg cmd.channel in
      names_joined c name a (lookup name (a.conn_at c).memberships)
