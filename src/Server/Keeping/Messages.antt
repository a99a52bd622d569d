-- ===== src/Server/Keeping/Messages.antt =====
-- Messages and private messages.
use ws_chat.Base.{ℕ, not, Option, none, some, [], ltb, Text, length, ◌==◌, text_keyed, if_rule}
use ws_chat.Hook.{Message, Private, key}
use ws_chat.Config.{bound}
use ws_chat.Moderation.{global, muted}
use ws_chat.Proto.Command.{Command}
use ws_chat.Server.State.{Membership, Record, App}
use ws_chat.Server.Env.{Env}
use ws_chat.Server.Channels.{nick}
use ws_chat.Server.Handlers.{
  enqueue, record_message, record_private, spend_conn, spend_chan, passes, msg_sent, msg_paid,
  msg_joined, handle_msg, deliver, priv_echo, priv_frame_made, priv_found, priv_paid, handle_priv,
  names_joined, handle_names,
}
use ws_chat.Server.Keeping.{Keeps}
use ws_chat.Server.Keeping.Joining.{send_frame-P, reply-P, write_frame-P}

module _ (env : Env) (P : App → Type 0) (k : Keeps env P) where
  pub enqueue-P : (r : Record) (a : App) → P a → P (enqueue r a)
  enqueue-P r a h = k.queues r a h

  record_message-P : (m : Message) (a : App) → P a → P (record_message env m a)
  unfolding record_message
  record_message-P m a h = if_rule P env.has_recorder (λ _. enqueue-P _ a h) (λ _. h)

  record_private-P : (p : Private) (a : App) → P a → P (record_private env p a)
  unfolding record_private
  record_private-P p a h = if_rule P env.has_recorder (λ _. enqueue-P _ a h) (λ _. h)

  msg_sent-P :
      (now c : ℕ) (body : Text) (a : App) (id : Option ℕ) → P a → P (msg_sent env now c body a id)
  msg_sent-P now c body a none h = reply-P env P k c _ a h
  msg_sent-P now c body a (some id) h = record_message-P _ a h

  msg_paid-P :
      (now c : ℕ) (name body : Text) (m : Membership) (a : App)
      → P a
      → P (msg_paid env now c name body m a)
  unfolding msg_paid
  msg_paid-P now c name body m a h =
      let who = (a.conn_at c).identity in
      if_rule P (muted a.store now name (key who)).holds (λ _. reply-P env P k c _ a h)
        λ _.
          if_rule P (not (passes env a who body).0) (λ _. reply-P env P k c _ a h)
            λ _. msg_sent-P now c body _ _ (k.says m.chan who body now a h)

  msg_joined-P :
      (now c : ℕ) (name body : Text) (a : App) (m : Option Membership)
      → P a
      → P (msg_joined env now c name body a m)
  unfolding msg_joined
  msg_joined-P now c name body a none h = reply-P env P k c _ a h
  msg_joined-P now c name body a (some m) h =
      let mine = spend_conn a now c in
      let paid = k.pays now c a h in
      let both = k.drains now m.chan mine.0 paid in
      if_rule P (not mine.1) (λ _. reply-P env P k c _ mine.0 paid)
        λ _.
          if_rule P (not (spend_chan mine.0 now m.chan).1) (λ _. reply-P env P k c _ _ both)
            λ _. msg_paid-P now c name body m _ both

  pub handle_msg-P : (now c : ℕ) (cmd : Command) (a : App) → P a → P (handle_msg env a now c cmd)
  unfolding handle_msg
  handle_msg-P now c cmd a h =
      if_rule P (cmd.body == []) (λ _. reply-P env P k c _ a h)
        λ _.
          if_rule P (ltb (bound a.cfg.max_message) (length cmd.body)) (λ _. reply-P env P k c _ a h)
            λ _. msg_joined-P now c _ cmd.body a _ h

  priv_echo-P :
      (now c t id : ℕ) (body : Text) (a : App) (echo : Option Text)
      → P a
      → P (priv_echo env now c t id body a echo)
  priv_echo-P now c t id body a none h = h
  priv_echo-P now c t id body a (some echo) h =
      record_private-P _ _ (write_frame-P env P k c a (some echo) h)

  priv_frame_made-P :
      (now c t id : ℕ) (to_nick body : Text) (a : App) (frame : Option Text)
      → P a
      → P (priv_frame_made env now c t id to_nick body a frame)
  priv_frame_made-P now c t id to_nick body a none h = reply-P env P k c _ a h
  priv_frame_made-P now c t id to_nick body a (some frame) h =
      if_rule P (not (deliver env t frame a).1)
        (λ _. reply-P env P k c _ _ (k.delivers t frame a h))
        λ _. priv_echo-P now c t id body _ _ (k.delivers t frame a h)

  priv_found-P :
      (now c : ℕ) (to_nick body : Text) (a : App) (t : Option ℕ)
      → P a
      → P (priv_found env now c to_nick body a t)
  priv_found-P now c to_nick body a none h = reply-P env P k c _ a h
  priv_found-P now c to_nick body a (some t) h =
      priv_frame_made-P now c t _ to_nick body _ _ (k.counts a h)

  priv_paid-P :
      (now c : ℕ) (to_nick body : Text) (a : App) → P a → P (priv_paid env now c to_nick body a)
  unfolding priv_paid
  priv_paid-P now c to_nick body a h =
      let who = (a.conn_at c).identity in
      if_rule P (muted a.store now global (key who)).holds (λ _. reply-P env P k c _ a h)
        λ _.
          if_rule P (not (passes env a who body).0) (λ _. reply-P env P k c _ a h)
            λ _. priv_found-P now c to_nick body a _ h

  pub handle_priv-P : (now c : ℕ) (cmd : Command) (a : App) → P a → P (handle_priv env a now c cmd)
  unfolding handle_priv
  handle_priv-P now c cmd a h =
      let paid = k.pays now c a h in
      if_rule P (cmd.body == []) (λ _. reply-P env P k c _ a h)
        λ _.
          if_rule P (ltb (bound a.cfg.max_message) (length cmd.body)) (λ _. reply-P env P k c _ a h)
            λ _.
              if_rule P (cmd.nick == nick a c) (λ _. reply-P env P k c _ a h)
                λ _.
                  if_rule P (not (spend_conn a now c).1) (λ _. reply-P env P k c _ _ paid)
                    λ _. priv_paid-P now c cmd.nick cmd.body _ paid

  names_joined-P :
      (c : ℕ) (name : Text) (a : App) (m : Option Membership)
      → P a
      → P (names_joined env c name a m)
  names_joined-P c name a none h = reply-P env P k c _ a h
  names_joined-P c name a (some m) h = send_frame-P env P k c _ a h

  pub handle_names-P : (c : ℕ) (cmd : Command) (a : App) → P a → P (handle_names env a c cmd)
  unfolding handle_names
  handle_names-P c cmd a h = names_joined-P c _ a _ h
