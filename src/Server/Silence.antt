-- ===== src/Server/Silence.antt =====
-- A message that is refused reaches nobody.
use ws_chat.Base.{
  ℕ, ◌<◌, ◌≡◌, ◌⊎◌, refl, sym, subst, true, false, not, Option, none, some, [], arith, ltb, Text,
  length, ◌==◌, text_keyed, same_text_iff, if_rule,
}
use ws_chat.Base.Dict.{lookup}
use ws_chat.Hook.{key}
use ws_chat.Config.{bound}
use ws_chat.Moderation.{muted}
use ws_chat.Proto.Command.{Command}
use ws_chat.Server.State.{Membership, App}
use ws_chat.Server.Env.{Env}
use ws_chat.Server.Names.{normalise}
use ws_chat.Server.Messages.{reply, send_frame, write_frame}
use ws_chat.Server.Alike.{Unheard, Alike, spend_at-Alike, spend_chan-Alike}
use ws_chat.Server.Handlers.{spend_conn, spend_chan, passes, msg_paid, msg_joined, handle_msg}

module _ (env : Env) where
  write_frame-Unheard :
      (c : ℕ) (a b : App) (frame : Option Text)
      → Unheard a b
      → Unheard a (write_frame env c b frame)
  write_frame-Unheard c a b none h = h
  write_frame-Unheard c a b (some frame) h = record { rings = h.rings; hist = h.hist }

  reply-Unheard : (c : ℕ) (code : Text) (a b : App) → Unheard a b → Unheard a (reply env c code b)
  unfolding reply send_frame
  reply-Unheard c code a b h = write_frame-Unheard c a b _ h

  -- The sender is muted in the channel (or everywhere), or a filter refuses the message.
  abbrev pub Barred : App → ℕ → ℕ → Text → Text → Type 0
  Barred a now c name body =
      ((muted a.store now name (key (a.conn_at c).identity)).holds ≡ true)
      ⊎ ((passes env a (a.conn_at c).identity body).0 ≡ false)

  Alike-Barred :
      (a b : App) (now c : ℕ) (name body : Text)
      → Alike a b
      → Barred a now c name body
      → Barred b now c name body
  unfolding passes
  Alike-Barred a b now c name body h bar =
      let s = h.store in let g = h.cfg in let w = h.conn_at c in rw (s, g, w) bar

  msg_paid-Unheard :
      (now c : ℕ) (name body : Text) (m : Membership) (a b : App)
      → Unheard a b
      → Barred b now c name body
      → Unheard a (msg_paid env now c name body m b)
  unfolding msg_paid
  msg_paid-Unheard now c name body m a b h bar =
      let who = (b.conn_at c).identity in
      if_rule (Unheard a) (muted b.store now name (key who)).holds (λ _. reply-Unheard c _ a b h)
        λ heard.
          if_rule (Unheard a) (not (passes env b who body).0) (λ _. reply-Unheard c _ a b h)
            (λ passed. absurd (ground arith))

  msg_joined-Unheard :
      (now c : ℕ) (name body : Text) (a : App) (m : Option Membership)
      → (m ≡ none) ⊎ Barred a now c name body
      → Unheard a (msg_joined env now c name body a m)
  unfolding msg_joined spend_conn
  msg_joined-Unheard now c name body a none bar =
      reply-Unheard c _ a a (record { rings = λ p c. refl; hist = refl })
  msg_joined-Unheard now c name body a (some m) bar =
      let mine = spend_at-Alike (a.conn_at c).limit now a in
      let both = spend_chan-Alike now m.chan a _ mine in
      let barred : Barred a now c name body = ground arith in
      if_rule (Unheard a) (not (spend_conn a now c).1) (λ _. reply-Unheard c _ a _ mine.unheard)
        λ _.
          if_rule (Unheard a) (not (spend_chan (spend_conn a now c).0 now m.chan).1)
            (λ _. reply-Unheard c _ a _ both.unheard)
            (λ _.
              msg_paid-Unheard now c name body m a _ both.unheard
                (Alike-Barred a _ now c name body both barred))

  -- A message that is empty or too long, or whose sender is not in the channel or is muted there or
  -- everywhere, or that a filter refuses: it reaches no ring, of this channel or another, and no history.
  pub handle_msg-Unheard :
      (a : App) (now c : ℕ) (cmd : Command) (name : Text)
      → normalise env.is_space env.is_print a.cfg cmd.channel ≡ name
      → (cmd.body ≡ [])
        ⊎ ((bound a.cfg.max_message < length cmd.body)
            ⊎ ((lookup name (a.conn_at c).memberships ≡ none) ⊎ Barred a now c name cmd.body))
      → Unheard a (handle_msg env a now c cmd)
  unfolding handle_msg
  handle_msg-Unheard a now c cmd name e bar =
      let same : Unheard a a = record { rings = λ p c. refl; hist = refl } in
      if_rule (Unheard a) (cmd.body == []) (λ _. reply-Unheard c _ a a same)
        λ full.
          if_rule (Unheard a) (ltb (bound a.cfg.max_message) (length cmd.body))
            (λ _. reply-Unheard c _ a a same)
            λ fits.
              let rest : (lookup name (a.conn_at c).memberships ≡ none)
                  ⊎ Barred a now c name cmd.body =
                ground (arith, same_text_iff cmd.body []) in
              subst
                (λ n.
                  Unheard a
                    (msg_joined env now c n cmd.body a (lookup n (a.conn_at c).memberships)))
                (sym e) (msg_joined-Unheard now c name cmd.body a _ rest)
