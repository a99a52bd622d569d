-- ===== src/Server/Heard.antt =====
-- A message that passes every check is heard.
use ws_chat.Base.{
  ℕ, ◌≡◌, ◌≢◌, refl, sym, ap, subst, ◌∙◌, true, false, not, Option, none, some, [], arith, ltb,
  Text, length, ◌==◌, text_keyed, same_text_iff, if_rule,
}
use ws_chat.Base.Dict.{lookup}
use ws_chat.Hook.{Identity, Message, key}
use ws_chat.Config.{bound}
use ws_chat.History.{append}
use ws_chat.Moderation.{muted}
use ws_chat.Proto.Command.{Command}
use ws_chat.Proto.Codec.{Codec}
use ws_chat.Proto.Frame.{out_msg}
use ws_chat.Server.State.{Membership, Record, App, send_ring}
use ws_chat.Server.Env.{Env}
use ws_chat.Server.Names.{normalise}
use ws_chat.Server.Channels.{encode_all, send_frames, broadcast_to, fan_out, next_seq}
use ws_chat.Server.Messages.{wire_msg, sent_message, broadcast_msg}
use ws_chat.Server.Alike.{Alike, spend_at-Alike, spend_chan-Alike}
use ws_chat.Server.Handlers.{
  spend_conn, spend_chan, passes, enqueue, record_queue, record_message, msg_sent, msg_paid,
  msg_joined, handle_msg,
}

-- One frame more in each ring of the channel at `p`, one message more in its history, and all that the
-- connections have as it was.
pub record Heard (p : ℕ) (frames : Codec → Text) (m : Message) (a b : App) : Type 0 where
  pub rings : (c : Codec) → (b.chan_at p).rings c ≡ send_ring (frames c) ((a.chan_at p).rings c)
  pub hist : b.hist ≡ append a.hist (a.chan_at p).name m
  pub seq : b.seq ≡ m.id
  pub conn_at : (c : ℕ) → b.conn_at c ≡ a.conn_at c
  pub cfg : b.cfg ≡ a.cfg

Alike-Heard :
    (p : ℕ) (frames : Codec → Text) (m : Message) (a b d : App)
    → Alike a b
    → Heard p frames m b d
    → Heard p frames m a d
Alike-Heard p frames m a b d k h = record {
  rings = λ c. h.rings c ∙ ap (send_ring (frames c)) (k.unheard.rings p c);
  hist =
      h.hist
      ∙ ap (λ n. append b.hist n m) (k.named p)
      ∙ ap (λ w. append w (a.chan_at p).name m) k.unheard.hist;
  seq = h.seq;
  conn_at = λ c. h.conn_at c ∙ k.conn_at c;
  cfg = h.cfg ∙ k.cfg;
}

enqueue-Heard :
    (p : ℕ) (frames : Codec → Text) (m : Message) (a b : App) (r : Record)
    → Heard p frames m a b
    → Heard p frames m a (enqueue r b)
unfolding enqueue
enqueue-Heard p frames m a b r h =
    if_rule (Heard p frames m a) (ltb (length b.records) record_queue)
      (λ _. record {
        rings = h.rings;
        hist = h.hist;
        seq = h.seq;
        conn_at = h.conn_at;
        cfg = h.cfg;
      })
      (λ _. record {
        rings = h.rings;
        hist = h.hist;
        seq = h.seq;
        conn_at = h.conn_at;
        cfg = h.cfg;
      })

module _ (env : Env) where
  -- What `who` says with `body` in the channel at `p`, as the next message.
  abbrev pub next_message : App → Identity → Text → ℕ → Message
  next_message a who body now = sent_message (next_seq a) who body now

  abbrev pub frames_of : App → ℕ → Message → Option (Codec → Text)
  frames_of a p m = encode_all env.encode (out_msg (wire_msg (a.chan_at p).name m))

  record_message-Heard :
      (p : ℕ) (frames : Codec → Text) (m n : Message) (a b : App)
      → Heard p frames m a b
      → Heard p frames m a (record_message env n b)
  unfolding record_message
  record_message-Heard p frames m n a b h =
      if_rule (Heard p frames m a) env.has_recorder (λ _. enqueue-Heard p frames m a b _ h) (λ _. h)

  -- The broadcast, and what `handleMsg` does after it.
  msg_sent-Heard :
      (now c p : ℕ) (body : Text) (a : App) (who : Identity) (made : Option (Codec → Text))
      (frames : Codec → Text)
      → made ≡ some frames
      → Heard p frames (next_message a who body now) a (
          let done =
            send_frames
              (record a { seq = next_seq a })
              p
              (λ id b. record b {
                hist = append b.hist (a.chan_at p).name (sent_message id who body now);
              })
              made in
          msg_sent env now c body done.0 done.1)
  unfolding send_frames fan_out
  msg_sent-Heard now c p body a who none frames e = absurd (ground arith)
  msg_sent-Heard now c p body a who (some made) frames e =
      let same : made ≡ frames = ground arith in
      record_message-Heard p frames (next_message a who body now) _ a _ (record {
        rings = λ codec. ground arith;
        hist = refl;
        seq = refl;
        conn_at = λ d. refl;
        cfg = refl;
      })

  -- The sender may talk in the channel, and no filter minds.
  abbrev pub Free : App → ℕ → ℕ → Text → Text → Type 0
  Free a now c name body =
      ((muted a.store now name (key (a.conn_at c).identity)).holds ≡ false)
      × ((passes env a (a.conn_at c).identity body).0 ≡ true)

  msg_paid-Heard :
      (now c : ℕ) (name body : Text) (m : Membership) (b : App) (frames : Codec → Text)
      → Free b now c name body
      → frames_of b m.chan (next_message b (b.conn_at c).identity body now) ≡ some frames
      → Heard m.chan frames
          (next_message b (b.conn_at c).identity body now)
          b
          (msg_paid env now c name body m b)
  unfolding msg_paid broadcast_msg broadcast_to
  msg_paid-Heard now c name body m b frames free e =
      let who = (b.conn_at c).identity in
      if_rule (Heard m.chan frames (next_message b who body now) b)
        (muted b.store now name (key who)).holds (λ bad. absurd (ground arith))
        λ _.
          if_rule (Heard m.chan frames (next_message b who body now) b)
            (not (passes env b who body).0) (λ bad. absurd (ground arith))
            λ _. msg_sent-Heard now c m.chan body b who _ frames e

  Alike-Free :
      (a b : App) (now c : ℕ) (name body : Text)
      → Alike a b
      → Free a now c name body
      → Free b now c name body
  unfolding passes
  Alike-Free a b now c name body h free =
      let s = h.store in let g = h.cfg in let w = h.conn_at c in rw (s, g, w) free

  Alike-frames :
      (a b : App) (now c p : ℕ) (body : Text) (frames : Codec → Text)
      → Alike a b
      → frames_of a p (next_message a (a.conn_at c).identity body now) ≡ some frames
      → frames_of b p (next_message b (b.conn_at c).identity body now) ≡ some frames
  Alike-frames a b now c p body frames h e =
      let n = h.named p in let q = h.seq in let w = h.conn_at c in rw (n, q, w) e

  msg_joined-Heard :
      (now c : ℕ) (name body : Text) (a : App) (m : Membership) (frames : Codec → Text)
      → (spend_conn a now c).1 ≡ true
      → (spend_chan (spend_conn a now c).0 now m.chan).1 ≡ true
      → Free a now c name body
      → frames_of a m.chan (next_message a (a.conn_at c).identity body now) ≡ some frames
      → Heard m.chan frames
          (next_message a (a.conn_at c).identity body now)
          a
          (msg_joined env now c name body a (some m))
  unfolding msg_joined spend_conn
  msg_joined-Heard now c name body a m frames mine room free e =
      let said = next_message a (a.conn_at c).identity body now in
      let paid = (spend_chan (spend_conn a now c).0 now m.chan).0 in
      let both : Alike a paid =
        spend_chan-Alike now m.chan a _ (spend_at-Alike (a.conn_at c).limit now a) in
      let same : next_message paid (paid.conn_at c).identity body now ≡ said =
        let q = both.seq in let w = both.conn_at c in rw (q, w) in
      if_rule (Heard m.chan frames said a) (not (spend_conn a now c).1)
        (λ bad. absurd (ground arith))
        λ _.
          if_rule (Heard m.chan frames said a)
            (not (spend_chan (spend_conn a now c).0 now m.chan).1) (λ bad. absurd (ground arith))
            λ _. Alike-Heard m.chan frames said a paid _ both (
              subst (λ n. Heard m.chan frames n paid (msg_paid env now c name body m paid)) same
                (msg_paid-Heard now c name body m paid frames
                  (Alike-Free a paid now c name body both free)
                  (Alike-frames a paid now c m.chan body frames both e)))

  -- A message that is neither empty nor too long, from a member with a token left, where the channel
  -- has one too, who is not muted and whom no filter refuses, and which both codecs can encode: each
  -- ring of the channel gets its encoding, once, unless it is closed; the history gets the message;
  -- its id is the next one; and what every connection holds and was sent is as it was.
  pub handle_msg-Heard :
      (a : App) (now c : ℕ) (cmd : Command) (name : Text) (m : Membership) (frames : Codec → Text)
      → normalise env.is_space env.is_print a.cfg cmd.channel ≡ name
      → cmd.body ≢ []
      → (ltb (bound a.cfg.max_message) (length cmd.body) ≡ false)
      → lookup name (a.conn_at c).memberships ≡ some m
      → (spend_conn a now c).1 ≡ true
      → (spend_chan (spend_conn a now c).0 now m.chan).1 ≡ true
      → Free a now c name cmd.body
      → frames_of a m.chan (next_message a (a.conn_at c).identity cmd.body now) ≡ some frames
      → Heard m.chan frames
          (next_message a (a.conn_at c).identity cmd.body now)
          a
          (handle_msg env a now c cmd)
  unfolding handle_msg
  handle_msg-Heard a now c cmd name m frames there full fits member mine room free e =
      let said = next_message a (a.conn_at c).identity cmd.body now in
      if_rule (Heard m.chan frames said a) (cmd.body == [])
        (λ bad. absurd (ground (arith, same_text_iff cmd.body [])))
        λ _.
          if_rule (Heard m.chan frames said a) (ltb (bound a.cfg.max_message) (length cmd.body))
            (λ bad. absurd (ground arith))
            λ _.
              subst
                (λ n.
                  Heard m.chan frames said a
                    (msg_joined env now c n cmd.body a (lookup n (a.conn_at c).memberships)))
                (sym there)
                (subst (λ o. Heard m.chan frames said a (msg_joined env now c name cmd.body a o))
                  (sym member) (msg_joined-Heard now c name cmd.body a m frames mine room free e))
