-- ===== src/Server/Pumps/Reached.antt =====
-- conn.go with membership.go: from the sender of a message to a socket of its channel.
use ws_chat.Base.{
  ℕ, suc, ◌+◌, ◌/◌, ◌%◌, ◌*◌, ◌^◌, ◌≤◌, ◌≡◌, ◌≢◌, refl, ap, subst, sym, ◌∙◌, true, false, some, [],
  ◌∷◌, ◌++◌, length, length-append, drop, drop-append_le, ltb, if_rule, Text, text_keyed, arith,
}
use ws_chat.Base.Dict.{lookup}
use ws_chat.Hook.{Message}
use ws_chat.Config.{Config, bound}
use ws_chat.Proto.Command.{Command, verb_msg}
use ws_chat.Proto.Codec.{Codec, msg_pack, json}
use ws_chat.Proto.Frame.{Outbound, out_msg, new_msg}
use ws_chat.Server.State.{Ring, Membership, Conn, App, send_ring}
use ws_chat.Server.Env.{Env}
use ws_chat.Server.Channels.{frame_of, encode_all}
use ws_chat.Server.Messages.{wire_msg}
use ws_chat.Server.Names.{normalise}
use ws_chat.Server.Membership.{is_mine}
use ws_chat.Server.Handlers.{spend_conn, spend_chan, handle_msg}
use ws_chat.Server.Heard.{Heard, next_message, frames_of, Free, handle_msg-Heard}
use ws_chat.Server.Pumps.{Pump, ring_of}
use ws_chat.Server.Pumps.Progress.{
  pump_rounds, pending, behind, is_open, Wrote, allowance, pump_rounds-all,
}

-- What the ring of a pump gets.
Heard-log :
    (p : ℕ) (frames : Codec → Text) (said : Message) (a b : App) (pu : Pump)
    → Heard p frames said a b
    → p ≡ pu.member.chan
    → (ring_of a pu).shut ≡ false
    → (ring_of b pu).log ≡ (ring_of a pu).log ++ frames pu.codec ∷ []
Heard-log p frames said a b pu h here runs =
    ap (λ (r : Ring). r.log)
      (subst
        (λ q.
          (b.chan_at q).rings pu.codec ≡ send_ring (frames pu.codec) ((a.chan_at q).rings pu.codec))
        here (h.rings pu.codec))
    ∙ if_rule (λ (r : Ring). r.log ≡ (ring_of a pu).log ++ frames pu.codec ∷ []) (ring_of a pu).shut
        (λ bad. absurd (ground (arith, runs, bad))) (λ _. refl)

Heard-reached :
    (p : ℕ) (frames : Codec → Text) (said : Message) (a b : App) (n : ℕ) (pu : Pump)
    → Heard p frames said a b
    → p ≡ pu.member.chan
    → (ring_of a pu).shut ≡ false
    → pu.pos ≤ length (ring_of a pu).log
    → pu.stopped ≡ false
    → is_open a pu ≡ true
    → bound a.cfg.capacity ≤ 2 ^ 62
    → suc (behind a pu) ≤ allowance a.cfg
    → suc (behind a pu) ≤ n * bound a.cfg.write_batch
    → Wrote pu.who
        (pu.wrote ++ (pending a pu ++ frames pu.codec ∷ []))
        ((a.conn_at pu.who).sent ++ (pending a pu ++ frames pu.codec ∷ []))
        (pump_rounds n b pu)
Heard-reached p frames said a b n pu h here open_ring there runs opened small kept le =
    let log = Heard-log p frames said a b pu h here open_ring in
    let size = length-append {0} (ring_of a pu).log (frames pu.codec ∷ []) in
    let one : length (frames pu.codec ∷ []) ≡ 1 = refl in
    let more : suc (behind a pu) ≡ behind b pu = omega (arith, ap length log, size, one, there) in
    let left : pending b pu ≡ pending a pu ++ frames pu.codec ∷ [] =
      ap (drop pu.pos) log ∙ drop-append_le pu.pos (ring_of a pu).log _ there in
    let opened' : is_open b pu ≡ true =
      ap (λ (s : Conn). is_mine pu.member.stamp (lookup pu.name s.memberships)) (h.conn_at pu.who)
      ∙ opened in
    let small' = subst (λ (x : Config). bound x.capacity ≤ 2 ^ 62) (sym h.cfg) small in
    let kept' =
      subst (λ (x : Config). behind b pu ≤ allowance x) (sym h.cfg)
        (subst (λ m. m ≤ allowance a.cfg) more kept) in
    let le' =
      subst (λ (x : Config). behind b pu ≤ n * bound x.write_batch) (sym h.cfg)
        (subst (λ m. m ≤ n * bound a.cfg.write_batch) more le) in
    let all = pump_rounds-all n b pu runs opened' small' kept' le' in
    (
      all.0 ∙ ap (λ l. pu.wrote ++ l) left,
      all.1
          ∙ ap (λ (s : Conn). s.sent ++ pending b pu) (h.conn_at pu.who)
          ∙ ap (λ l. (a.conn_at pu.who).sent ++ l) left,
    )

-- The frame that a message in the channel at `p` is to be: what `c` said, with the next id.
abbrev pub frame_for : App → ℕ → ℕ → ℕ → Command → Outbound
frame_for a now p c cmd =
    let who = (a.conn_at c).identity in
    out_msg (record {
      verb = verb_msg;
      channel = (a.chan_at p).name;
      id = (a.seq + 1) % 2 ^ 64;
      nick = who.nick;
      body = cmd.body;
      timestamp = now / 1000000;
      roles = who.roles;
      attrs = who.attrs;
    })

frame_of-codec :
    (frame : Codec → Text) (k : Codec) → frame_of (frame msg_pack) (frame json) k ≡ frame k
frame_of-codec frame msg_pack = refl
frame_of-codec frame json = refl

module _ (env : Env) where
  frames_of-encoded :
      (a : App) (now p c : ℕ) (cmd : Command) (frame : Codec → Text)
      → ((k : Codec) → env.encode k (frame_for a now p c cmd) ≡ some (frame k))
      → frames_of env a p (next_message env a (a.conn_at c).identity cmd.body now)
        ≡ some (frame_of (frame msg_pack) (frame json))
  unfolding encode_all wire_msg new_msg
  frames_of-encoded a now p c cmd frame e = let m = e msg_pack in let j = e json in rw (m, j) refl

  -- A message that is neither empty nor too long, from a member with a token left, where the channel
  -- has one too, who is not muted and whom no filter refuses, reaches every subscriber that keeps
  -- up, if both codecs can encode the frame with the channel's name, the next id, the sender's nick,
  -- roles and attributes, the body of the command, and the time in milliseconds. For a pump of the
  -- channel that runs, whose subscription and ring are open, and that is behind by less than the
  -- capacity set for its ring (at most 2 ^ 62; 256 if none is set): when the message is handled,
  -- `n` rounds in a row whose writes all succeed write to its connection, in order, what it had not
  -- written before and then that frame as the pump's own codec encodes it, and no more, if `n`
  -- batches are enough for it.
  pub handle_msg-reaches :
      (a : App) (now c : ℕ) (cmd : Command) (name : Text) (m : Membership) (frame : Codec → Text)
      (n : ℕ) (pu : Pump)
      → normalise env.is_space env.is_print a.cfg cmd.channel ≡ name
      → cmd.body ≢ []
      → (ltb (bound a.cfg.max_message) (length cmd.body) ≡ false)
      → lookup name (a.conn_at c).memberships ≡ some m
      → (spend_conn a now c).1 ≡ true
      → (spend_chan (spend_conn a now c).0 now m.chan).1 ≡ true
      → Free env a now c name cmd.body
      → ((k : Codec) → env.encode k (frame_for a now m.chan c cmd) ≡ some (frame k))
      → m.chan ≡ pu.member.chan
      → (ring_of a pu).shut ≡ false
      → pu.pos ≤ length (ring_of a pu).log
      → pu.stopped ≡ false
      → is_open a pu ≡ true
      → bound a.cfg.capacity ≤ 2 ^ 62
      → suc (behind a pu) ≤ allowance a.cfg
      → suc (behind a pu) ≤ n * bound a.cfg.write_batch
      → Wrote pu.who
          (pu.wrote ++ (pending a pu ++ frame pu.codec ∷ []))
          ((a.conn_at pu.who).sent ++ (pending a pu ++ frame pu.codec ∷ []))
          (pump_rounds n (handle_msg env a now c cmd) pu)
  handle_msg-reaches a now c cmd name m frame n pu e1 e2 e3 e4 e5 e6 e7 e8 here o p s q r t u =
      let frames = frame_of (frame msg_pack) (frame json) in
      let b = handle_msg env a now c cmd in
      let e = frames_of-encoded a now m.chan c cmd frame e8 in
      subst
        (λ f.
          Wrote pu.who (pu.wrote ++ (pending a pu ++ f ∷ []))
            ((a.conn_at pu.who).sent ++ (pending a pu ++ f ∷ [])) (pump_rounds n b pu))
        (frame_of-codec frame pu.codec)
        (Heard-reached m.chan frames (next_message env a (a.conn_at c).identity cmd.body now) a b n
          pu (handle_msg-Heard env a now c cmd name m frames e1 e2 e3 e4 e5 e6 e7 e) here o p s q r
          t u)
