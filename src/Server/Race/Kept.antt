-- ===== src/Server/Race/Kept.antt =====
-- What the parts of a join and of a ban leave as it was.
use ws_chat.Base.{ℕ, ◌≡◌, refl, ◌∙◌, Option, none, some, arith, Text, text_keyed, if_rule, ltb}
use ws_chat.Base.Dict.{lookup}
use ws_chat.Proto.Frame.{Outbound, out_backlog, new_backlog}
use ws_chat.Config.{bound}
use ws_chat.Server.State.{Membership, App}
use ws_chat.Server.Env.{Env}
use ws_chat.Server.Channels.{broadcast_to, send_frames, channel_for, enter, encode_all, next_seq}
use ws_chat.Server.Messages.{send_frame, write_frame, send_backlog, backlog}
use ws_chat.Server.Membership.{quiet, join_announce, leave, parted}

-- The store, the settings, and who a connection is and where it is a member.
pub record Kept (c : ℕ) (a b : App) : Type 0 where
  pub store : b.store ≡ a.store
  pub cfg : b.cfg ≡ a.cfg
  pub identity : (b.conn_at c).identity ≡ (a.conn_at c).identity
  pub memberships : (b.conn_at c).memberships ≡ (a.conn_at c).memberships

pub Kept-then : (c : ℕ) (x y z : App) → Kept c x y → Kept c y z → Kept c x z
Kept-then c x y z h g = record {
  store = g.store ∙ h.store;
  cfg = g.cfg ∙ h.cfg;
  identity = g.identity ∙ h.identity;
  memberships = g.memberships ∙ h.memberships;
}

pub leave-Kept : (c d : ℕ) (m : Membership) (a : App) → Kept c a (leave d m a)
unfolding leave
leave-Kept c d m a = record { store = refl; cfg = refl; identity = refl; memberships = refl }

module _ (env : Env) where
  send_frames-Kept :
      (c : ℕ) (a : App) (p : ℕ) (frames : Option _) → Kept c a (send_frames a p quiet frames).0
  unfolding send_frames
  send_frames-Kept c a p none = record {
    store = refl;
    cfg = refl;
    identity = refl;
    memberships = refl;
  }
  send_frames-Kept c a p (some frames) = record {
    store = refl;
    cfg = refl;
    identity = refl;
    memberships = refl;
  }

  pub broadcast_to-Kept :
      (c : ℕ) (a : App) (p : ℕ) (build : ℕ → Outbound)
      → Kept c a (broadcast_to env.encode a p build quiet).0
  unfolding broadcast_to
  broadcast_to-Kept c a p build =
      let h =
        send_frames-Kept c (record a { seq = next_seq a }) p
          (encode_all env.encode (build (next_seq a))) in
      record { store = h.store; cfg = h.cfg; identity = h.identity; memberships = h.memberships }

  write_frame-Kept :
      (c d : ℕ) (a : App) (frame : Option Text) → Kept c a (write_frame env d a frame)
  write_frame-Kept c d a none = record {
    store = refl;
    cfg = refl;
    identity = refl;
    memberships = refl;
  }
  write_frame-Kept c d a (some frame) = record {
    store = refl;
    cfg = refl;
    identity = ground arith;
    memberships = ground arith;
  }

  pub send_frame-Kept :
      (c d : ℕ) (payload : Outbound) (a : App) → Kept c a (send_frame env d payload a)
  unfolding send_frame
  send_frame-Kept c d payload a = write_frame-Kept c d a (env.encode (a.conn_at d).codec payload)

  send_backlog-Kept : (c d : ℕ) (name : Text) (a : App) → Kept c a (send_backlog env d name a)
  unfolding send_backlog
  send_backlog-Kept c d name a =
      let payload = out_backlog (new_backlog name (backlog a name)) in
      if_rule (Kept c a) (ltb (bound a.cfg.backlog) 1) {x = a} {y = send_frame env d payload a}
        (λ _. record { store = refl; cfg = refl; identity = refl; memberships = refl })
        (λ _. send_frame-Kept c d payload a)

  pub join_announce-Kept :
      (c d : ℕ) (name : Text) (m : Membership) (a : App) → Kept c a (join_announce env a d name m)
  unfolding join_announce
  join_announce-Kept c d name m a =
      Kept-then c a (send_backlog env d name a) _ (send_backlog-Kept c d name a)
        (broadcast_to-Kept c (send_backlog env d name a) m.chan _)

  pub parted-Kept :
      (c d : ℕ) (name : Text) (m : Membership) (a : App) → Kept c a (parted env d name m a)
  unfolding parted
  parted-Kept c d name m a =
      let told = send_frame-Kept c d _ a in
      let left = leave-Kept c d m _ in
      Kept-then c a _ _ told (Kept-then c _ _ _ left (broadcast_to-Kept c _ m.chan _))

  enter-Kept :
      (c d : ℕ) (name : Text) (found : Option ℕ) (a : App)
      → Kept c a (enter env.channel_limits a name d found).0
  unfolding enter
  enter-Kept c d name (some p) a = record {
    store = refl;
    cfg = refl;
    identity = refl;
    memberships = refl;
  }
  enter-Kept c d name none a = record {
    store = ground arith;
    cfg = ground arith;
    identity = ground arith;
    memberships = ground arith;
  }

  pub channel_for-Kept :
      (c d : ℕ) (name : Text) (a : App) → Kept c a (channel_for env.channel_limits a name d).0
  unfolding channel_for
  channel_for-Kept c d name a = enter-Kept c d name (lookup name a.channels) a
