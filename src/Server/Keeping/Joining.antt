-- ===== src/Server/Keeping/Joining.antt =====
-- Frames, joins and parts.
use ws_chat.Base.{ℕ, ◌≡◌, refl, Bool, Option, none, some, [], ◌∷◌, ltb, Text, text_keyed, if_rule}
use ws_chat.Base.Dict.{Dict, lookup}
use ws_chat.Config.{bound}
use ws_chat.Proto.Frame.{Outbound, out_backlog, new_backlog, out_err, new_err}
use ws_chat.Server.State.{Membership, App}
use ws_chat.Server.Env.{Env}
use ws_chat.Server.Channels.{broadcast_to}
use ws_chat.Server.Messages.{send_frame, write_frame, reply, send_backlog, backlog}
use ws_chat.Server.Keeping.{Keeps}
use ws_chat.Server.Membership.{
  join_refused, Result, quiet, is_banned, is_mine, drop_membership, leave, join_enter,
  join_announce, join_settle, settle_entered, join_checked, join, parted, part_found, part,
  leave_each, leave_all,
}

module _ (env : Env) (P : App → Type 0) (k : Keeps env P) where
  pub write_frame-P : (c : ℕ) (a : App) (frame : Option Text) → P a → P (write_frame env c a frame)
  write_frame-P c a frame h = k.sends c a frame h

  pub send_frame-P : (c : ℕ) (payload : Outbound) (a : App) → P a → P (send_frame env c payload a)
  unfolding send_frame
  send_frame-P c payload a h = write_frame-P c a (env.encode (a.conn_at c).codec payload) h

  pub reply-P : (c : ℕ) (code : Text) (a : App) → P a → P (reply env c code a)
  unfolding reply
  reply-P c code a h = send_frame-P c (out_err (new_err code)) a h

  send_backlog-P : (c : ℕ) (name : Text) (a : App) → P a → P (send_backlog env c name a)
  unfolding send_backlog
  send_backlog-P c name a h =
      if_rule P (ltb (bound a.cfg.backlog) 1) (λ _. h)
        (λ _. send_frame-P c (out_backlog (new_backlog name (backlog a name))) a h)

  pub tell-P :
      (a : App) (p : ℕ) (build : ℕ → Outbound) → P a → P (broadcast_to env.encode a p build quiet).0
  tell-P a p build h = k.tells a p build h

  drop_leave-P :
      (c : ℕ) (name : Text) (m : Membership) (a : App)
      → P a
      → P (leave c m (drop_membership c name a))
  drop_leave-P c name m a h = k.leaves c m _ (k.drops c name a h)

  join_settle-P :
      (now c : ℕ) (name : Text) (m : Membership) (a : App)
      → P a
      → P (join_settle env a now c name m).0
  unfolding join_settle join_announce
  join_settle-P now c name m a h =
      if_rule (λ (d : Result). P d.0) (is_banned a now name c)
        (λ _.
          if_rule P (is_mine m.stamp (lookup name (a.conn_at c).memberships))
            (λ _. drop_leave-P c name m a h) (λ _. h))
        (λ _. tell-P (send_backlog env c name a) m.chan _ (send_backlog-P c name a h))

  settle_entered-P :
      (now c : ℕ) (name : Text) (a : App) (m : Option Membership)
      → P a
      → P (settle_entered env now c name a m).0
  settle_entered-P now c name a none h = h
  settle_entered-P now c name a (some m) h = join_settle-P now c name m a h

  join_checked-P :
      (now c : ℕ) (name : Text) (force : Bool) (a : App) (code : Option Text)
      → join_refused env a now c name force ≡ code
      → P a
      → P (join_checked env a now c name code).0
  join_checked-P now c name force a (some code) e h = h
  join_checked-P now c name force a none e h =
      let d = join_enter env a c name in
      settle_entered-P now c name d.0 d.1 (k.enters now c name force a e h)

  pub join-P :
      (now c : ℕ) (name : Text) (force : Bool) (a : App) → P a → P (join env a now c name force).0
  unfolding join
  join-P now c name force a h = join_checked-P now c _ force a _ refl h

  part_found-P :
      (c : ℕ) (name : Text) (a : App) (m : Option Membership)
      → P a
      → P (part_found env c name a m).0
  unfolding part_found parted
  part_found-P c name a none h = h
  part_found-P c name a (some m) h =
      tell-P _ m.chan _ (k.leaves c m _ (send_frame-P c _ _ (k.drops c name a h)))

  pub part-P : (c : ℕ) (name : Text) (a : App) → P a → P (part env a c name).0
  unfolding part
  part-P c name a h = part_found-P c _ a _ h

  leave_each-P : (c : ℕ) (ms : Dict Text Membership) (a : App) → P a → P (leave_each env c ms a)
  unfolding leave_each
  leave_each-P c [] a h = h
  leave_each-P c ((name, m) ∷ ms) a h = leave_each-P c ms _ (tell-P _ m.chan _ (k.leaves c m a h))

  pub leave_all-P : (c : ℕ) (a : App) → P a → P (leave_all env a c)
  unfolding leave_all
  leave_all-P c a h = leave_each-P c (a.conn_at c).memberships _ (k.clears c a h)
