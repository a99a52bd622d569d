-- ===== src/Server/Keeping/Commands.antt =====
-- Moderation, the rest of the commands, and a run.
use ws_chat.Base.{
  ℕ, true, false, not, ◌&&◌, Option, none, some, List, [], ◌∷◌, eqb, if◌then◌else◌, Text, ◌==◌,
  text_keyed, if_rule,
}
use ws_chat.Hook.{Sanction}
use ws_chat.Moderation.{global}
use ws_chat.Proto.Command.{
  Command, verb_msg, verb_priv, verb_join, verb_part, verb_names, verb_ping, action_ban,
}
use ws_chat.Proto.Frame.{Mod}
use ws_chat.Server.State.{App}
use ws_chat.Server.Env.{Env}
use ws_chat.Server.Names.{valid_channel}
use ws_chat.Server.Channels.{lookup_channel}
use ws_chat.Server.Moderate.{
  Target, Action, target_chans, announce_each, with_id, announce_in, announce, enforce_ban,
  record_sanction, expel, enforce, mod_announced, mod_frame, mod_acted, mod_resolved, mod_timed,
  can_moderate, handle_mod,
}
use ws_chat.Server.Dispatch.{
  reply_code, handle_join, handle_part, is_action, dispatch, autojoin_each, welcomed, connect,
  disconnect,
}
use ws_chat.Server.Run.{Event, accepted, command, gone, sweeping, shutting, on_event, run_events}
use ws_chat.Server.Keeping.{Keeps}
use ws_chat.Server.Keeping.Joining.{
  send_frame-P, reply-P, write_frame-P, tell-P, join-P, part-P, leave_all-P,
}
use ws_chat.Server.Keeping.Messages.{enqueue-P, handle_msg-P, handle_priv-P, handle_names-P}

module _ (env : Env) (P : App → Type 0) (k : Keeps env P) where
  announce_each-P :
      (ps : List ℕ) (m : Mod) (last : ℕ) (a : App) → P a → P (announce_each env ps m last a).0
  unfolding announce_each
  announce_each-P [] m last a h = h
  announce_each-P (p ∷ ps) m last a h =
      told _ _ (λ i b g. announce_each-P ps m i b g) (tell-P env P k a p _ h)
    where
      told :
          (b : App) (id : Option ℕ)
          → ((i : ℕ) (c : App) → P c → P (announce_each env ps m i c).0)
          → P b
          → P
              (elim id as (λ i. App × Option ℕ) [
                | none ↦ (b, none)
                | some i ↦ announce_each env ps m i b
              ]).0
      told b none each g = g
      told b (some i) each g = each i b g

  with_id-P : (a : App) (last : Option ℕ) → P a → P (with_id env a last).0
  with_id-P a none h = h
  with_id-P a (some last) h =
      if_rule (λ (d : App × Option ℕ). P d.0) (eqb last 0) (λ _. k.counts a h) (λ _. h)

  announce_in-P : (p : Option ℕ) (m : Mod) (a : App) → P a → P (announce_in env p m a).0
  announce_in-P none m a h = k.counts a h
  announce_in-P (some p) m a h =
      let told = announce_each env (p ∷ []) m 0 a in
      with_id-P told.0 told.1 (announce_each-P (p ∷ []) m 0 a h)

  announce-P :
      (target : Option ℕ) (scope : Text) (m : Mod) (a : App)
      → P a
      → P (announce env target scope m a).0
  unfolding announce
  announce-P target scope m a h =
      if_rule (λ (d : App × Option ℕ). P d.0) (scope == global)
        (λ _.
          let told = announce_each env (target_chans a target) m 0 a in
          with_id-P told.0 told.1 (announce_each-P (target_chans a target) m 0 a h))
        (λ _. announce_in-P (lookup_channel a scope) m a h)

  enforce_ban-P : (t : ℕ) (scope : Text) (m : Mod) (a : App) → P a → P (enforce_ban env t scope m a)
  unfolding enforce_ban
  enforce_ban-P t scope m a h =
      if_rule P (scope == global) (λ _. k.shuts t _ a h) (λ _. send_frame-P env P k t _ a h)

  record_sanction-P : (m : Sanction) (a : App) → P a → P (record_sanction env m a)
  unfolding record_sanction
  record_sanction-P m a h = if_rule P env.has_sanctions (λ _. enqueue-P env P k _ a h) (λ _. h)

  expel-P : (action scope : Text) (t : Option ℕ) (a : App) → P a → P (expel env action scope t a)
  expel-P action scope none a h = h
  expel-P action scope (some t) a h =
      if_rule P (action == action_ban && (if scope == global then false else true))
        (λ _. part-P env P k t scope a h) (λ _. h)

  enforce-P :
      (action scope : Text) (m : Mod) (t : Option ℕ) (a : App)
      → P a
      → P (enforce env action scope m t a)
  enforce-P action scope m none a h = h
  enforce-P action scope m (some t) a h =
      if_rule P (action == action_ban) (λ _. enforce_ban-P t scope m a h) (λ _. h)

  mod_announced-P :
      (now c : ℕ) (cmd : Command) (target : Target) (action : Text) (m : Mod) (until : ℕ) (a : App)
      (id : Option ℕ)
      → P a
      → P (mod_announced env now c cmd target action m until a id)
  mod_announced-P now c cmd target action m until a none h = reply-P env P k c _ a h
  mod_announced-P now c cmd target action m until a (some id) h =
      enforce-P action cmd.channel _ target.0 _ (record_sanction-P _ a h)

  mod_acted-P :
      (now c : ℕ) (cmd : Command) (target : Target) (a : App) (action : Option Action)
      → P a
      → P (mod_acted env now c cmd target a action)
  mod_acted-P now c cmd target a none h = reply-P env P k c _ a h
  mod_acted-P now c cmd target a (some (store, action, until)) h =
      let out = expel env action cmd.channel target.0 (record a { store = store }) in
      let m = mod_frame env out now c cmd action until in
      let told = announce env target.0 cmd.channel m out in
      mod_announced-P now c cmd target action m until told.0 told.1 (
        announce-P target.0 cmd.channel m out (
          expel-P action cmd.channel target.0 (record a { store = store }) (k.moderates store a h)))

  mod_resolved-P :
      (now c : ℕ) (cmd : Command) (until : ℕ) (a : App) (target : Option Target)
      → P a
      → P (mod_resolved env now c cmd until a target)
  mod_resolved-P now c cmd until a none h = reply-P env P k c _ a h
  mod_resolved-P now c cmd until a (some target) h = mod_acted-P now c cmd target a _ h

  mod_timed-P :
      (now c : ℕ) (cmd : Command) (a : App) (until : Option ℕ)
      → P a
      → P (mod_timed env now c cmd a until)
  mod_timed-P now c cmd a none h = reply-P env P k c _ a h
  mod_timed-P now c cmd a (some until) h = mod_resolved-P now c cmd until a _ h

  handle_mod-P : (now c : ℕ) (cmd : Command) (a : App) → P a → P (handle_mod env a now c cmd)
  unfolding handle_mod
  handle_mod-P now c cmd a h =
      if_rule P (not (can_moderate env a c cmd.channel)) (λ _. reply-P env P k c _ a h)
        λ _.
          if_rule P (cmd.nick == []) (λ _. reply-P env P k c _ a h)
            λ _.
              if_rule P
                (not (cmd.channel == global)
                  && not (valid_channel env.is_space env.is_print cmd.channel))
                (λ _. reply-P env P k c _ a h) (λ _. mod_timed-P now c cmd a _ h)

  reply_code-P : (c : ℕ) (a : App) (code : Option Text) → P a → P (reply_code env c a code)
  reply_code-P c a none h = h
  reply_code-P c a (some code) h = reply-P env P k c code a h

  dispatch-P : (now c : ℕ) (cmd : Command) (a : App) → P a → P (dispatch env a now c cmd)
  unfolding dispatch handle_join handle_part
  dispatch-P now c cmd a h =
      if_rule P (cmd.verb == verb_msg) (λ _. handle_msg-P env P k now c cmd a h)
        λ _.
          if_rule P (cmd.verb == verb_priv) (λ _. handle_priv-P env P k now c cmd a h)
            λ _.
              if_rule P (cmd.verb == verb_join)
                (λ _. reply_code-P c _ _ (join-P env P k now c cmd.channel false a h))
                λ _.
                  if_rule P (cmd.verb == verb_part)
                    (λ _. reply_code-P c _ _ (part-P env P k c cmd.channel a h))
                    λ _.
                      if_rule P (cmd.verb == verb_names) (λ _. handle_names-P env P k c cmd a h)
                        λ _.
                          if_rule P (is_action env cmd.verb) (λ _. handle_mod-P now c cmd a h)
                            λ _.
                              if_rule P (cmd.verb == verb_ping) (λ _. send_frame-P env P k c _ a h)
                                (λ _. reply-P env P k c _ a h)

  autojoin_each-P :
      (now c : ℕ) (names : List Text) (a : App) → P a → P (autojoin_each env now c names a)
  unfolding autojoin_each
  autojoin_each-P now c [] a h = h
  autojoin_each-P now c (name ∷ names) a h =
      autojoin_each-P now c names _ (reply_code-P c _ _ (join-P env P k now c name true a h))

  welcomed-P : (now c : ℕ) (a : App) (ready : Option Text) → P a → P (welcomed env now c a ready)
  welcomed-P now c a none h = k.unregisters c a h
  welcomed-P now c a (some ready) h =
      autojoin_each-P now c _ _ (write_frame-P env P k c a (some ready) h)

  connect-P : (now c : ℕ) (a : App) → P a → P (connect env a now c)
  unfolding connect
  connect-P now c a h = welcomed-P now c _ _ (k.registers c a h)

  pub on_event-P : (now : ℕ) (e : Event) (a : App) → P a → P (on_event env now e a)
  unfolding on_event disconnect
  on_event-P now (accepted who codec limit) a h =
      connect-P now a.next _ (k.accepts who codec limit a h)
  on_event-P now (command c cmd) a h = dispatch-P now c cmd a h
  on_event-P now (gone c) a h = leave_all-P env P k c _ (k.unregisters c a h)
  on_event-P now sweeping a h = k.sweeps _ (k.moderates _ a h)
  on_event-P now shutting a h = k.closes a h

  pub run_events-P : (es : List (ℕ × Event)) (a : App) → P a → P (run_events env es a)
  unfolding run_events
  run_events-P [] a h = h
  run_events-P ((now, e) ∷ es) a h = run_events-P es (on_event env now e a) (on_event-P now e a h)
