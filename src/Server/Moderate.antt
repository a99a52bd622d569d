-- ===== src/Server/Moderate.antt =====
-- moderation.go and hooks.go: what moderators do. Metrics are left out. The handler runs as
-- a whole here; Race takes a ban and a join apart.
use ws_chat.Base.{
  ℕ, ◌+◌, Bool, true, false, not, ◌&&◌, Option, none, some, List, [], ◌∷◌, eqb, if◌then◌else◌, Text,
  bytes, ◌==◌, text_keyed,
}
use ws_chat.Base.Dict.{Dict, lookup}
use ws_chat.Hook.{Identity, Sanction, key}
use ws_chat.Moderation.{global, Store, mute, unmute, ban, unban}
use ws_chat.Proto.Command.{
  Command, verb_mute, verb_unmute, verb_ban, verb_unban, action_mute, action_unmute, action_ban,
  action_unban, err_forbidden, err_protocol, err_no_channel, err_bad_duration, err_no_such,
  err_unknown,
}
use ws_chat.Proto.Frame.{Mod, out_mod, new_mod}
use ws_chat.Server.State.{Membership, of_sanction, App, close_conn}
use ws_chat.Server.Env.{Env}
use ws_chat.Server.Names.{valid_channel}
use ws_chat.Server.Channels.{nick, next_seq, lookup_channel, broadcast_to}
use ws_chat.Server.Messages.{unix_milli, send_frame, reply}
use ws_chat.Server.Membership.{quiet, part}
use ws_chat.Server.Handlers.{enqueue}

-- Whom an action is on: a connection if there is one, and the identity it is filed under.
abbrev pub Target : Type 0
Target = Option ℕ × Identity

-- What the Directory says of a nick that is not connected.
abbrev pub resolved : Text → Option Identity → Option Target
resolved who none = none
resolved who (some id) =
    if key id == bytes "nick:"
    then none
    else some (none, if id.nick == [] then record id { nick = who } else id)

-- `millis`: the zero time stays 0.
abbrev pub millis : ℕ → ℕ
millis t = if eqb t 0 then 0 else unix_milli t

-- An action on the store: the store after it, its name, and when it ends.
abbrev pub Action : Type 0
Action = Store × Text × ℕ

-- The switch of `handleMod` over the verb; `none` is a verb that is no action.
unfoldable pub act : Text → Store → Text → Text → ℕ → Option Action
act verb s scope who until =
    if verb == verb_mute
    then some (mute s scope who until, action_mute, until)
    else (if verb == verb_unmute
        then some ((unmute s scope who).0, action_unmute, 0)
        else (if verb == verb_ban
            then some (ban s scope who until, action_ban, until)
            else (if verb == verb_unban
                then some ((unban s scope who).0, action_unban, 0)
                else none)))

abbrev pub member_chans : Dict Text Membership → List ℕ
member_chans [] = []
member_chans ((name, m) ∷ ms) = m.chan ∷ member_chans ms

-- A server-wide action is told in the channels of its target, if there is one connected.
abbrev pub target_chans : App → Option ℕ → List ℕ
target_chans a none = []
target_chans a (some t) = member_chans (a.conn_at t).memberships

module _ (env : Env) where
  unfoldable pub resolve : App → Text → Option Target
  resolve a who = elim (lookup who a.conns) [
    | some t ↦ some (some t, (a.conn_at t).identity)
    | none ↦ elim env.resolve_nick [ none ↦ none | some ask ↦ resolved who (ask who) ]
  ]

  -- `deadline`, and `none` for a duration that is not one or not positive.
  unfoldable pub deadline : ℕ → Text → Option ℕ
  deadline now d = if d == [] then some 0 else elim (env.parse_duration d) [
    | none ↦ none
    | some parsed ↦ if eqb parsed 0 then none else some (now + parsed)
  ]

  -- The loop of `announceModeration`, and the last id it used.
  unfoldable pub announce_each : List ℕ → Mod → ℕ → App → App × Option ℕ
  announce_each [] m last a = (a, some last)
  announce_each (p ∷ ps) m last a =
      let name = (a.chan_at p).name in
      let told =
        broadcast_to env.encode a p (λ id. out_mod (new_mod (record m { id = id; channel = name })))
          quiet in
      elim told.1 [ none ↦ (told.0, none) | some id ↦ announce_each ps m id told.0 ]

  -- An action that nobody was told of has an id all the same.
  abbrev pub with_id : App → Option ℕ → App × Option ℕ
  with_id a none = (a, none)
  with_id a (some last) =
      if eqb last 0 then (record a { seq = next_seq a }, some (next_seq a)) else (a, some last)

  abbrev pub announce_in : Option ℕ → Mod → App → App × Option ℕ
  announce_in none m a = (record a { seq = next_seq a }, some (next_seq a))
  announce_in (some p) m a = let told = announce_each (p ∷ []) m 0 a in with_id told.0 told.1

  unfoldable pub announce : Option ℕ → Text → Mod → App → App × Option ℕ
  announce target scope m a =
      let everywhere = announce_each (target_chans a target) m 0 a in
      if scope == global
      then with_id everywhere.0 everywhere.1
      else announce_in (lookup_channel a scope) m a

  -- `enforceBan`: a server-wide ban closes the connection.
  unfoldable pub enforce_ban : ℕ → Text → Mod → App → App
  enforce_ban t scope m a =
      if scope == global
      then close_conn (bytes "banned") t a
      else send_frame env t (out_mod (new_mod m)) a

  unfoldable pub record_sanction : Sanction → App → App
  record_sanction m a = if env.has_sanctions then enqueue (of_sanction m) a else a

  -- The target of a channel's ban leaves the channel before the action is announced.
  abbrev pub expel : Text → Text → Option ℕ → App → App
  expel action scope none a = a
  expel action scope (some t) a =
      if action == action_ban && (if scope == global then false else true)
      then (part env a t scope).0
      else a

  abbrev pub enforce : Text → Text → Mod → Option ℕ → App → App
  enforce action scope m none a = a
  enforce action scope m (some t) a = if action == action_ban then enforce_ban t scope m a else a

  -- `handleMod` after the announcement.
  abbrev pub mod_announced : ℕ → ℕ → Command → Target → Text → Mod → ℕ → App → Option ℕ → App
  mod_announced now c cmd target action m until a none = reply env c err_protocol a
  mod_announced now c cmd target action m until a (some id) =
      let filed =
        record_sanction
          (record {
            id = id;
            action = action;
            scope = cmd.channel;
            by_whom = (a.conn_at c).identity;
            target = cmd.nick;
            key = key target.1;
            reason = cmd.reason;
            until = until;
            at = now;
          })
          a in
      enforce action cmd.channel (record m { id = id; channel = cmd.channel }) target.0 filed

  abbrev pub mod_frame : App → ℕ → ℕ → Command → Text → ℕ → Mod
  mod_frame a now c cmd action until = record {
    verb = [];
    channel = [];
    scope = cmd.channel;
    id = 0;
    action = action;
    nick = cmd.nick;
    by_nick = nick a c;
    timestamp = unix_milli now;
    until = millis until;
    reason = cmd.reason;
  }

  abbrev pub mod_acted : ℕ → ℕ → Command → Target → App → Option Action → App
  mod_acted now c cmd target a none = reply env c err_unknown a
  mod_acted now c cmd target a (some (store, action, until)) =
      let out = expel action cmd.channel target.0 (record a { store = store }) in
      let m = mod_frame out now c cmd action until in
      let told = announce target.0 cmd.channel m out in
      mod_announced now c cmd target action m until told.0 told.1

  abbrev pub mod_resolved : ℕ → ℕ → Command → ℕ → App → Option Target → App
  mod_resolved now c cmd until a none = reply env c err_no_such a
  mod_resolved now c cmd until a (some target) =
      mod_acted now c cmd target a (act cmd.verb a.store cmd.channel (key target.1) until)

  abbrev pub mod_timed : ℕ → ℕ → Command → App → Option ℕ → App
  mod_timed now c cmd a none = reply env c err_bad_duration a
  mod_timed now c cmd a (some until) = mod_resolved now c cmd until a (resolve a cmd.nick)

  -- With no Authorizer nobody moderates.
  unfoldable pub can_moderate : App → ℕ → Text → Bool
  can_moderate a c scope = elim env.can_moderate [
    | none ↦ false
    | some ask ↦ ask (a.conn_at c).identity scope
  ]

  unfoldable pub handle_mod : App → ℕ → ℕ → Command → App
  handle_mod a now c cmd =
      let scope = cmd.channel in
      if not (can_moderate a c scope)
      then reply env c err_forbidden a
      else (if cmd.nick == []
          then reply env c err_protocol a
          else (if not (scope == global) && not (valid_channel env.is_space env.is_print scope)
              then reply env c err_no_channel a
              else mod_timed now c cmd a (deadline now cmd.duration)))
