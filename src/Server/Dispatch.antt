-- ===== src/Server/Dispatch.antt =====
-- conn.go: what one connection does from its registration on, command by command.
use ws_chat.Base.{
  ℕ, Bool, true, false, ◌||◌, Option, none, some, List, [], ◌∷◌, if◌then◌else◌, Text, ◌==◌,
  text_keyed,
}
use ws_chat.Hook.{Identity}
use ws_chat.Proto.Command.{
  Command, verb_msg, verb_priv, verb_join, verb_part, verb_names, verb_mute, verb_unmute, verb_ban,
  verb_unban, verb_ping, err_unknown,
}
use ws_chat.Proto.Frame.{out_pong, out_ready, new_pong, new_ready}
use ws_chat.Server.State.{App}
use ws_chat.Server.Env.{Env}
use ws_chat.Server.Channels.{nick}
use ws_chat.Server.Messages.{send_frame, reply, write_frame}
use ws_chat.Server.Membership.{join, part, leave_all}
use ws_chat.Server.Handlers.{register, unregister, handle_msg, handle_priv, handle_names}
use ws_chat.Server.Moderate.{handle_mod}

module _ (env : Env) where
  -- `handleJoin` and `handlePart`.
  abbrev pub reply_code : ℕ → App → Option Text → App
  reply_code c a none = a
  reply_code c a (some code) = reply env c code a

  unfoldable pub handle_join : App → ℕ → ℕ → Command → App
  handle_join a now c cmd =
      let done = join env a now c cmd.channel false in reply_code c done.0 done.1

  unfoldable pub handle_part : App → ℕ → Command → App
  handle_part a c cmd = let done = part env a c cmd.channel in reply_code c done.0 done.1

  abbrev pub is_action : Text → Bool
  is_action verb =
      verb == verb_mute || verb == verb_unmute || verb == verb_ban || verb == verb_unban

  -- One round of `readPump`, with a command that was decoded.
  unfoldable pub dispatch : App → ℕ → ℕ → Command → App
  dispatch a now c cmd =
      if cmd.verb == verb_msg
      then handle_msg env a now c cmd
      else (if cmd.verb == verb_priv
          then handle_priv env a now c cmd
          else (if cmd.verb == verb_join
              then handle_join a now c cmd
              else (if cmd.verb == verb_part
                  then handle_part a c cmd
                  else (if cmd.verb == verb_names
                      then handle_names env a c cmd
                      else (if is_action cmd.verb
                          then handle_mod env a now c cmd
                          else (if cmd.verb == verb_ping
                              then send_frame env c (out_pong new_pong) a
                              else reply env c err_unknown a))))))

  -- `autojoin`: the hook's channels, or the default one.
  abbrev pub autojoin_list : App → Option (List Text) → List Text
  autojoin_list a none = a.cfg.default_channel ∷ []
  autojoin_list a (some channels) = channels

  abbrev pub autojoin_asked : App → ℕ → Option (Identity → Option (List Text)) → List Text
  autojoin_asked a c none = a.cfg.default_channel ∷ []
  autojoin_asked a c (some ask) = autojoin_list a (ask (a.conn_at c).identity)

  unfoldable pub autojoin_each : ℕ → ℕ → List Text → App → App
  autojoin_each now c [] a = a
  autojoin_each now c (name ∷ names) a =
      let done = join env a now c name true in
      autojoin_each now c names (reply_code c done.0 done.1)

  abbrev pub welcomed : ℕ → ℕ → App → Option Text → App
  welcomed now c a none = unregister c a
  welcomed now c a (some ready) =
      autojoin_each now c (autojoin_asked a c env.autojoin) (write_frame env c a (some ready))

  -- `serve` up to the read pump: registered, READY, and the channels it starts in.
  unfoldable pub connect : App → ℕ → ℕ → App
  connect a now c =
      let known = register c a in
      welcomed now c known (env.encode (a.conn_at c).codec (out_ready (new_ready (nick a c))))

  -- `serve` after the read pump.
  unfoldable pub disconnect : App → ℕ → App
  disconnect a c = leave_all env (unregister c a) c
