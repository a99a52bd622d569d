-- ===== src/Proto/Command.antt =====
-- internal/proto/proto.go: verbs, actions, error codes and the command.
use ws_chat.Base.{Text, bytes}

abbrev pub verb_msg : Text
verb_msg = bytes "MSG"

abbrev pub verb_priv : Text
verb_priv = bytes "PRIVMSG"

abbrev pub verb_ping : Text
verb_ping = bytes "PING"

abbrev pub verb_join : Text
verb_join = bytes "JOIN"

abbrev pub verb_part : Text
verb_part = bytes "PART"

abbrev pub verb_names : Text
verb_names = bytes "NAMES"

abbrev pub verb_mute : Text
verb_mute = bytes "MUTE"

abbrev pub verb_unmute : Text
verb_unmute = bytes "UNMUTE"

abbrev pub verb_ban : Text
verb_ban = bytes "BAN"

abbrev pub verb_unban : Text
verb_unban = bytes "UNBAN"

abbrev pub verb_ready : Text
verb_ready = bytes "READY"

abbrev pub verb_backlog : Text
verb_backlog = bytes "BACKLOG"

abbrev pub verb_pong : Text
verb_pong = bytes "PONG"

abbrev pub verb_err : Text
verb_err = bytes "ERR"

abbrev pub verb_mod : Text
verb_mod = bytes "MOD"

abbrev pub action_mute : Text
action_mute = bytes "mute"

abbrev pub action_unmute : Text
action_unmute = bytes "unmute"

abbrev pub action_ban : Text
action_ban = bytes "ban"

abbrev pub action_unban : Text
action_unban = bytes "unban"

abbrev pub err_protocol : Text
err_protocol = bytes "protocol"

abbrev pub err_unknown : Text
err_unknown = bytes "unknown"

abbrev pub err_empty : Text
err_empty = bytes "empty"

abbrev pub err_too_long : Text
err_too_long = bytes "toolong"

abbrev pub err_no_such : Text
err_no_such = bytes "nosuchnick"

abbrev pub err_backlog : Text
err_backlog = bytes "recipientbusy"

abbrev pub err_self : Text
err_self = bytes "self"

abbrev pub err_throttled : Text
err_throttled = bytes "throttled"

abbrev pub err_chan_throttled : Text
err_chan_throttled = bytes "channelthrottled"

abbrev pub err_muted : Text
err_muted = bytes "muted"

abbrev pub err_banned : Text
err_banned = bytes "banned"

abbrev pub err_forbidden : Text
err_forbidden = bytes "forbidden"

abbrev pub err_bad_duration : Text
err_bad_duration = bytes "badduration"

abbrev pub err_no_channel : Text
err_no_channel = bytes "nosuchchannel"

abbrev pub err_not_joined : Text
err_not_joined = bytes "notjoined"

abbrev pub err_already_joined : Text
err_already_joined = bytes "alreadyjoined"

abbrev pub err_too_many_chans : Text
err_too_many_chans = bytes "toomanychannels"

pub record Command : Type 0 where
  pub verb : Text
  pub body : Text
  pub channel : Text
  pub nick : Text
  pub duration : Text
  pub reason : Text
