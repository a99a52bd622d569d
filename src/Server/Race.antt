-- ===== src/Server/Race.antt =====
-- membership.go and moderation.go: a join and a ban of the same connection from the same channel, in
-- any order of their parts. The joiner stores its membership and then looks for a ban; the
-- moderator files the ban and then removes the membership.
mod Kept
mod Invariant
pub mod Outcome
use ws_chat.Base.{
  ℕ, ◌+◌, ◌<◌, ◌≡◌, ◌⊎◌, inl, inr, refl, sym, ap, subst, ◌∙◌, Bool, true, false, ◌&&◌, ◌||◌, Option,
  none, some, List, [], ◌∷◌, ◌++◌, arith, eqb, if◌then◌else◌, Text, ◌==◌, text_keyed, same_text_iff,
  if_rule,
}
use ws_chat.Base.Dict.{Dict, lookup, insert, delete, lookup-insert, lookup-delete}
use ws_chat.Hook.{Identity, key}
use ws_chat.Config.{Config}
use ws_chat.Moderation.{ban, banned}
use ws_chat.Proto.Frame.{Outbound}
use ws_chat.Server.State.{Channel, Membership, Conn, App, set_at, set_conn, set_chan}
use ws_chat.Server.Env.{Env}
use ws_chat.Server.Names.{normalise}
use ws_chat.Server.Channels.{broadcast_to, send_frames, channel_for, enter}
use ws_chat.Server.Messages.{send_frame, write_frame, send_backlog}
use ws_chat.Server.Membership.{
  quiet, is_banned, join_enter, subscribed, new_membership, store_membership, drop_membership,
  leave, is_mine, join_announce, join_settle, part, part_found, parted,
}

-- Where the joiner stands, and where the moderator.
pub data Joiner : Type 0 where
  arriving settled : Joiner
  entered : Membership → Joiner

pub data Moderator : Type 0 where
  waiting filed done : Moderator

pub record Race : Type 0 where
  pub app : App
  pub joiner : Joiner
  pub moderator : Moderator

pub data Turn : Type 0 where
  joins bans : Turn

unfoldable pub start_race : App → Race
start_race a = record { app = a; joiner = arriving; moderator = waiting }

-- `target` wants into `name` while it is banned from there until `until`.
module _ (env : Env) (now target : ℕ) (name : Text) (until : ℕ) where
  abbrev arrived : App → Option Membership → Race → Race
  arrived a none r = record r { app = a; joiner = settled }
  arrived a (some m) r = record r { app = a; joiner = entered m }

  unfoldable pub join_turn : Joiner → Race → Race
  join_turn arriving r = let e = join_enter env r.app target name in arrived e.0 e.1 r
  join_turn (entered m) r = record r {
    app = (join_settle env r.app now target name m).0;
    joiner = settled;
  }
  join_turn settled r = r

  unfoldable pub ban_turn : Moderator → Race → Race
  ban_turn waiting r = record r {
    app = record r.app { store = ban r.app.store name (key (r.app.conn_at target).identity) until };
    moderator = filed;
  }
  ban_turn filed r = record r { app = (part env r.app target name).0; moderator = done }
  ban_turn done r = r

  unfoldable pub turn : Turn → Race → Race
  turn joins r = join_turn r.joiner r
  turn bans r = ban_turn r.moderator r

  unfoldable pub turns : List Turn → Race → Race
  turns [] r = r
  turns (t ∷ ts) r = turns ts (turn t r)
