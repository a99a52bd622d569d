-- ===== src/Server/Membership.antt =====
-- membership.go: joining and leaving. `join` is its three parts: up to the membership, which a ban
-- may overtake at any point of it, and what follows the second look for a ban.
use ws_chat.Base.{
  ℕ, ◌+◌, Bool, true, false, not, Option, none, some, [], ◌∷◌, leb, eqb, if◌then◌else◌, Text,
  length, ◌==◌, text_keyed,
}
use ws_chat.Base.Dict.{Dict, lookup, insert, delete, has}
use ws_chat.Hook.{Identity, key}
use ws_chat.Config.{bound}
use ws_chat.Moderation.{banned}
use ws_chat.Proto.Command.{
  err_no_channel, err_already_joined, err_too_many_chans, err_banned, err_forbidden, err_not_joined,
}
use ws_chat.Proto.Frame.{Outbound, out_join, out_part, new_join, new_part}
use ws_chat.Server.State.{Membership, App, set_conn, set_chan}
use ws_chat.Server.Env.{Env}
use ws_chat.Server.Names.{normalise, valid_channel}
use ws_chat.Server.Channels.{nick, remove_member, channel_for, broadcast_to}
use ws_chat.Server.Messages.{send_frame, send_backlog}

-- Whether a conn is banned from a channel (or the server) now.
abbrev pub is_banned : App → ℕ → Text → ℕ → Bool
is_banned a now name c = (banned a.store now name (key (a.conn_at c).identity)).holds

-- What `join` and `part` return: a code, or none when they did what was asked.
abbrev pub Result : Type 0
Result = App × Option Text

abbrev pub join_frame : App → ℕ → Text → Outbound
join_frame a c name = out_join (
    new_join (record {
      verb = [];
      channel = name;
      nick = nick a c;
      roles = (a.conn_at c).identity.roles;
      attrs = (a.conn_at c).identity.attrs;
    }))

abbrev pub quiet : ℕ → App → App
quiet id a = a

-- `c.memberships[name] = m`.
unfoldable pub store_membership : ℕ → Text → Membership → App → App
store_membership c name m a =
    set_conn c (record (a.conn_at c) { memberships = insert name m (a.conn_at c).memberships }) a

unfoldable pub drop_membership : ℕ → Text → App → App
drop_membership c name a =
    set_conn c (record (a.conn_at c) { memberships = delete name (a.conn_at c).memberships }) a

-- `ch.remove(c)`; the subscription ends with the membership.
unfoldable pub leave : ℕ → Membership → App → App
leave c m a = set_chan m.chan (remove_member (nick a c) c (a.chan_at m.chan)) a

-- `c.memberships[name] == m`.
abbrev pub is_mine : ℕ → Option Membership → Bool
is_mine stamp none = false
is_mine stamp (some m) = eqb m.stamp stamp

module _ (env : Env) where
  -- The answer of the Channels hook; with no reason of its own, `forbidden`.
  abbrev pub refusal : Bool × Text → Option Text
  refusal (true, reason) = none
  refusal (false, reason) = some (if reason == [] then err_forbidden else reason)

  unfoldable pub may_join : Identity → Text → Bool → Option Text
  may_join who name force =
      if force then none else elim env.can_join [ none ↦ none | some ask ↦ refusal (ask who name) ]

  -- The checks of `join` before the channel is looked up, `name` being normalised.
  unfoldable pub join_refused : App → ℕ → ℕ → Text → Bool → Option Text
  join_refused a now c name force =
      let mine = (a.conn_at c).memberships in
      if not (valid_channel env.is_space env.is_print name)
      then some err_no_channel
      else (if has name mine
          then some err_already_joined
          else (if leb (bound a.cfg.max_channels_per_conn) (length mine)
              then some err_too_many_chans
              else (if is_banned a now name c
                  then some err_banned
                  else may_join (a.conn_at c).identity name force)))

  -- The subscription and the membership, in the channel at `p` if there was room for it.
  unfoldable pub new_membership : App → ℕ → ℕ → Membership
  new_membership a c p = record {
    stamp = a.next;
    chan = p;
    start = length ((a.chan_at p).rings (a.conn_at c).codec).log;
  }

  abbrev pub subscribed : ℕ → Text → App → Option ℕ → App × Option Membership
  subscribed c name a none = (a, none)
  subscribed c name a (some p) =
      let m = new_membership a c p in
      (store_membership c name m (record a { next = a.next + 1 }), some m)

  unfoldable pub join_enter : App → ℕ → Text → App × Option Membership
  join_enter a c name =
      let found = channel_for env.channel_limits a name c in subscribed c name found.0 found.1

  -- The pump starts last, after the backlog and the JOIN.
  unfoldable pub join_announce : App → ℕ → Text → Membership → App
  join_announce a c name m =
      let told = send_backlog env c name a in
      (broadcast_to env.encode told m.chan (λ id. join_frame told c name) quiet).0

  -- From the second look for a ban on, at the membership with this stamp.
  unfoldable pub join_settle : App → ℕ → ℕ → Text → Membership → Result
  join_settle a now c name m =
      if is_banned a now name c
      then (
        if is_mine m.stamp (lookup name (a.conn_at c).memberships)
            then leave c m (drop_membership c name a)
            else a,
        some err_banned,
      )
      else (join_announce a c name m, none)

  abbrev pub settle_entered : ℕ → ℕ → Text → App → Option Membership → Result
  settle_entered now c name a none = (a, some err_too_many_chans)
  settle_entered now c name a (some m) = join_settle a now c name m

  abbrev pub join_checked : App → ℕ → ℕ → Text → Option Text → Result
  join_checked a now c name (some code) = (a, some code)
  join_checked a now c name none =
      let entered = join_enter a c name in settle_entered now c name entered.0 entered.1

  unfoldable pub join : App → ℕ → ℕ → Text → Bool → Result
  join a now c name force =
      let there = normalise env.is_space env.is_print a.cfg name in
      join_checked a now c there (join_refused a now c there force)

  -- `part`, once the membership was found and deleted.
  unfoldable pub parted : ℕ → Text → Membership → App → App
  parted c name m a =
      let told = send_frame env c (out_part (new_part name (nick a c))) a in
      let left = leave c m told in
      (broadcast_to env.encode left m.chan (λ id. out_part (new_part name (nick left c))) quiet).0

  unfoldable pub part_found : ℕ → Text → App → Option Membership → Result
  part_found c name a none = (a, some err_not_joined)
  part_found c name a (some m) = (parted c name m (drop_membership c name a), none)

  unfoldable pub part : App → ℕ → Text → Result
  part a c name =
      let there = normalise env.is_space env.is_print a.cfg name in
      part_found c there a (lookup there (a.conn_at c).memberships)

  -- The loop of `leaveAll`.
  unfoldable pub leave_each : ℕ → Dict Text Membership → App → App
  leave_each c [] a = a
  leave_each c ((name, m) ∷ ms) a =
      let left = leave c m a in
      leave_each c ms
        (broadcast_to env.encode left m.chan (λ id. out_part (new_part name (nick left c))) quiet).0

  unfoldable pub leave_all : App → ℕ → App
  leave_all a c =
      leave_each c (a.conn_at c).memberships
        (set_conn c (record (a.conn_at c) { memberships = [] }) a)
