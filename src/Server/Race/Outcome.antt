-- ===== src/Server/Race/Outcome.antt =====
-- A ban and a join: whichever lands second sees the first.
use ws_chat.Base.{
  ℕ, ◌<◌, ◌≡◌, ◌⊎◌, refl, sym, subst, true, false, Option, none, some, List, [], ◌∷◌, if◌then◌else◌,
  Text, text_keyed, if_rule,
}
use ws_chat.Base.Dict.{lookup}
use ws_chat.Hook.{key}
use ws_chat.Moderation.{ban, banned}
use ws_chat.Moderation.Answers.{ban-banned}
use ws_chat.Proto.Command.{err_banned}
use ws_chat.Server.State.{Membership, App}
use ws_chat.Server.Env.{Env}
use ws_chat.Server.Names.{normalise}
use ws_chat.Server.Channels.{channel_for}
use ws_chat.Server.Membership.{
  Result, is_banned, join_enter, drop_membership, leave, is_mine, join_announce, join_settle, part,
  part_found, parted,
}
use ws_chat.Server.Race.{
  Race, Joiner, arriving, entered, settled, Moderator, waiting, filed, done, Turn, joins, bans,
  join_turn, ban_turn, turn, turns, start_race,
}
use ws_chat.Server.Race.Kept.{leave-Kept, join_announce-Kept, parted-Kept, channel_for-Kept}
use ws_chat.Server.Race.Invariant.{
  member, Place, Filed, RaceInv, none-Place, settled-Place, Kept-RaceInv, dropped-RaceInv,
  arrived-RaceInv, is_mine-split,
}

module _ (env : Env) (now target : ℕ) (name : Text) (until : ℕ) where
  join_turn-RaceInv :
      (who : Text) (j : Joiner) (r : Race)
      → r.joiner ≡ j
      → RaceInv env now target name until who r
      → RaceInv env now target name until who (join_turn env now target name until j r)
  unfolding join_turn join_enter join_settle
  join_turn-RaceInv who arriving r e h =
      let found = channel_for env.channel_limits r.app name target in
      let start : RaceInv env now target name until who
          (record r { app = r.app; joiner = arriving }) =
        record {
          here = h.here;
          place =
              subst
                (λ j.
                  Place env now target name until j r.moderator
                    (member env now target name until r.app))
                e h.place;
          filed = h.filed;
        } in
      arrived-RaceInv env now target name until who r found.0 found.1 (
        Kept-RaceInv env now target name until who r r.app found.0 arriving
          (channel_for-Kept env target target name r.app) start)
  join_turn-RaceInv who (entered m) r e h =
      let placed : Place env now target name until (entered m) r.moderator
          (member env now target name until r.app) =
        subst
          (λ j.
            Place env now target name until j r.moderator (member env now target name until r.app))
          e h.place in
      let mine = is_mine m.stamp (member env now target name until r.app) in
      let out = leave target m (drop_membership target name r.app) in
      let told = join_announce env r.app target name m in
      if_rule
        (λ (d : Result).
          RaceInv env now target name until who (record r { app = d.0; joiner = settled }))
        (is_banned r.app now name target) {x = (if mine then out else r.app, some err_banned)}
        {y = (told, none)}
        (λ caught.
          if_rule
            (λ a. RaceInv env now target name until who (record r { app = a; joiner = settled }))
            mine {x = out} {y = r.app}
            (λ yes_mine.
              Kept-RaceInv env now target name until who r (drop_membership target name r.app) out
                settled (leave-Kept target target m (drop_membership target name r.app))
                (dropped-RaceInv env now target name until who r settled h.here h.filed))
            (λ gone. record {
              here = h.here;
              place = none-Place env now target name until settled r.moderator _ (
                  is_mine-split env now target name until m (member env now target name until r.app)
                    gone placed);
              filed = h.filed;
            }))
        (λ free.
          let clear : (banned r.app.store now name who).holds ≡ false =
            subst (λ k. (banned r.app.store now name k).holds ≡ false) h.here.keyed free in
          Kept-RaceInv env now target name until who r r.app told settled
            (join_announce-Kept env target target name m r.app)
            (record {
              here = h.here;
              place =
                  settled-Place env now target name until who r.moderator r.app.store
                    (member env now target name until r.app) h.filed clear;
              filed = h.filed;
            }))
  join_turn-RaceInv who settled r e h = h

  ban_turn-part :
      (who : Text) (r : Race) (o : Option Membership)
      → member env now target name until r.app ≡ o
      → RaceInv env now target name until who r
      → Filed env now target name until who done r.app.store
      → RaceInv env now target name until who
          (record r { app = (part_found env target name r.app o).0; moderator = done })
  unfolding part_found
  ban_turn-part who r none e h f = record {
    here = h.here;
    place = none-Place env now target name until r.joiner done _ e;
    filed = f;
  }
  ban_turn-part who r (some m) e h f =
      let dropped = drop_membership target name r.app in
      let gone : RaceInv env now target name until who
          (record r { app = dropped; moderator = done }) =
        dropped-RaceInv env now target name until who (record r { moderator = done }) r.joiner
          h.here f in
      Kept-RaceInv env now target name until who (record r { moderator = done }) dropped
        (parted env target name m dropped) r.joiner (parted-Kept env target target name m dropped)
        gone

  ban_turn-RaceInv :
      (who : Text) (m : Moderator) (r : Race)
      → (until ≡ 0) ⊎ (now < until)
      → r.moderator ≡ m
      → RaceInv env now target name until who r
      → RaceInv env now target name until who (ban_turn env now target name until m r)
  unfolding ban_turn part
  ban_turn-RaceInv who waiting r live e h = record {
    here = record { keyed = h.here.keyed; trimmed = h.here.trimmed };
    place = waited r.joiner _ (
        subst
          (λ m. Place env now target name until r.joiner m (member env now target name until r.app))
          e h.place);
    filed =
        subst (λ k. (banned (ban r.app.store name k until) now name who).holds ≡ true)
          (sym h.here.keyed) (ban-banned r.app.store now name who until live);
  }
    where
      waited :
          (j : Joiner) (o : Option Membership)
          → Place env now target name until j waiting o
          → Place env now target name until j filed o
      waited arriving o p = p
      waited (entered s) o p = p
      waited settled o p = tt
  ban_turn-RaceInv who filed r live e h =
      subst
        (λ there. RaceInv env now target name until who (record r {
          app =
              (part_found env target there r.app
                (lookup there (r.app.conn_at target).memberships)).0;
          moderator = done;
        }))
        (sym h.here.trimmed)
        (ban_turn-part who r (member env now target name until r.app) refl h
          (subst (λ m. Filed env now target name until who m r.app.store) e h.filed))
  ban_turn-RaceInv who done r live e h = h

  turn-RaceInv :
      (who : Text) (t : Turn) (r : Race)
      → (until ≡ 0) ⊎ (now < until)
      → RaceInv env now target name until who r
      → RaceInv env now target name until who (turn env now target name until t r)
  unfolding turn
  turn-RaceInv who joins r live h = join_turn-RaceInv who r.joiner r refl h
  turn-RaceInv who bans r live h = ban_turn-RaceInv who r.moderator r live refl h

  turns-RaceInv :
      (who : Text) (ts : List Turn) (r : Race)
      → (until ≡ 0) ⊎ (now < until)
      → RaceInv env now target name until who r
      → RaceInv env now target name until who (turns env now target name until ts r)
  unfolding turns
  turns-RaceInv who [] r live h = h
  turns-RaceInv who (t ∷ ts) r live h =
      turns-RaceInv who ts (turn env now target name until t r) live (turn-RaceInv who t r live h)

  -- A connection that is not in a channel joins it while a moderator bans it from there, for ever or
  -- to a time still to come: however the steps of the two are ordered, once both are through it is
  -- no member. The channel's name is one that normalising leaves alone.
  pub turns-out :
      (a : App) (ts : List Turn)
      → normalise env.is_space env.is_print a.cfg name ≡ name
      → lookup name (a.conn_at target).memberships ≡ none
      → (until ≡ 0) ⊎ (now < until)
      → (turns env now target name until ts (start_race a)).joiner ≡ settled
      → (turns env now target name until ts (start_race a)).moderator ≡ done
      → lookup name
          ((turns env now target name until ts (start_race a)).app.conn_at target).memberships
        ≡ none
  unfolding start_race
  turns-out a ts trim out live js ms =
      let start : RaceInv env now target name until (key (a.conn_at target).identity)
          (start_race a) =
        record { here = record { keyed = refl; trimmed = trim }; place = out; filed = tt } in
      let last = turns env now target name until ts (start_race a) in
      let h =
        (turns-RaceInv (key (a.conn_at target).identity) ts (start_race a) live start).place in
      subst
        (λ m. Place env now target name until settled m (member env now target name until last.app))
        ms
        (subst
          (λ j.
            Place env now target name until j last.moderator
              (member env now target name until last.app))
          js h)
