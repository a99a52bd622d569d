-- ===== src/Server/Race/Invariant.antt =====
-- What holds of a race between a join and a ban after every turn.
use ws_chat.Base.{
  ℕ, ◌+◌, ◌≡◌, ◌⊎◌, inl, inr, refl, sym, ap, subst, ◌∙◌, true, false, Option, none, some, arith,
  Text, text_keyed, same_text_iff,
}
use ws_chat.Base.Dict.{lookup, lookup-insert, lookup-delete}
use ws_chat.Hook.{key}
use ws_chat.Moderation.{banned, Store}
use ws_chat.Server.State.{Membership, App}
use ws_chat.Server.Env.{Env}
use ws_chat.Server.Names.{normalise}
use ws_chat.Server.Membership.{
  subscribed, new_membership, store_membership, drop_membership, is_mine,
}
use ws_chat.Server.Race.{
  Race, Joiner, arriving, entered, settled, Moderator, waiting, filed, done, arrived,
}
use ws_chat.Server.Race.Kept.{Kept}

module _ (env : Env) (now target : ℕ) (name : Text) (until : ℕ) where
  abbrev pub member : App → Option Membership
  member a = lookup name (a.conn_at target).memberships

  -- `target` with key `who` and settings that leave `name` as it is.
  pub record IsFor (who : Text) (a : App) : Type 0 where
    pub keyed : key (a.conn_at target).identity ≡ who
    pub trimmed : normalise env.is_space env.is_print a.cfg name ≡ name

  -- Who is a member, by the joiner's place and the moderator's.
  abbrev pub Place : Joiner → Moderator → Option Membership → Type 0
  Place arriving m o = o ≡ none
  Place (entered s) m o = (o ≡ none) ⊎ (o ≡ some s)
  Place settled waiting o = Unit
  Place settled filed o = Unit
  Place settled done o = o ≡ none

  abbrev pub Filed : Text → Moderator → Store → Type 0
  Filed who waiting s = Unit
  Filed who filed s = (banned s now name who).holds ≡ true
  Filed who done s = (banned s now name who).holds ≡ true

  pub record RaceInv (who : Text) (r : Race) : Type 0 where
    pub here : IsFor who r.app
    pub place : Place r.joiner r.moderator (member r.app)
    pub filed : Filed who r.moderator r.app.store

  pub Kept-IsFor : (who : Text) (a b : App) → Kept target a b → IsFor who a → IsFor who b
  Kept-IsFor who a b k h = record {
    keyed = ap key k.identity ∙ h.keyed;
    trimmed = ap (λ c. normalise env.is_space env.is_print c name) k.cfg ∙ h.trimmed;
  }

  -- What `store_membership` and `drop_membership` change.
  pub store-member : (m : Membership) (a : App) → member (store_membership target name m a) ≡ some m
  unfolding store_membership
  store-member m a =
      ground
        (arith, lookup-insert name name m (a.conn_at target).memberships, same_text_iff name name)

  pub drop-member : (a : App) → member (drop_membership target name a) ≡ none
  unfolding drop_membership
  drop-member a =
      ground
        (arith, lookup-delete name name (a.conn_at target).memberships, same_text_iff name name)

  pub store-IsFor :
      (who : Text) (m : Membership) (a : App)
      → IsFor who a
      → IsFor who (store_membership target name m a)
  unfolding store_membership
  store-IsFor who m a h = record { keyed = ground (arith, h.keyed); trimmed = h.trimmed }

  pub drop-IsFor : (who : Text) (a : App) → IsFor who a → IsFor who (drop_membership target name a)
  unfolding drop_membership
  drop-IsFor who a h = record { keyed = ground (arith, h.keyed); trimmed = h.trimmed }

  pub store-store : (m : Membership) (a : App) → (store_membership target name m a).store ≡ a.store
  unfolding store_membership
  store-store m a = refl

  pub drop-store : (a : App) → (drop_membership target name a).store ≡ a.store
  unfolding drop_membership
  drop-store a = refl

  pub none-Place : (j : Joiner) (m : Moderator) (o : Option Membership) → o ≡ none → Place j m o
  none-Place arriving m o e = e
  none-Place (entered s) m o e = inl e
  none-Place settled waiting o e = tt
  none-Place settled filed o e = tt
  none-Place settled done o e = e

  -- The joiner's second look, and what it finds if the ban was filed.
  pub settled-Place :
      (who : Text) (m : Moderator) (s : Store) (o : Option Membership)
      → Filed who m s
      → (banned s now name who).holds ≡ false
      → Place settled m o
  settled-Place who waiting s o f e = tt
  settled-Place who filed s o f e = tt
  settled-Place who done s o f e = absurd (ground arith)

  pub Kept-RaceInv :
      (who : Text) (r : Race) (a b : App) (j : Joiner)
      → Kept target a b
      → RaceInv who (record r { app = a; joiner = j })
      → RaceInv who (record r { app = b; joiner = j })
  Kept-RaceInv who r a b j k h = record {
    here = Kept-IsFor who a b k h.here;
    place = subst (λ ms. Place j r.moderator (lookup name ms)) (sym k.memberships) h.place;
    filed = subst (Filed who r.moderator) (sym k.store) h.filed;
  }

  pub dropped-RaceInv :
      (who : Text) (r : Race) (j : Joiner)
      → IsFor who r.app
      → Filed who r.moderator r.app.store
      → RaceInv who (record r { app = drop_membership target name r.app; joiner = j })
  dropped-RaceInv who r j h f = record {
    here = drop-IsFor who r.app h;
    place = none-Place j r.moderator _ (drop-member r.app);
    filed = subst (Filed who r.moderator) (sym (drop-store r.app)) f;
  }

  pub arrived-RaceInv :
      (who : Text) (r : Race) (a : App) (found : Option ℕ)
      → RaceInv who (record r { app = a; joiner = arriving })
      → RaceInv who (
          arrived env now target name until
            (subscribed env target name a found).0
            (subscribed env target name a found).1
            r)
  arrived-RaceInv who r a none h = record {
    here = h.here;
    place = none-Place settled r.moderator _ h.place;
    filed = h.filed;
  }
  arrived-RaceInv who r a (some p) h =
      let m = new_membership env a target p in
      let later : App = record a { next = a.next + 1 } in
      let same : IsFor who later = record { keyed = h.here.keyed; trimmed = h.here.trimmed } in
      record {
        here = store-IsFor who m later same;
        place = inr (store-member m later);
        filed = subst (Filed who r.moderator) (sym (store-store m later)) h.filed;
      }

  pub is_mine-split :
      (m : Membership) (o : Option Membership)
      → is_mine m.stamp o ≡ false
      → (o ≡ none) ⊎ (o ≡ some m)
      → o ≡ none
  is_mine-split m none e h = refl
  is_mine-split m (some n) e h = ground arith
