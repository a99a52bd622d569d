-- ===== src/Server/Sanctions/Loading.antt =====
-- hooks.go: the mutes and bans that are in the store after startup.
use ws_chat.Base.{
  ℕ, ◌+◌, ◌≡◌, refl, ap, ◌∙◌, Bool, ◌&&◌, ◌||◌, Option, none, some, List, [], ◌∷◌, if◌then◌else◌,
  Text, count, one, same_text_iff, ◌==◌, text_keyed, arith,
}
use ws_chat.Base.Dict.{lookup, lookup-insert}
use ws_chat.Hook.{Sanction}
use ws_chat.Moderation.{Time, Store, Entry, entry, entry_keyed, mute, ban, new}
use ws_chat.Proto.Command.{action_mute, action_ban}
use ws_chat.Server.Sanctions.{load_one, load_each, load_sanctions}

-- The time of the last sanction of that action for that scope and key, if there is one.
abbrev pub last_of : Text → Entry → List Sanction → Option Time → Option Time
last_of action e [] old = old
last_of action e (m ∷ ms) old =
    last_of action e ms
      (if (m.action == action) && (entry m.scope m.key == e) then some m.until else old)

abbrev pub is_loaded : Sanction → Bool
is_loaded m = (m.action == action_mute) || (m.action == action_ban)

load_one-mutes :
    (m : Sanction) (r : Store × ℕ) (e : Entry)
    → lookup e (load_one m r).0.mutes ≡ (
        if (m.action == action_mute) && (entry m.scope m.key == e)
        then some m.until
        else lookup e r.0.mutes)
unfolding load_one mute ban
load_one-mutes m (s, n) e = ground (arith, lookup-insert (entry m.scope m.key) e m.until s.mutes)

load_one-bans :
    (m : Sanction) (r : Store × ℕ) (e : Entry)
    → lookup e (load_one m r).0.bans ≡ (
        if (m.action == action_ban) && (entry m.scope m.key == e)
        then some m.until
        else lookup e r.0.bans)
unfolding load_one mute ban
load_one-bans m (s, n) e = ground (
  arith,
  lookup-insert (entry m.scope m.key) e m.until s.bans,
  same_text_iff m.action action_mute,
  same_text_iff m.action action_ban,
)

load_one-count : (m : Sanction) (r : Store × ℕ) → (load_one m r).1 ≡ r.1 + one (is_loaded m)
unfolding load_one
load_one-count m (s, n) = ground arith

load_each-all :
    (ms : List Sanction) (r : Store × ℕ) (e : Entry)
    → (lookup e (load_each ms r).0.mutes ≡ last_of action_mute e ms (lookup e r.0.mutes))
      × (lookup e (load_each ms r).0.bans ≡ last_of action_ban e ms (lookup e r.0.bans))
      × ((load_each ms r).1 ≡ r.1 + count is_loaded ms)
unfolding load_each
load_each-all [] r e = (refl, refl, omega arith)
load_each-all (m ∷ ms) r e =
    let rest = load_each-all ms (load_one m r) e in
    (
      rest.0 ∙ ap (last_of action_mute e ms) (load_one-mutes m r e),
      rest.1 ∙ ap (last_of action_ban e ms) (load_one-bans m r e),
      omega (arith, rest.2, load_one-count m r),
    )

-- For a Sanctions hook that answers with any list: a new store has, for every scope and key, the mute
-- of the last sanction in the list that mutes there and the ban of the last one that bans there, until
-- the time it says, and no other; and the number that is reported is that of the mutes and bans in the
-- list. With no hook nothing is loaded, and a hook that fails stops the server.
pub load_sanctions-last :
    (ms : List Sanction) (e : Entry)
    → (load_sanctions (some (some ms)) new ≡ some (load_each ms (new, 0)))
      × (lookup e (load_each ms (new, 0)).0.mutes ≡ last_of action_mute e ms none)
      × (lookup e (load_each ms (new, 0)).0.bans ≡ last_of action_ban e ms none)
      × ((load_each ms (new, 0)).1 ≡ count is_loaded ms)
      × (load_sanctions none new ≡ some (new, 0))
      × (load_sanctions (some none) new ≡ none)
unfolding load_sanctions new lookup
load_sanctions-last ms e =
    let all = load_each-all ms (new, 0) e in (refl, all.0, all.1, omega (arith, all.2), refl, refl)
