-- ===== src/Moderation/Answers.antt =====
-- What `Muted` and `Banned` answer, and how the operations change it.
use ws_chat.Base.{
  ◌<◌, ◌≡◌, ◌≢◌, ◌↔◌, ◌⊎◌, Bool, true, false, not, ◌||◌, none, some, arith, if◌then◌else◌, Text,
  text_keyed, ◌==◌, same_text_iff,
}
use ws_chat.Base.Dict.{lookup, insert, lookup-insert, lookup-delete}
use ws_chat.Moderation.{
  Time, global, Entry, entry, same_entry_iff, entry_keyed, Table, Store, mute, clear, unban, ban,
  expired, first_active, scopes_of, active, muted, banned,
}

-- An entry is in force at `now`.
abbrev pub InForce : Table → Time → Text → Text → Type 0
InForce m now scope key =
    (until : Time) × (lookup (entry scope key) m ≡ some until) × ((until ≡ 0) ⊎ (now < until))

-- What one round of the loop sees.
pub in_force : Table → Time → Text → Text → Bool
in_force m now scope key = elim (lookup (entry scope key) m) [
  | none ↦ false
  | some until ↦ not (expired now until)
]

pub in_force_iff :
    (m : Table) (now : Time) (scope key : Text)
    → (in_force m now scope key ≡ true) ↔ InForce m now scope key
unfolding in_force
in_force_iff m now scope key = (λ h. ground arith, λ h. ground arith)

pub active-holds :
    (m : Table) (now : Time) (scope key : Text)
    → (active m now scope key).holds ≡ (in_force m now scope key || in_force m now global key)
unfolding active scopes_of first_active in_force
active-holds m now scope key = ground (arith, same_text_iff scope global)

-- Somebody is muted (banned: the same) in a scope exactly when an entry for that scope, or one for
-- the whole server, is in force: it never expires or has not expired yet.
pub active_iff :
    (m : Table) (now : Time) (scope key : Text)
    → ((active m now scope key).holds ≡ true) ↔ (InForce m now scope key ⊎ InForce m now global key)
active_iff m now scope key = (
  λ h. ground (
    arith,
    active-holds m now scope key,
    in_force_iff m now scope key,
    in_force_iff m now global key,
  ),
  λ h. ground (
    arith,
    active-holds m now scope key,
    in_force_iff m now scope key,
    in_force_iff m now global key,
  ),
)

in_force-insert :
    (m : Table) (now : Time) (e : Entry) (until : Time) (scope key : Text)
    → in_force (insert e until m) now scope key
      ≡ (if e == entry scope key then not (expired now until) else in_force m now scope key)
unfolding in_force
in_force-insert m now e until scope key = ground (arith, lookup-insert e (entry scope key) until m)

in_force-clear :
    (m : Table) (now : Time) (e : Entry) (scope key : Text)
    → in_force (clear m e).0 now scope key
      ≡ (if e == entry scope key then false else in_force m now scope key)
unfolding in_force clear
in_force-clear m now e scope key =
    ground (arith, lookup-delete e (entry scope key) m, same_entry_iff e (entry scope key))

-- A mute that never expires or has not expired yet is in force at once, in its own scope; a
-- server-wide one in every scope. It changes nothing for any other key.
mute-muted :
    (s : Store) (now : Time) (scope key : Text) (until : Time)
    → (until ≡ 0) ⊎ (now < until)
    → ((muted (mute s scope key until) now scope key).holds ≡ true)
      × ((sc : Text) → scope ≡ global → (muted (mute s scope key until) now sc key).holds ≡ true)
      × ((sc other : Text)
          → key ≢ other
          → (muted (mute s scope key until) now sc other).holds ≡ (muted s now sc other).holds)
unfolding mute muted
mute-muted s now scope key until live = (
  ground (
    arith,
    active-holds (insert (entry scope key) until s.mutes) now scope key,
    in_force-insert s.mutes now (entry scope key) until scope key,
    same_entry_iff (entry scope key) (entry scope key),
  ),
  λ sc e. ground (
    arith,
    active-holds (insert (entry scope key) until s.mutes) now sc key,
    in_force-insert s.mutes now (entry scope key) until global key,
    same_entry_iff (entry scope key) (entry global key),
  ),
  λ sc other ne. ground (
    arith,
    active-holds (insert (entry scope key) until s.mutes) now sc other,
    active-holds s.mutes now sc other,
    in_force-insert s.mutes now (entry scope key) until sc other,
    in_force-insert s.mutes now (entry scope key) until global other,
    same_entry_iff (entry scope key) (entry sc other),
    same_entry_iff (entry scope key) (entry global other),
  ),
)

-- A ban that never expires or has not expired yet is in force at once, in its own scope.
pub ban-banned :
    (s : Store) (now : Time) (scope key : Text) (until : Time)
    → (until ≡ 0) ⊎ (now < until)
    → (banned (ban s scope key until) now scope key).holds ≡ true
unfolding ban banned
ban-banned s now scope key until live = ground (
  arith,
  active-holds (insert (entry scope key) until s.bans) now scope key,
  in_force-insert s.bans now (entry scope key) until scope key,
  same_entry_iff (entry scope key) (entry scope key),
)

-- Lifting a channel's ban leaves a server-wide one standing: afterwards the key is banned in the
-- channel exactly when a server-wide ban on it is in force, and is banned elsewhere as before.
unban-banned :
    (s : Store) (now : Time) (scope key : Text)
    → scope ≢ global
    → ((banned (unban s scope key).0 now scope key).holds ≡ in_force s.bans now global key)
      × ((sc : Text)
          → scope ≢ sc
          → (banned (unban s scope key).0 now sc key).holds ≡ (banned s now sc key).holds)
unfolding unban banned
unban-banned s now scope key ne = (
  ground (
    arith,
    active-holds (clear s.bans (entry scope key)).0 now scope key,
    in_force-clear s.bans now (entry scope key) scope key,
    in_force-clear s.bans now (entry scope key) global key,
    same_entry_iff (entry scope key) (entry scope key),
    same_entry_iff (entry scope key) (entry global key),
  ),
  λ sc other. ground (
    arith,
    active-holds (clear s.bans (entry scope key)).0 now sc key,
    active-holds s.bans now sc key,
    in_force-clear s.bans now (entry scope key) sc key,
    in_force-clear s.bans now (entry scope key) global key,
    same_entry_iff (entry scope key) (entry sc key),
    same_entry_iff (entry scope key) (entry global key),
  ),
)
