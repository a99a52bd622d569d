-- ===== src/Server/Sanctions.antt =====
-- hooks.go: what is restored at startup, and who somebody is when they connect.
-- A hook that is absent is `none`; what a hook answers is a parameter.
pub mod Loading
mod Tests
use ws_chat.Base.{
  ℕ, ◌+◌, ◌%◌, ◌^◌, Bool, true, false, Option, none, some, List, [], ◌∷◌, ◌++◌, if◌then◌else◌, Text,
  bytes, ◌==◌, text_keyed,
}
use ws_chat.Base.Decimal.{print_int}
use ws_chat.Hook.{Identity, Chatter, Sanction, anonymous, apply_chatter}
use ws_chat.Moderation.{Store, mute, ban}
use ws_chat.Proto.Command.{action_mute, action_ban}

-- One round of the loop of `loadSanctions`: the store, and how many were loaded.
unfoldable pub load_one : Sanction → Store × ℕ → Store × ℕ
load_one m (s, n) =
    if m.action == action_mute
    then (mute s m.scope m.key m.until, n + 1)
    else (if m.action == action_ban then (ban s m.scope m.key m.until, n + 1) else (s, n))

unfoldable pub load_each : List Sanction → Store × ℕ → Store × ℕ
load_each [] r = r
load_each (m ∷ ms) r = load_each ms (load_one m r)

-- `loadSanctions`; `none` is the error that stops the server. The hook may be absent, or fail.
unfoldable pub load_sanctions : Option (Option (List Sanction)) → Store → Option (Store × ℕ)
load_sanctions none s = some (s, 0)
load_sanctions (some none) s = none
load_sanctions (some (some ms)) s = some (load_each ms (s, 0))

-- What the Directory says of an id.
pub data Found : Type 0 where
  chatter : Chatter → Found
  no_chatter broken : Found

abbrev pub applied : Found → Identity → Identity
applied (chatter c) who = apply_chatter who c
applied no_chatter who = who
applied broken who = who

abbrev pub nobody : Identity
nobody = record { id = []; nick = []; roles = []; attrs = [] }

abbrev pub known_as : Option (Text → Found) → Identity → Identity
known_as none who = who
known_as (some f) who = if anonymous who then who else applied (f who.id) who

-- `identify` once the Auth hook has answered: the identity, and the counter of the anonymous.
unfoldable pub identified : Option (Text → Found) → Identity → ℕ → Identity × ℕ
identified dir who n =
    let known = known_as dir who in
    if known.nick == []
    then (record known { nick = bytes "anon" ++ print_int ((n + 1) % 2 ^ 64) }, (n + 1) % 2 ^ 64)
    else (known, n)

-- `identify`; `none` is the refusal by the Auth hook, which may be absent.
unfoldable pub identify :
    Option (Option Identity) → Option (Text → Found) → ℕ → Option (Identity × ℕ)
identify none dir n = some (identified dir nobody n)
identify (some none) dir n = none
identify (some (some who)) dir n = some (identified dir who n)
