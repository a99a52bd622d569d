-- ===== src/Moderation.antt =====
-- internal/moderation/moderation.go: who is muted and banned, and where.
-- A `time.Time` is a number of nanoseconds, 0 for the zero time. `active` reads the clock in each
-- round of its loop; here the rounds of one call see one time.
pub mod Answers
pub mod Sweeping
mod Tests
use ws_chat.Base.{
  ℕ, suc, ◌+◌, ◌≡◌, ◌↔◌, Bool, true, false, not, ◌&&◌, ◌||◌, Option, none, some, List, [], ◌∷◌,
  ◌++◌, arith, ltb, eqb, if◌then◌else◌, length, Text, text_keyed, Keyed, ◌==◌, same_text,
  same_text_iff,
}
use ws_chat.Base.Dict.{Dict, lookup, insert, delete, has, Distinct}

abbrev pub Time : Type 0
Time = ℕ

abbrev pub zero_time : Time
zero_time = 0

-- `Global`, the server-wide scope.
abbrev pub global : Text
global = []

pub record Entry : Type 0 where
  pub scope : Text
  pub key : Text

abbrev pub same_entry : Entry → Entry → Bool
same_entry a b = same_text a.scope b.scope && same_text a.key b.key

pub same_entry_iff : (a b : Entry) → (same_entry a b ≡ true) ↔ (a ≡ b)
same_entry_iff a b = ground (arith, same_text_iff a.scope b.scope, same_text_iff a.key b.key)

instance abbrev pub entry_keyed : Keyed Entry
entry_keyed = record { same = same_entry; same_iff = same_entry_iff }

abbrev pub Table : Type 0
Table = Dict Entry Time

pub record Store : Type 0 where
  pub mutes : Table
  pub bans : Table

unfoldable pub new : Store
new = record { mutes = []; bans = [] }

abbrev pub entry : Text → Text → Entry
entry scope key = record { scope = scope; key = key }

unfoldable pub mute : Store → Text → Text → Time → Store
mute s scope key until = record s { mutes = insert (entry scope key) until s.mutes }

unfoldable pub ban : Store → Text → Text → Time → Store
ban s scope key until = record s { bans = insert (entry scope key) until s.bans }

-- `clear`: the table without the entry, and whether it was there.
pub clear : Table → Entry → Table × Bool
clear m e = if has e m then (delete e m, true) else (m, false)

pub unmute : Store → Text → Text → Store × Bool
unmute s scope key =
    let (m, found) = clear s.mutes (entry scope key) in (record s { mutes = m }, found)

pub unban : Store → Text → Text → Store × Bool
unban s scope key =
    let (m, found) = clear s.bans (entry scope key) in (record s { bans = m }, found)

-- `!until.IsZero() && !now.Before(until)`.
abbrev pub expired : Time → Time → Bool
expired now until = not (eqb until 0) && not (ltb now until)

-- The answer of `active`, and the time that comes with it.
pub record Verdict : Type 0 where
  pub holds : Bool
  pub until : Time

abbrev pub clear_verdict : Verdict
clear_verdict = record { holds = false; until = zero_time }

-- The loop of `active` over the scopes.
unfoldable pub first_active : Table → Time → Text → List Text → Verdict
first_active m now key [] = clear_verdict
first_active m now key (sc ∷ scs) =
    let rest = first_active m now key scs in
    elim (lookup (entry sc key) m) [
      | none ↦ rest
      | some until ↦ if expired now until then rest else record { holds = true; until = until }
    ]

unfoldable pub scopes_of : Text → List Text
scopes_of scope = if scope == global then scope ∷ [] else scope ∷ global ∷ []

unfoldable pub active : Table → Time → Text → Text → Verdict
active m now scope key = first_active m now key (scopes_of scope)

unfoldable pub muted : Store → Time → Text → Text → Verdict
muted s now scope key = active s.mutes now scope key

unfoldable pub banned : Store → Time → Text → Text → Verdict
banned s now scope key = active s.bans now scope key

-- One map of `Sweep`: what is left, and how many entries went.
pub sweep_table : Time → Table → Table × ℕ
sweep_table now [] = ([], 0)
sweep_table now ((e, until) ∷ m) =
    let (kept, removed) = sweep_table now m in
    if expired now until then (kept, removed + 1) else ((e, until) ∷ kept, removed)

pub sweep : Store → Time → Store × ℕ
sweep s now =
    let (mutes, gone) = sweep_table now s.mutes in
    let (bans, lifted) = sweep_table now s.bans in
    (record { mutes = mutes; bans = bans }, gone + lifted)

pub counts : Store → ℕ × ℕ
counts s = (length s.mutes, length s.bans)
