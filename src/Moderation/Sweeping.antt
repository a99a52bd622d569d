-- ===== src/Moderation/Sweeping.antt =====
-- `Sweep` is only housekeeping.
use ws_chat.Base.{
  ◌+◌, ◌≤◌, ◌≡◌, refl, none, some, List, [], ◌∷◌, arith, if◌then◌else◌, length, Text, text_keyed,
}
use ws_chat.Base.Dict.{lookup, Distinct}
use ws_chat.Moderation.{
  Time, Entry, entry, same_entry_iff, entry_keyed, Table, Store, expired, first_active, scopes_of,
  active, muted, banned, sweep_table, sweep,
}

lookup-sweep_table :
    (now : Time) (e : Entry) (m : Table)
    → Distinct m
    → lookup e (sweep_table now m).0 ≡ elim (lookup e m) [
      | none ↦ none
      | some until ↦ if expired now until then none else some until
    ]
unfolding lookup sweep_table
lookup-sweep_table now e [] d = refl
lookup-sweep_table now e ((f, until) ∷ m) d =
    ground (arith, same_entry_iff f e, lookup-sweep_table now e m d.1)

-- A sweep leaves every key at most once.
pub sweep_table-Distinct : (now : Time) (m : Table) → Distinct m → Distinct (sweep_table now m).0
unfolding sweep_table
sweep_table-Distinct now [] d = d
sweep_table-Distinct now ((f, until) ∷ m) d =
    ground (arith, lookup-sweep_table now f m d.1, sweep_table-Distinct now m d.1)

-- What is left and what is counted as removed make up the table.
sweep_table-count :
    (now : Time) (m : Table) → length (sweep_table now m).0 + (sweep_table now m).1 ≡ length m
unfolding sweep_table
sweep_table-count now [] = refl
sweep_table-count now ((f, until) ∷ m) = ground (arith, sweep_table-count now m)

first_active-sweep :
    (now later : Time) (m : Table) (key : Text) (scopes : List Text)
    → now ≤ later
    → Distinct m
    → first_active (sweep_table now m).0 later key scopes ≡ first_active m later key scopes
unfolding first_active
first_active-sweep now later m key [] le d = refl
first_active-sweep now later m key (sc ∷ scs) le d =
    ground (
      arith,
      lookup-sweep_table now (entry sc key) m d,
      first_active-sweep now later m key scs le d,
    )

-- The maps of a store hold each entry once.
pub record IsValid (s : Store) : Type 0 where
  pub mutes_distinct : Distinct s.mutes
  pub bans_distinct : Distinct s.bans

-- In a store whose tables hold no key twice: at the time of a sweep or later, in every scope and for everybody, `Muted` and `Banned` answer
-- after it what they would have answered without it; and the number that `Sweep` returns is the
-- number of entries that went.
pub sweep-answers :
    (s : Store) (now later : Time) (scope key : Text)
    → IsValid s
    → now ≤ later
    → (muted (sweep s now).0 later scope key ≡ muted s later scope key)
      × (banned (sweep s now).0 later scope key ≡ banned s later scope key)
      × (length (sweep s now).0.mutes + length (sweep s now).0.bans + (sweep s now).1
          ≡ length s.mutes + length s.bans)
unfolding sweep muted banned active
sweep-answers s now later scope key v le = (
  first_active-sweep now later s.mutes key (scopes_of scope) le v.mutes_distinct,
  first_active-sweep now later s.bans key (scopes_of scope) le v.bans_distinct,
  omega (arith, sweep_table-count now s.mutes, sweep_table-count now s.bans),
)
