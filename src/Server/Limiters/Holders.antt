-- ===== src/Server/Limiters/Holders.antt =====
-- The count of holders is right, so a bucket that is held is not forgotten.
use ws_chat.Base.{
  ℕ, ◌+◌, ◌-◌, ◌<◌, ◌≡◌, ◌≢◌, refl, ◌∙◌, Option, none, some, List, [], ◌∷◌, arith, ltb,
  if◌then◌else◌, Text, ◌==◌, text_keyed, same_text_iff, if_rule,
}
use ws_chat.Base.Dict.{lookup, Distinct, lookup-insert, insert-Distinct}
use ws_chat.Hook.{Limits}
use ws_chat.Server.Limiters.{Shared, Limiters, one_more, acquire, one_less, release, sweep_limiters}

-- Connections come with their limits, leave a key that they hold, and the janitor comes.
pub data Change : Type 0 where
  comes : Limits → Change
  leaves : Text → Change
  janitor : ℕ → Change

-- How many of the holders hold `key`.
pub held : Text → List Text → ℕ
held key [] = 0
held key (k ∷ ks) = let rest = held key ks in if k == key then rest + 1 else rest

-- One holder of `key` fewer.
pub without : Text → List Text → List Text
without key [] = []
without key (k ∷ ks) = let rest = without key ks in if k == key then ks else k ∷ rest

pub record Table : Type 0 where
  pub limiters : Limiters
  pub holders : List Text

pub change : Change → Table → Table
change (comes l) t = record { limiters = acquire l t.limiters; holders = l.key ∷ t.holders }
change (leaves key) t =
    if ltb 0 (held key t.holders)
    then record { limiters = release key t.limiters; holders = without key t.holders }
    else t
change (janitor now) t = record t { limiters = (sweep_limiters now t.limiters).0 }

pub changes : List Change → Table → Table
changes [] t = t
changes (x ∷ xs) t = changes xs (change x t)

abbrev pub refs_of : Option Shared → ℕ
refs_of none = 0
refs_of (some e) = e.refs

record Counted (t : Table) : Type 0 where
  distinct : Distinct t.limiters
  counted : (key : Text) → refs_of (lookup key t.limiters) ≡ held key t.holders

held-without :
    (key k : Text) (ks : List Text)
    → 0 < held k ks
    → held key (without k ks) ≡ (if k == key then held key ks - 1 else held key ks)
unfolding held without
held-without key k [] h = absurd (omega arith)
held-without key k (j ∷ ks) h =
    ground
      (arith, same_text_iff j k, same_text_iff k key, same_text_iff j key, held-without key k ks)

refs-one_more : (l : Limits) (o : Option Shared) → (one_more l o).refs ≡ refs_of o + 1
refs-one_more l none = refl
refs-one_more l (some e) = refl

acquire-refs :
    (key : Text) (l : Limits) (t : Limiters)
    → refs_of (lookup key (acquire l t))
      ≡ (if l.key == key then refs_of (lookup key t) + 1 else refs_of (lookup key t))
unfolding acquire
acquire-refs key l t = ground (
  arith,
  lookup-insert l.key key (one_more l (lookup l.key t)) t,
  same_text_iff l.key key,
  refs-one_more l (lookup l.key t),
)

one_less-refs :
    (key k : Text) (t : Limiters) (o : Option Shared)
    → lookup k t ≡ o
    → refs_of (lookup key (one_less k t o))
      ≡ (if k == key then refs_of (lookup key t) - 1 else refs_of (lookup key t))
one_less-refs key k t none e = ground (arith, same_text_iff k key)
one_less-refs key k t (some s) e =
    ground (arith, lookup-insert k key (record s { refs = s.refs - 1 }) t, same_text_iff k key)

one_less-Distinct :
    (k : Text) (t : Limiters) (o : Option Shared) → Distinct t → Distinct (one_less k t o)
one_less-Distinct k t none d = d
one_less-Distinct k t (some s) d =
    if_rule Distinct (ltb 0 s.refs) (λ _. insert-Distinct k (record s { refs = s.refs - 1 }) t d)
      (λ _. d)

-- A sweep keeps the count of every key, as it takes away only what nobody holds.
refs-sweep_limiters :
    (now : ℕ) (key : Text) (t : Limiters)
    → Distinct t
    → refs_of (lookup key (sweep_limiters now t).0) ≡ refs_of (lookup key t)
unfolding lookup sweep_limiters
refs-sweep_limiters now key [] d = refl
refs-sweep_limiters now key ((k, e) ∷ t) d =
    ground (arith, same_text_iff k key, refs-sweep_limiters now key t d.1)

absent-sweep_limiters :
    (now : ℕ) (key : Text) (t : Limiters)
    → lookup key t ≡ none
    → lookup key (sweep_limiters now t).0 ≡ none
unfolding lookup sweep_limiters
absent-sweep_limiters now key [] h = refl
absent-sweep_limiters now key ((k, e) ∷ t) h = ground (arith, absent-sweep_limiters now key t)

sweep_limiters-Distinct : (now : ℕ) (t : Limiters) → Distinct t → Distinct (sweep_limiters now t).0
unfolding lookup sweep_limiters
sweep_limiters-Distinct now [] d = d
sweep_limiters-Distinct now ((k, e) ∷ t) d =
    ground (arith, absent-sweep_limiters now k t d.0, sweep_limiters-Distinct now t d.1)

change-Counted : (x : Change) (t : Table) → Counted t → Counted (change x t)
unfolding change
change-Counted (comes l) t c =
    unfold acquire held in
    record {
      distinct = insert-Distinct l.key _ t.limiters c.distinct;
      counted = λ key. ground (arith, acquire-refs key l t.limiters, c.counted key);
    }
change-Counted (leaves k) t c =
    if_rule Counted (ltb 0 (held k t.holders))
      (λ some_hold.
        unfold release in
        record {
          distinct = one_less-Distinct k t.limiters (lookup k t.limiters) c.distinct;
          counted = λ key. ground (
            arith,
            one_less-refs key k t.limiters (lookup k t.limiters) refl,
            held-without key k t.holders,
            c.counted key,
          );
        })
      (λ _. c)
change-Counted (janitor now) t c = record {
  distinct = sweep_limiters-Distinct now t.limiters c.distinct;
  counted = λ key. refs-sweep_limiters now key t.limiters c.distinct ∙ c.counted key;
}

changes-Counted : (xs : List Change) (t : Table) → Counted t → Counted (changes xs t)
unfolding changes
changes-Counted [] t c = c
changes-Counted (x ∷ xs) t c = changes-Counted xs (change x t) (change-Counted x t c)

-- From an empty table, in any order of connections that come, that leave a key they hold, and of
-- sweeps: the count of every key is the number of connections that hold it, and the bucket of a key
-- that somebody holds is still in the table.
pub held-limiters :
    (xs : List Change) (key : Text)
    → (refs_of (lookup key (changes xs (record { limiters = []; holders = [] })).limiters)
        ≡ held key (changes xs (record { limiters = []; holders = [] })).holders)
      × (0 < held key (changes xs (record { limiters = []; holders = [] })).holders
          → lookup key (changes xs (record { limiters = []; holders = [] })).limiters ≢ none)
held-limiters xs key =
    let start : Table = record { limiters = []; holders = [] } in
    let fresh : Counted start = record {
      distinct = tt;
      counted = λ k. unfold lookup held in refl;
    } in
    let same = (changes-Counted xs start fresh).counted key in
    (same, λ some_hold gone. ground arith)
