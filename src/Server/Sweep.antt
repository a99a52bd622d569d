-- ===== src/Server/Sweep.antt =====
-- What sweeping the channels takes away.
use ws_chat.Base.{
  ℕ, ◌+◌, ◌≡◌, refl, ap, subst, Bool-cases, inl, inr, true, false, eqb, if_rule, Option, none, some,
  [], ◌∷◌, arith, ltb, if◌then◌else◌, Text, length, text_keyed, same_text_iff,
}
use ws_chat.Base.Dict.{Dict, lookup, Distinct}
use ws_chat.Proto.Codec.{Codec}
use ws_chat.Server.State.{Channel, App}
use ws_chat.Server.Channels.{sweep_list, sweep_channels}

-- Where a sweep leads from what a name led to.
abbrev pub if_used : (ℕ → Channel) → Option ℕ → Option ℕ
if_used at none = none
if_used at (some p) = if ltb 0 (length (at p).members) then some p else none

lookup-sweep_list :
    (name : Text) (table : Dict Text ℕ) (at : ℕ → Channel)
    → Distinct table
    → lookup name (sweep_list table at).0 ≡ if_used at (lookup name table)
unfolding lookup sweep_list
lookup-sweep_list name [] at d = refl
lookup-sweep_list name ((other, p) ∷ table) at d =
    ground (arith, same_text_iff other name, lookup-sweep_list name table at d.1)

sweep_list-count :
    (table : Dict Text ℕ) (at : ℕ → Channel)
    → length (sweep_list table at).0 + (sweep_list table at).2 ≡ length table
unfolding sweep_list
sweep_list-count [] at = refl
sweep_list-count ((other, p) ∷ table) at = ground (arith, sweep_list-count table at)

sweep_list-members :
    (table : Dict Text ℕ) (at : ℕ → Channel) (p : ℕ)
    → ((sweep_list table at).1 p).members ≡ (at p).members
unfolding sweep_list
sweep_list-members [] at p = refl
sweep_list-members ((other, q) ∷ table) at p =
    ground (arith, sweep_list-members table at p, sweep_list-members table at q)

-- A channel with nicks is left alone.
pub sweep_list-used :
    (table : Dict Text ℕ) (at : ℕ → Channel) (p : ℕ)
    → ltb 0 (length (at p).members) ≡ true
    → (sweep_list table at).1 p ≡ at p
unfolding sweep_list
sweep_list-used [] at p h = refl
sweep_list-used ((other, q) ∷ table) at p h =
    let memory = (sweep_list table at).1 in
    if_rule (λ (r : Dict Text ℕ × (ℕ → Channel) × ℕ). r.1 p ≡ at p) (ltb 0 (length (at q).members))
      (λ _. sweep_list-used table at p h)
      (λ unused.
        if_rule (λ (ch : Channel). ch ≡ at p) (eqb q p)
          (λ e.
            let same : q ≡ p = ground (arith, e) in
            absurd (ground (arith, unused, h, ap (λ r. ltb 0 (length (at r).members)) same)))
          (λ _. sweep_list-used table at p h))

-- The rings of one without are closed, with what is in them.
pub sweep_list-unused :
    (table : Dict Text ℕ) (at : ℕ → Channel) (name : Text) (p : ℕ) (k : Codec)
    → lookup name table ≡ some p
    → ltb 0 (length (at p).members) ≡ false
    → (((sweep_list table at).1 p).rings k).shut ≡ true
unfolding sweep_list lookup
sweep_list-unused [] at name p k there h = absurd (cc)
sweep_list-unused ((other, q) ∷ table) at name p k there h =
    let memory = (sweep_list table at).1 in
    if_rule (λ (r : Dict Text ℕ × (ℕ → Channel) × ℕ). ((r.1 p).rings k).shut ≡ true)
      (ltb 0 (length (at q).members))
      (λ used.
        sweep_list-unused table at name p k
          (elim (Bool-cases (eqb q p)) [
            | inl e ↦
                let same : q ≡ p = ground (arith, e) in
                absurd (ground (arith, used, h, ap (λ r. ltb 0 (length (at r).members)) same))
            | inr apart ↦ ground (arith, there, apart)
          ])
          h)
      (λ _.
        if_rule (λ (ch : Channel). (ch.rings k).shut ≡ true) (eqb q p) (λ _. refl)
          (λ apart. sweep_list-unused table at name p k (ground (arith, there, apart)) h))

pub sweep_list-log :
    (table : Dict Text ℕ) (at : ℕ → Channel) (p : ℕ) (k : Codec)
    → (((sweep_list table at).1 p).rings k).log ≡ ((at p).rings k).log
unfolding sweep_list
sweep_list-log [] at p k = refl
sweep_list-log ((other, q) ∷ table) at p k =
    let memory = (sweep_list table at).1 in
    if_rule (λ (r : Dict Text ℕ × (ℕ → Channel) × ℕ). ((r.1 p).rings k).log ≡ ((at p).rings k).log)
      (ltb 0 (length (at q).members)) (λ _. sweep_list-log table at p k)
      (λ _.
        if_rule (λ (ch : Channel). (ch.rings k).log ≡ ((at p).rings k).log) (eqb q p)
          (λ e.
            subst (λ r. ((memory q).rings k).log ≡ ((at r).rings k).log) (ground (arith, e))
              (sweep_list-log table at q k))
          (λ _. sweep_list-log table at p k))

-- In a table with one channel to a name: sweeping takes away exactly the channels without nicks, keeps the members of all, and returns how many channels it took away.
pub lookup-sweep_channels :
    (a : App)
    → Distinct a.channels
    → ((name : Text)
        → lookup name (sweep_channels a).0.channels ≡ if_used a.chan_at (lookup name a.channels))
      × ((p : ℕ) → ((sweep_channels a).0.chan_at p).members ≡ (a.chan_at p).members)
      × (length (sweep_channels a).0.channels + (sweep_channels a).1 ≡ length a.channels)
unfolding sweep_channels
lookup-sweep_channels a d = (
  λ name. lookup-sweep_list name a.channels a.chan_at d,
  λ p. sweep_list-members a.channels a.chan_at p,
  sweep_list-count a.channels a.chan_at,
)
