-- ===== src/Server/Pumps/Swept.antt =====
-- channel.go with membership.go: what a sweep means to the pumps of a channel.
use ws_chat.Base.{
  ℕ, suc, ◌-◌, ◌*◌, ◌≤◌, ◌<◌, ◌≡◌, ap, subst, sym, ◌∙◌, ◌⊎◌, inl, inr, Bool-cases, true, Option,
  none, some, List, length, ltb, Text, text_keyed, arith,
}
use ws_chat.Base.Dict.{lookup, Distinct}
use ws_chat.Config.{bound}
use ws_chat.Server.State.{App}
use ws_chat.Server.Channels.{sweep_channels}
use ws_chat.Server.Sweep.{
  if_used, lookup-sweep_channels, sweep_list-used, sweep_list-unused, sweep_list-log,
}
use ws_chat.Server.Pumps.{Pump}
use ws_chat.Server.Pumps.Progress.{behind}
use ws_chat.Server.Pumps.Stopping.{tries, tries-stops}

-- A channel that is swept is no longer found, and its pump returns.
abbrev pub Swept : List (Option ℕ) → App → Text → Pump → Type 0
Swept writes a name pu =
    let b = (sweep_channels a).0 in
    (length (a.chan_at pu.member.chan).members ≡ 0)
    × (lookup name b.channels ≡ none)
    × ((tries writes b pu).1.stopped ≡ true)

-- One that is not stays as it is.
abbrev pub Spared : App → Text → ℕ → Type 0
Spared a name p =
    let b = (sweep_channels a).0 in
    (0 < length (a.chan_at p).members)
    × (lookup name b.channels ≡ some p)
    × (b.chan_at p ≡ a.chan_at p)

-- In a table with one channel to a name, for a pump of a channel of it: either no nick is in the
-- channel, and then after the sweep its name leads nowhere, and the pump returns, whatever becomes
-- of each of its writes, after at most one round more than the batches that what it has not
-- received fits in; or some nick is, and then the name still leads to the channel, which has the
-- same rings, members and limit.
pub sweep_channels-settles :
    (writes : List (Option ℕ)) (n : ℕ) (a : App) (pu : Pump) (name : Text)
    → Distinct a.channels
    → lookup name a.channels ≡ some pu.member.chan
    → behind a pu ≤ n * bound a.cfg.write_batch
    → length writes ≡ suc n
    → Swept writes a name pu ⊎ Spared a name pu.member.chan
unfolding sweep_channels
sweep_channels-settles writes n a pu name d there le size =
    let p = pu.member.chan in
    let found = (lookup-sweep_channels a d).0 name ∙ ap (if_used a.chan_at) there in
    elim (Bool-cases (ltb 0 (length (a.chan_at p).members))) [
      | inl used ↦ inr (
        ground (arith, used),
        ground (arith, found, used),
        sweep_list-used a.channels a.chan_at p used,
      )
      | inr unused ↦
          let log = sweep_list-log a.channels a.chan_at p pu.codec in
          inl (
            ground (arith, unused),
            ground (arith, found, unused),
            tries-stops writes n (sweep_channels a).0 pu size
                (sweep_list-unused a.channels a.chan_at name p pu.codec there unused)
                (subst (λ m. m ≤ n * bound a.cfg.write_batch)
                  (sym (ap (λ l. length l - pu.pos) log)) le),
          )
    ]
