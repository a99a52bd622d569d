-- ===== src/History.antt =====
-- internal/history/history.go: the replay window. A non-positive `max` or `n` is 0 here.
pub mod Windows
mod Tests
use ws_chat.Base.{
  ℕ, suc, ◌+◌, ◌-◌, ◌≤◌, Bool, Option, none, some, List, [], ◌∷◌, ◌++◌, arith, ltb, leb, eqb,
  if◌then◌else◌, length, drop, Text, text_keyed,
}
use ws_chat.Base.Dict.{Dict, lookup, insert}

pub record Memory {ℓ} (M : Type ℓ) : Type ℓ where
  pub limit : ℕ
  pub channels : Dict Text (List M)

module _ {ℓ} {M : Type ℓ} where
  pub new_memory : ℕ → Memory M
  new_memory n = record { limit = n; channels = [] }

  -- `m.channels[channel]`: nil if it is missing.
  pub window : Memory M → Text → List M
  window m channel = elim (lookup channel m.channels) [ none ↦ [] | some w ↦ w ]

  -- A full window loses its oldest message.
  pub shifted : ℕ → List M → List M
  shifted n w = if eqb (length w) n then drop 1 w else w

  pub append : Memory M → Text → M → Memory M
  append m channel msg = if ltb m.limit 1 then m else record m {
    channels = insert channel (shifted m.limit (window m channel) ++ msg ∷ []) m.channels;
  }

  pub recent : Memory M → Text → ℕ → List M
  recent m channel n =
      let w = window m channel in
      let count = if ltb (length w) n then length w else n in
      if ltb n 1 then [] else (if eqb (length w) 0 then [] else drop (length w - count) w)

  pub window_length : Memory M → Text → ℕ
  window_length m channel = length (window m channel)
