-- ===== src/Broadcast/Slots.antt =====
-- Which slot a message number falls in.
use native.Mathlib.Nat.{mod-eq-sub-div-mul, div-mul-le_self}
use ws_chat.Base.{ℕ, ◌+◌, ◌*◌, ◌/◌, ◌%◌, ◌≤◌, ◌<◌, ◌≢◌, arith, dec_lt}

-- Two numbers less than a lap apart have different slots.
pub slot_ne : (j p c : ℕ) → 0 < c → j < p → p < j + c → j % c ≢ p % c
slot_ne j p c pos lt near e = elim (dec_lt (j / c) (p / c)) [
  | yes next ↦
      let lap : (j / c + 1) * c ≤ p / c * c = grind arith in
      omega (
        arith,
        mod-eq-sub-div-mul j c,
        mod-eq-sub-div-mul p c,
        div-mul-le_self j c,
        div-mul-le_self p c,
      )
  | no same ↦
      let lap : p / c * c ≤ j / c * c = grind arith in
      omega (
        arith,
        mod-eq-sub-div-mul j c,
        mod-eq-sub-div-mul p c,
        div-mul-le_self j c,
        div-mul-le_self p c,
      )
]
