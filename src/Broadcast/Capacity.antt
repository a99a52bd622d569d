-- ===== src/Broadcast/Capacity.antt =====
-- internal/broadcast/ring.go, seqring.go: the capacity of a ring.
mod Tests
use ws_chat.Base.{
  ℕ, zero, suc, ◌+◌, ◌*◌, ◌%◌, ◌^◌, ◌≤◌, ◌<◌, ◌≡◌, refl, subst, ◌∙◌, Bool, Bool-cases, inl, inr,
  true, ◌||◌, Option, none, some, arith, ltb, leb, if◌then◌else◌,
}
use ws_chat.Base.Arith.{pow2-double, pow2-pos}
use ws_chat.Broadcast.Errors.{default_buffer}

-- `c < n` on int64, for a bit pattern `c` and `n` below `2 ^ 63`.
below : ℕ → ℕ → Bool
below c n = leb (2 ^ 63) c || ltb c n

-- The loop of `roundPow2`, on the bit pattern of an int64; `none` means that the fuel ran out.
pub round_from : ℕ → ℕ → ℕ → Option ℕ
round_from zero c n = none
round_from (suc f) c n =
    let rest = round_from f (2 * c % 2 ^ 64) n in if below c n then rest else some c

pub round_pow2 : ℕ → Option ℕ
round_pow2 n = round_from 64 1 n

-- The capacity that `NewRing` and `NewSeqRing` allocate for the argument `n` (0 for a negative one).
pub ring_capacity : ℕ → Option ℕ
ring_capacity n = round_pow2 (if ltb n 1 then default_buffer else n)

round_from-double :
    (f k n : ℕ)
    → below (2 ^ k) n ≡ true
    → 2 * 2 ^ k < 2 ^ 64
    → round_from (suc f) (2 ^ k) n ≡ round_from f (2 ^ suc k) n
unfolding round_from
round_from-double f k n more small =
    let wrap : 2 * 2 ^ k % 2 ^ 64 ≡ 2 ^ suc k = omega (arith, pow2-double k) in rw (more, wrap)

round_from_lem :
    (f k n : ℕ)
    → k + f ≡ 63
    → n ≤ 2 ^ 62
    → 2 ^ k < 2 * n
    → (j : ℕ) × (round_from (suc f) (2 ^ k) n ≡ some (2 ^ j)) × (n ≤ 2 ^ j) × (2 ^ j < 2 * n)
unfolding below
round_from_lem zero k n e le h =
    let last : k ≡ 63 = omega arith in
    let h' : 2 ^ 63 < 2 * n = subst (λ v. 2 ^ v < 2 * n) last h in absurd (omega arith)
round_from_lem (suc f) k n e le h = elim (Bool-cases (below (2 ^ k) n)) [
  | inl more ↦
      let again = round_from_lem f (suc k) n (omega arith) le (ground (arith, pow2-double k)) in
      (again.0, round_from-double (suc f) k n more (ground arith) ∙ again.1, again.2, again.3)
  | inr done ↦ (k, unfold round_from in rw done, ground arith, h)
]

-- For an argument up to `2 ^ 62` the loop ends, with a power of two that is at least the argument
-- (256 for an argument below 1) and less than twice it.
pub ring_capacity-power :
    (n : ℕ)
    → n ≤ 2 ^ 62
    → (k : ℕ) × (ring_capacity n ≡ some (2 ^ k))
      × ((if ltb n 1 then default_buffer else n) ≤ 2 ^ k)
      × (2 ^ k < 2 * (if ltb n 1 then default_buffer else n))
unfolding ring_capacity round_pow2
ring_capacity-power n h =
    round_from_lem 63 0 (if ltb n 1 then default_buffer else n) refl (ground arith) (ground arith)
