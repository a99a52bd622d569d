-- ===== src/Broadcast/Capacity/Tests.antt =====
-- The capacity of a ring, at the default of the configuration.
use ws_chat.Base.{ℕ, ◌*◌, ◌^◌, ◌≤◌, ◌<◌, ◌≡◌, refl, some, arith, ltb, if◌then◌else◌}
use ws_chat.Broadcast.Errors.{default_buffer}
use ws_chat.Broadcast.Capacity.{below, round_from, round_pow2, ring_capacity, ring_capacity-power}

capacity_exact : ring_capacity 16384 ≡ some 16384
unfolding ring_capacity round_pow2 round_from below
capacity_exact = refl

capacity_default : ring_capacity 0 ≡ some 256
unfolding ring_capacity round_pow2 round_from below
capacity_default = refl

ring_capacity-power_example :
    (k : ℕ) × (ring_capacity 1000 ≡ some (2 ^ k))
    × ((if ltb 1000 1 then default_buffer else 1000) ≤ 2 ^ k)
    × (2 ^ k < 2 * (if ltb 1000 1 then default_buffer else 1000))
ring_capacity-power_example = ring_capacity-power 1000 (omega arith)
