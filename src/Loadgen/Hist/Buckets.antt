-- ===== src/Loadgen/Hist/Buckets.antt =====
-- The buckets of the histogram: every value has one, and it is narrow.
use native.Mathlib.Nat.{div-mul-le_self, lt-div-mul-add, le-div_iff_mul-le, div-lt_iff_lt-mul}
use ws_chat.Base.{
  ℕ, zero, suc, ◌+◌, ◌-◌, ◌*◌, ◌/◌, ◌%◌, ◌^◌, ◌≤◌, ◌<◌, ◌≡◌, refl, arith, ltb, false, dec_lt,
}
use ws_chat.Base.Arith.{pow2-pos, pow2-double, pow2-octave, pow2-pred}
use ws_chat.Loadgen.Hist.{len_fuel, len64, bucket_of, bucket_max, num_buckets}

len_fuel-lt : (f x : ℕ) → x < 2 ^ f → x < 2 ^ len_fuel f x
unfolding len_fuel
len_fuel-lt zero x h = h
len_fuel-lt (suc f) x h =
    ground (arith, len_fuel-lt f (x / 2), pow2-double f, pow2-double (len_fuel f (x / 2)))

len_fuel-zero : (f : ℕ) → len_fuel f 0 ≡ 0
unfolding len_fuel
len_fuel-zero zero = refl
len_fuel-zero (suc f) = refl

len_fuel-le : (f x : ℕ) → 0 < x → x < 2 ^ f → 2 ^ len_fuel f x ≤ 2 * x
unfolding len_fuel
len_fuel-le zero x p h = absurd (omega arith)
len_fuel-le (suc f) zero p h = absurd (omega arith)
len_fuel-le (suc f) (suc zero) p h = rw (len_fuel-zero f) (omega arith)
len_fuel-le (suc f) (suc (suc x)) p h = ground (
  arith,
  len_fuel-le f (suc (suc x) / 2),
  pow2-double f,
  pow2-double (len_fuel f (suc (suc x) / 2)),
)

-- The leading bit of a value below `2 ^ 64`, from 8 on.
record Leading (us : ℕ) : Type 0 where
  three : 4 ≤ len64 us
  below : us < 8 * 2 ^ (len64 us - 1 - 3) + 8 * 2 ^ (len64 us - 1 - 3)
  above : 8 * 2 ^ (len64 us - 1 - 3) ≤ us

pow2-small : (n : ℕ) → 8 < 2 ^ n → 4 ≤ n
pow2-small zero h = absurd (omega arith)
pow2-small (suc zero) h = absurd (omega arith)
pow2-small (suc (suc zero)) h = absurd (omega arith)
pow2-small (suc (suc (suc zero))) h = absurd (omega arith)
pow2-small (suc (suc (suc (suc n)))) h = omega arith

len64-Leading : (us : ℕ) → 8 ≤ us → us < 2 ^ 64 → Leading us
unfolding len64
len64-Leading us lo hi = record { three = three; below = below; above = above }
  where
    l : ℕ
    l = len_fuel 64 us

    three : 4 ≤ l
    three = pow2-small l (omega (arith, len_fuel-lt 64 us hi))

    octave : 2 ^ (l - 1) ≡ 8 * 2 ^ (l - 1 - 3)
    octave = pow2-octave (l - 1 - 3) (l - 1) (omega (arith, three))

    double : 2 ^ l ≡ 2 ^ (l - 1) + 2 ^ (l - 1)
    double = pow2-pred l (omega (arith, three))

    below : us < 8 * 2 ^ (l - 1 - 3) + 8 * 2 ^ (l - 1 - 3)
    below = omega (arith, len_fuel-lt 64 us hi, octave, double)

    above : 8 * 2 ^ (l - 1 - 3) ≤ us
    above = omega (arith, len_fuel-le 64 us (omega arith) hi, octave, double)

-- The arithmetic of one octave, with `p` for the width of its buckets.
octave_facts :
    (us p : ℕ)
    → 0 < p
    → 8 * p ≤ us
    → us < 8 * p + 8 * p
    → (us ≤ (8 + us / p % 8) * p + (p - 1)) × (8 * ((8 + us / p % 8) * p + (p - 1)) ≤ 9 * us)
octave_facts us p pos lo hi = ground (
  arith,
  div-mul-le_self us p,
  lt-div-mul-add {a = us} {b = p} pos,
  (le-div_iff_mul-le {k = p} {x = 8} {y = us} pos).1 lo,
  (div-lt_iff_lt-mul {k = p} {x = us} {y = 16} pos).1 (omega arith),
)

len_fuel-bound : (f k x : ℕ) → x < 2 ^ k → len_fuel f x ≤ k
unfolding len_fuel
len_fuel-bound zero k x h = omega arith
len_fuel-bound (suc f) zero x h = ground arith
len_fuel-bound (suc f) (suc k) x h = ground (arith, len_fuel-bound f k (x / 2), pow2-double k)

len64-le : (us : ℕ) → us < 2 ^ 32 → len64 us ≤ 32
unfolding len64
len64-le us h = len_fuel-bound 64 32 us h

-- The bucket of slot `r` in the octave whose buckets are `2 ^ s` wide.
bucket_max-slot : (s r : ℕ) → r < 8 → bucket_max ((s + 1) * 8 + r) ≡ (8 + r) * 2 ^ s + (2 ^ s - 1)
unfolding bucket_max
bucket_max-slot s r h =
    let oct : ((s + 1) * 8 + r) / 8 + 3 - 1 - 3 ≡ s = omega arith in
    let slot : ((s + 1) * 8 + r) % 8 ≡ r = omega arith in
    let big : ltb ((s + 1) * 8 + r) 8 ≡ false = ground arith in rw (big, oct, slot)

bucket_of-large :
    (us : ℕ)
    → 8 ≤ us
    → us < 2 ^ 32
    → bucket_of us ≡ (len64 us - 1 - 3 + 1) * 8 + us / 2 ^ (len64 us - 1 - 3) % 8
unfolding bucket_of
bucket_of-large us lo hi = ground (arith, len64-le us hi, (len64-Leading us lo (omega arith)).three)

-- Every bucket index is inside the array.
pub bucket_of-lt : (us : ℕ) → bucket_of us < num_buckets
unfolding bucket_of
bucket_of-lt us = ground arith

-- Below `2 ^ 32` microseconds a value is at most the largest value of its bucket, which exceeds it
-- by at most an eighth of it.
pub bucket_max-bucket_of :
    (us : ℕ)
    → us < 2 ^ 32
    → (us ≤ bucket_max (bucket_of us)) × (8 * bucket_max (bucket_of us) ≤ 9 * us)
bucket_max-bucket_of us h = elim (dec_lt us 8) [
  | yes small ↦ unfold bucket_of bucket_max in ground arith
  | no large ↦
      let lead = len64-Leading us (omega arith) (omega arith) in
      let s = len64 us - 1 - 3 in
      rw (bucket_of-large us (omega arith) h, bucket_max-slot s (us / 2 ^ s % 8) (omega arith))
        (octave_facts us (2 ^ s) (pow2-pos s) lead.above lead.below)
]
