-- ===== src/Base/Arith.antt =====
-- Powers of two that several components share.
use Prim.Native.Nat.{ℕ, zero, suc, ◌+◌, ◌-◌, ◌*◌, ◌^◌, ◌<◌}
use mathlib.Core.Path.{◌≡◌}
use native.Mathlib.Nat.{one-le-pow, two-pow-succ}
use native.Mathlib.Omega.{arith}

pub pow2-pos : (n : ℕ) → 0 < 2 ^ n
pow2-pos n = one-le-pow n 2 (omega arith)

pub pow2-double : (n : ℕ) → 2 ^ suc n ≡ 2 ^ n + 2 ^ n
pow2-double n = two-pow-succ n

-- `2 ^ (n + 3)`, as `8 * 2 ^ n`.
pub pow2-octave : (n m : ℕ) → n + 3 ≡ m → 2 ^ m ≡ 8 * 2 ^ n
pow2-octave n zero e = absurd (omega arith)
pow2-octave n (suc zero) e = absurd (omega arith)
pow2-octave n (suc (suc zero)) e = absurd (omega arith)
pow2-octave n (suc (suc (suc m))) e =
    let same : n ≡ m = omega arith in
    rw same (omega (arith, pow2-double (suc (suc m)), pow2-double (suc m), pow2-double m))

pub pow2-pred : (n : ℕ) → 0 < n → 2 ^ n ≡ 2 ^ (n - 1) + 2 ^ (n - 1)
pow2-pred zero h = absurd (omega arith)
pow2-pred (suc n) h = let same : suc n - 1 ≡ n = omega arith in rw same (pow2-double n)
