-- ===== src/Base/Mask.antt =====
-- `x & (2^k - 1)` is `x % 2^k`.
use Prim.Native.Nat.{
  ℕ, zero, suc, ◌+◌, ◌-◌, ◌*◌, ◌/◌, ◌%◌, ◌^◌, ◌≤◌, ◌<◌, min, bit_and, digits, bit_and-bitwise,
}
use mathlib.Core.Path.{◌≡◌, sym, ap, ◌∙◌}
use native.Mathlib.Nat.{
  div-mul-le_self, mod-eq-sub-div-mul, add-mul-mod_self_right, mod-eq_of_lt, mod-lt,
}
use native.Mathlib.Omega.{arith}
use ws_chat.Base.Arith.{pow2-pos, pow2-double}

-- The lowest digit of a remainder by an even number.
mod_digit : (a p : ℕ) → 0 < p → a / 2 % p * 2 + a % 2 ≡ a % (p + p)
mod_digit a p pos =
    let r = a / 2 % p * 2 + a % 2 in
    let q = a / 2 / p in
    let small : r < p + p = omega (arith, mod-lt (a / 2) pos) in
    let split : a ≡ r + q * (p + p) =
      omega (arith, mod-eq-sub-div-mul (a / 2) p, div-mul-le_self (a / 2) p) in
    sym (ap (λ v. v % (p + p)) split ∙ add-mul-mod_self_right r q (p + p) ∙ mod-eq_of_lt small)

digits_mask : (n a k : ℕ) → a ≤ n → digits (λ b. zero) min n a (2 ^ k - 1) ≡ a % 2 ^ k
digits_mask zero zero k h = omega (arith, mod-eq_of_lt {n = 0} {m = 2 ^ k} (pow2-pos k))
digits_mask zero (suc a) k h = absurd (omega arith)
digits_mask (suc n) zero k h = omega (arith, mod-eq_of_lt {n = 0} {m = 2 ^ k} (pow2-pos k))
digits_mask (suc n) (suc a) zero h = omega (arith, digits_mask n (suc a / 2) zero (omega arith))
digits_mask (suc n) (suc a) (suc k) h =
    let half : (2 ^ suc k - 1) / 2 ≡ 2 ^ k - 1 = omega (arith, pow2-double k, pow2-pos k) in
    let odd : (2 ^ suc k - 1) % 2 ≡ 1 = omega (arith, pow2-double k, pow2-pos k) in
    rw (half, odd, pow2-double k)
      (omega
        (arith, digits_mask n (suc a / 2) k (omega arith), mod_digit (suc a) (2 ^ k) (pow2-pos k)))

pub bit_and-mask : (a k : ℕ) → bit_and a (2 ^ k - 1) ≡ a % 2 ^ k
bit_and-mask a k = bit_and-bitwise a (2 ^ k - 1) ∙ digits_mask a a k (omega arith)
