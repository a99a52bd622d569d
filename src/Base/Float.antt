-- ===== src/Base/Float.antt =====
-- float64 on the natural numbers: a result keeps 53 binary digits, to nearest, ties to even.
use ws_chat.Base.{
  ℕ, zero, suc, ◌+◌, ◌-◌, ◌*◌, ◌/◌, ◌%◌, ◌^◌, ◌≤◌, ◌<◌, ◌≡◌, refl, ap, sym, ◌∙◌, ◌⊎◌, leb, ◌||◌,
  ◌&&◌, Bool-cases, inl, inr, ltb, eqb, if◌then◌else◌, if_rule, arith,
}
use ws_chat.Base.Arith.{pow2-pos, pow2-double}
use native.Mathlib.Nat.{
  div-add-mod', mod-lt, add-mul, mul_assoc, pow-le-pow_right, le-div_iff_mul-le,
  lt_of_mul-lt-mul_right,
}

-- The number of binary digits, up to the fuel.
unfoldable pub digits : ℕ → ℕ → ℕ
digits zero x = 0
digits (suc f) x = let rest = digits f (x / 2) in if eqb x 0 then 0 else suc rest

-- 256 digits are more than any number has that is rounded here.
abbrev pub spare : ℕ → ℕ
spare x = digits 256 x - 53

-- The nearest multiple of `unit`, an even one of two.
unfoldable pub nearest : ℕ → ℕ → ℕ
nearest unit x =
    let down = x / unit in
    let left = x % unit in
    if ltb unit (2 * left) || (eqb (2 * left) unit && eqb (down % 2) 1)
    then (down + 1) * unit
    else down * unit

unfoldable pub round53 : ℕ → ℕ
round53 x = if ltb x (2 ^ 53) then x else nearest (2 ^ spare x) x

pub round53-small : (x : ℕ) → x < 2 ^ 53 → round53 x ≡ x
unfolding round53
round53-small x h = ground arith

digits-le : (f x : ℕ) → 0 < x → 2 ^ digits f x ≤ 2 * x
unfolding digits
digits-le zero x pos = omega arith
digits-le (suc f) x pos =
    if_rule (λ n. 2 ^ n ≤ 2 * x) (eqb x 0) (λ e. absurd (ground (arith, e)))
      (λ _. elim (Bool-cases (eqb (x / 2) 0)) [
        | inl e ↦
            let none_left : x / 2 ≡ 0 = ground (arith, e) in
            let last : digits f (x / 2) ≡ 0 = ap (digits f) none_left ∙ digits-zero f in
            rw last (omega arith)
        | inr more ↦
            let half = digits-le f (x / 2) (ground (arith, more)) in
            omega (arith, half, pow2-double (digits f (x / 2)))
      ])
  where
    digits-zero : (g : ℕ) → digits g 0 ≡ 0
    digits-zero zero = refl
    digits-zero (suc g) = refl

nearest-le : (unit x : ℕ) → 0 < unit → 2 * x ≤ 2 * nearest unit x + unit
unfolding nearest
nearest-le unit x pos =
    let whole = div-add-mod' x unit in
    let part = mod-lt x pos in
    if_rule (λ r. 2 * x ≤ 2 * r + unit)
      (ltb unit (2 * (x % unit)) || (eqb (2 * (x % unit)) unit && eqb (x / unit % 2) 1))
      (λ _. omega (arith, whole, part, add-mul (x / unit) 1 unit))
      (λ down. ground (arith, down, whole))

pow2-53 : (n : ℕ) → 2 ^ (n + 53) ≡ 2 ^ n * 2 ^ 53
pow2-53 zero = refl
pow2-53 (suc n) =
    let there : suc n + 53 ≡ suc (n + 53) = omega arith in
    rw there (omega (arith, pow2-double (n + 53), pow2-double n, pow2-53 n))

-- What is cut off is at most half of the last digit that is kept.
spare-le : (n s x : ℕ) → s ≡ n - 53 → 0 < s → 2 ^ n ≤ 2 * x → 2 ^ s * 2 ^ 53 ≤ 2 * x
spare-le n s x e pos h =
    let there : n ≡ s + 53 = omega (arith, e, pos) in
    omega (arith, ap (λ k. 2 ^ k) there, pow2-53 s, h)

-- A rounded number is less by at most its share of `2 ^ 53`.
pub round53-close : (x : ℕ) → x * 2 ^ 53 ≤ round53 x * 2 ^ 53 + x
unfolding round53
round53-close x =
    if_rule (λ r. x * 2 ^ 53 ≤ r * 2 ^ 53 + x) (ltb x (2 ^ 53)) (λ _. omega arith)
      (λ big.
        let s = spare x in
        let near = nearest-le (2 ^ s) x (pow2-pos s) in
        let size = digits-le 256 x (ground (arith, big)) in
        elim (Bool-cases (eqb s 0)) [
          | inl e ↦
              let whole : s ≡ 0 = ground (arith, e) in
              let one : 2 ^ s ≡ 1 = ap (λ k. 2 ^ k) whole in omega (arith, near, one)
          | inr cut ↦
              let less = spare-le (digits 256 x) s x refl (ground (arith, cut)) size in
              omega (arith, near, less)
        ])

-- A float64: a significand of 53 digits, shifted.
abbrev pub IsFloat : ℕ → Type 0
IsFloat x = (sig : ℕ) × (shift : ℕ) × (sig ≤ 2 ^ 53) × (x ≡ sig * 2 ^ shift)

pow2-split : (n m : ℕ) → 2 ^ (n + m) ≡ 2 ^ n * 2 ^ m
pow2-split zero m = let same : 0 + m ≡ m = omega arith in rw same (omega arith)
pow2-split (suc n) m =
    let there : suc n + m ≡ suc (n + m) = omega arith in
    let half = pow2-split n m in rw there (pow2-double (n + m) ∙ grind (arith, half, pow2-double n))

-- A float64 is a multiple of `2 ^ s`, or all its digits stand below the 53rd from there.
grid :
    (sig shift s : ℕ)
    → sig ≤ 2 ^ 53
    → ((z : ℕ) × (sig * 2 ^ shift ≡ z * 2 ^ s)) ⊎ (sig * 2 ^ shift ≤ 2 ^ 52 * 2 ^ s)
grid sig shift s le = elim (Bool-cases (leb s shift)) [
  | inl e ↦
      let there : shift ≡ (shift - s) + s = ground (arith, e) in
      let split = ap (λ k. 2 ^ k) there ∙ pow2-split (shift - s) s in
      inl (
        sig * 2 ^ (shift - s),
        ap (λ k. sig * k) split ∙ sym (mul_assoc sig (2 ^ (shift - s)) (2 ^ s)),
      )
  | inr lower ↦
      let more =
        pow-le-pow_right {n = 2} (omega arith) {i = suc shift} {j = s} (ground (arith, lower)) in
      let low : sig * 2 ^ shift ≤ 2 ^ 53 * 2 ^ shift = grind arith in
      inr (omega (arith, more, pow2-double shift, low))
]

-- The multiple of `2 ^ s` that a float64 is, or that stands between it and a number with that many
-- spare digits.
up_to :
    (sig shift x : ℕ)
    → sig ≤ 2 ^ 53
    → 2 ^ 53 ≤ x
    → (z : ℕ) × (sig * 2 ^ shift ≤ z * 2 ^ spare x)
      × ((sig * 2 ^ shift ≡ z * 2 ^ spare x) ⊎ (z * 2 ^ spare x ≤ x))
up_to sig shift x le big = elim (grid sig shift (spare x) le) [
  | inl (z, e) ↦ (z, omega (arith, e), inl e)
  | inr low ↦ (
    2 ^ 52,
    low,
    inr (elim (Bool-cases (eqb (spare x) 0)) [
      | inl e ↦
          let whole : spare x ≡ 0 = ground (arith, e) in
          let one : 2 ^ spare x ≡ 1 = ap (λ k. 2 ^ k) whole in omega (arith, one, big)
      | inr cut ↦
          let size = digits-le 256 x (omega (arith, big)) in
          let less = spare-le (digits 256 x) (spare x) x refl (ground (arith, cut)) size in
          omega (arith, less)
    ]),
  )
]

nearest-above : (z unit x : ℕ) → 0 < unit → z * unit ≤ x → z * unit ≤ nearest unit x
unfolding nearest
nearest-above z unit x pos le =
    let fits : z ≤ x / unit = (le-div_iff_mul-le {k = unit} {x = z} {y = x} pos).1 le in
    let low : z * unit ≤ x / unit * unit = grind arith in
    if_rule (λ r. z * unit ≤ r)
      (ltb unit (2 * (x % unit)) || (eqb (2 * (x % unit)) unit && eqb (x / unit % 2) 1))
      (λ _. omega (arith, low, add-mul (x / unit) 1 unit)) (λ _. low)

nearest-below : (z unit x : ℕ) → 0 < unit → x ≤ z * unit → nearest unit x ≤ z * unit
unfolding nearest
nearest-below z unit x pos le =
    let whole = div-add-mod' x unit in
    if_rule (λ r. r ≤ z * unit)
      (ltb unit (2 * (x % unit)) || (eqb (2 * (x % unit)) unit && eqb (x / unit % 2) 1))
      (λ up.
        let some_left : 0 < x % unit = ground (arith, up, pos) in
        let fewer : x / unit < z =
          lt_of_mul-lt-mul_right unit (omega (arith, whole, some_left, le)) in
        let most : (x / unit + 1) * unit ≤ z * unit = grind arith in most)
      (λ _. omega (arith, whole, le))

pub round53-above : (x y : ℕ) → IsFloat y → y ≤ x → y ≤ round53 x
unfolding round53
round53-above x y (sig, shift, fits, e) le =
    if_rule (λ r. y ≤ r) (ltb x (2 ^ 53)) (λ _. le)
      (λ big.
        let (z, low, way) = up_to sig shift x fits (ground (arith, big)) in
        let most : z * 2 ^ spare x ≤ x = ground (arith, way, e, le) in
        omega (arith, e, low, nearest-above z (2 ^ spare x) x (pow2-pos (spare x)) most))

pub round53-below : (x y : ℕ) → IsFloat y → x ≤ y → round53 x ≤ y
unfolding round53
round53-below x y (sig, shift, fits, e) le =
    if_rule (λ r. r ≤ y) (ltb x (2 ^ 53)) (λ _. le)
      (λ big.
        let (z, low, way) = up_to sig shift x fits (ground (arith, big)) in
        let same : y ≡ z * 2 ^ spare x = ground (arith, way, e, le, low) in
        rw same (nearest-below z (2 ^ spare x) x (pow2-pos (spare x)) (omega (arith, le, same))))

-- A float64 is its own nearest.
pub round53-IsFloat : (x : ℕ) → IsFloat x → round53 x ≡ x
round53-IsFloat x h =
    let above = round53-above x x h (omega arith) in
    omega (arith, above, round53-below x x h (omega arith))
