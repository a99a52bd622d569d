-- ===== src/Base/Decimal.antt =====
-- `strconv.FormatInt` and `strconv.ParseInt` in base ten, over the bit pattern of an int64.
use ws_chat.Base.Tests.{ltb, leb, eqb, if◌then◌else◌, if_rule}
use ws_chat.Base.Keys.{Text}
use ws_chat.Base.Lists.{All}
use Prim.Native.Nat.{ℕ, zero, suc, ◌+◌, ◌-◌, ◌*◌, ◌/◌, ◌%◌, ◌^◌, ◌<◌}
use mathlib.Core.Path.{◌≡◌, refl, ap, ◌∙◌}
use mathlib.Core.Bool.{Bool, true, false, ◌&&◌}
use mathlib.Core.Option.{Option, none, some}
use mathlib.Core.List.{[], ◌∷◌}
use native.Mathlib.Nat.{pow-suc}
use native.Mathlib.Omega.{arith}

-- The digits of `n` in front of `out`; twenty are enough for 64 bits.
unfoldable pub emit : ℕ → ℕ → Text → Text
emit zero n out = out
emit (suc f) n out =
    let more = emit f (n / 10) ((48 + n % 10) ∷ out) in if ltb n 10 then (48 + n) ∷ out else more

unfoldable pub print_nat : ℕ → Text
print_nat n = emit 20 n []

-- `%d` of an int64.
unfoldable pub print_int : ℕ → Text
print_int n = if ltb n (2 ^ 63) then print_nat n else 45 ∷ print_nat (2 ^ 64 - n)

abbrev pub is_digit : ℕ → Bool
is_digit c = leb 48 c && leb c 57

unfoldable pub scan : Text → ℕ → Option ℕ
scan [] n = some n
scan (c ∷ s) n = let rest = scan s (n * 10 + (c - 48)) in if is_digit c then rest else none

unfoldable pub scan_some : Text → Option ℕ
scan_some [] = none
scan_some (c ∷ s) = scan (c ∷ s) 0

-- The value in the range of an int64, by its sign.
abbrev pub in_range : Bool → Option ℕ → Option ℕ
in_range minus none = none
in_range true (some n) = if leb n (2 ^ 63) then some ((2 ^ 64 - n) % 2 ^ 64) else none
in_range false (some n) = if ltb n (2 ^ 63) then some n else none

-- A `+` or a `-` may stand in front.
unfoldable pub parse_int : Text → Option ℕ
parse_int [] = none
parse_int (c ∷ s) =
    if eqb c 45
    then in_range true (scan_some s)
    else (if eqb c 43 then in_range false (scan_some s) else in_range false (scan_some (c ∷ s)))

scan-digit : (d : ℕ) (s : Text) (n : ℕ) → d < 10 → scan ((48 + d) ∷ s) n ≡ scan s (n * 10 + d)
unfolding scan
scan-digit d s n small =
    let value : n * 10 + (48 + d - 48) ≡ n * 10 + d = omega arith in
    if_rule (λ (x : Option ℕ). x ≡ scan s (n * 10 + d)) (is_digit (48 + d)) (λ _. rw value refl)
      (λ bad. absurd (ground arith))

-- Reading what was printed goes on with its value.
scan-emit : (f n : ℕ) (out : Text) → n < 10 ^ f → scan (emit f n out) 0 ≡ scan out n
unfolding emit
scan-emit zero n out small = let nothing : n ≡ 0 = omega arith in rw nothing refl
scan-emit (suc f) n out small =
    if_rule (λ (t : Text). scan t 0 ≡ scan out n) (ltb n 10)
      (λ last.
        let first : 0 * 10 + n ≡ n = omega arith in
        scan-digit n out 0 (ground arith) ∙ ap (scan out) first)
      (λ more.
        let tenth : n / 10 < 10 ^ f = omega (arith, pow-suc 10 f) in
        let value : n / 10 * 10 + n % 10 ≡ n = omega arith in
        scan-emit f (n / 10) ((48 + n % 10) ∷ out) tenth
        ∙ scan-digit (n % 10) out (n / 10) (omega arith)
        ∙ ap (scan out) value)

-- Only digits are printed, and at least one.
pub emit-All :
    (f n : ℕ) (out : Text)
    → All (λ c. is_digit c ≡ true) out
    → All (λ c. is_digit c ≡ true) (emit f n out)
unfolding emit
emit-All zero n out a = a
emit-All (suc f) n out a =
    if_rule (λ (t : Text). All (λ c. is_digit c ≡ true) t) (ltb n 10) (λ last. (ground arith, a))
      (λ more. emit-All f (n / 10) ((48 + n % 10) ∷ out) (ground arith, a))

pub emit-cons : (f n : ℕ) (out : Text) → (c : ℕ) × (t : Text) × (emit (suc f) n out ≡ c ∷ t)
unfolding emit
emit-cons zero n out =
    if_rule (λ (x : Text). (c : ℕ) × (t : Text) × (x ≡ c ∷ t)) (ltb n 10) (λ _. (48 + n, out, refl))
      (λ _. (48 + n % 10, out, refl))
emit-cons (suc f) n out =
    if_rule (λ (x : Text). (c : ℕ) × (t : Text) × (x ≡ c ∷ t)) (ltb n 10) (λ _. (48 + n, out, refl))
      (λ _. emit-cons f (n / 10) ((48 + n % 10) ∷ out))

parse_digits :
    (s : Text) (n : ℕ)
    → All (λ c. is_digit c ≡ true) s
    → (c : ℕ) × (t : Text) × (s ≡ c ∷ t)
    → scan s 0 ≡ some n
    → n < 2 ^ 63
    → parse_int s ≡ some n
unfolding parse_int scan_some
parse_digits [] n a h e small = absurd (cc)
parse_digits (c ∷ s) n a h e small = ground (arith, e)

-- A printed number below `2 ^ 63` reads back.
pub parse_int-print_nat : (n : ℕ) → n < 2 ^ 63 → parse_int (print_nat n) ≡ some n
unfolding print_nat
parse_int-print_nat n small =
    parse_digits (emit 20 n []) n (emit-All 20 n [] tt) (emit-cons 19 n [])
      (scan-emit 20 n [] (omega arith) ∙ unfold scan in refl) small
