-- ===== src/Loadgen/Plan/Rooms.antt =====
-- loadgen.go: how the connections and the speakers are spread over the channels.
use native.Mathlib.Nat.{
  le-div_iff_mul-le, div-lt_iff_lt-mul, div-mul-le_self, lt-div-mul-add, div-eq_of_lt, zero-div,
  mul-div_cancel_left, div-le_of_le-mul, mul-le-mul_left, mul-add-div_right, mod-eq_of_lt,
  mul-add-mod_self_right,
}
use ws_chat.Base.{
  ℕ, zero, suc, ◌+◌, ◌-◌, ◌*◌, ◌/◌, ◌%◌, ◌≤◌, ◌<◌, ◌≡◌, refl, sym, ap, ◌∙◌, ◌↔◌, Bool, not, none,
  one, eqb, arith, text_keyed,
}
use ws_chat.Loadgen.Plan.{Plan, speakers, speakers_in, members_in, speaks, check}

-- How many numbers below `n` pass a test.
abbrev pub count_below : (ℕ → Bool) → ℕ → ℕ
count_below f zero = 0
count_below f (suc n) = count_below f n + one (f n)

-- A step of `s / m` at most one.
next_share : (s m p : ℕ) → 0 < m → s ≤ m → (p + 1) * s / m ≤ p * s / m + 1
next_share s m p pos le =
    let q = p * s / m in
    let more : (p + 1) * s ≡ p * s + s = grind arith in
    let room : (q + 2) * m ≡ q * m + m + m = grind arith in
    let under : (p + 1) * s / m < q + 2 =
      (div-lt_iff_lt-mul {x = (p + 1) * s} {y = q + 2} pos).1
        (omega (arith, lt-div-mul-add {a = p * s} pos)) in
    omega arith

same_or_next :
    (s m p : ℕ)
    → 0 < m
    → s ≤ m
    → p * s / m + one (not (eqb (p * s / m) ((p + 1) * s / m))) ≡ (p + 1) * s / m
same_or_next s m p pos le =
    let more : (p + 1) * s ≡ p * s + s = grind arith in
    let up : p * s / m ≤ (p + 1) * s / m =
      (le-div_iff_mul-le {x = p * s / m} {y = (p + 1) * s} pos).1
        (omega (arith, div-mul-le_self (p * s) m)) in
    ground (arith, next_share s m p pos le)

count-shares :
    (s m n : ℕ)
    → 0 < m
    → s ≤ m
    → count_below (λ p. not (eqb (p * s / m) ((p + 1) * s / m))) n ≡ n * s / m
count-shares s m zero pos le =
    let nothing : 0 * s ≡ 0 = omega arith in sym (ap (λ x. x / m) nothing ∙ zero-div m)
count-shares s m (suc n) pos le =
    let after : n + 1 ≡ suc n = omega arith in
    ap (λ x. x + one (not (eqb (n * s / m) ((n + 1) * s / m)))) (count-shares s m n pos le)
    ∙ same_or_next s m n pos le
    ∙ ap (λ x. x * s / m) after

-- A division that is rounded up, for the rooms that are left.
share_le : (a b c i : ℕ) → 0 < c → a ≤ b → (a + c - 1 - i) / c ≤ (b + c - 1 - i) / c
share_le a b c i pos le =
    (le-div_iff_mul-le {x = (a + c - 1 - i) / c} {y = b + c - 1 - i} pos).1
      (omega (arith, div-mul-le_self (a + c - 1 - i) c))

speakers-le : (c : Plan) → 0 < c.parts → c.percent ≤ 100 * c.parts → speakers c ≤ c.conns
unfolding speakers
speakers-le c pos le = div-le_of_le-mul (100 * c.parts) (
    let swap : 100 * c.parts * c.conns ≡ c.conns * (100 * c.parts) = grind arith in
    rw swap (mul-le-mul_left c.conns le))

-- Connection number `i` is one of the first `members_in` of its channel just if it is one at all.
room_iff :
    (c : Plan) (ch p : ℕ)
    → ch < c.channels
    → (p < members_in c ch) ↔ (p * c.channels + ch < c.conns)
unfolding members_in
room_iff c ch p lt =
    let next : (p + 1) * c.channels ≡ p * c.channels + c.channels = grind arith in
    let i =
      le-div_iff_mul-le {k = c.channels} {x = p + 1} {y = c.conns + c.channels - 1 - ch}
        (omega arith) in
    (λ h. omega (arith, i.0 (omega arith)), λ h. omega (arith, i.1 (omega arith)))

count_below-same :
    (f g : ℕ → Bool) (n : ℕ) → ((p : ℕ) → f p ≡ g p) → count_below f n ≡ count_below g n
count_below-same f g zero h = refl
count_below-same f g (suc n) h = omega (arith, count_below-same f g n h, ap one (h n))

check-percent : (c : Plan) → check c ≡ none → c.percent ≤ 100 * c.parts
unfolding check
check-percent c ok = ground arith

-- The speakers among the connections of a channel, by their place in it.
speaks-share :
    (c : Plan) (ch p : ℕ)
    → ch < c.channels
    → speaks c (p * c.channels + ch)
      ≡ not (
          eqb
            (p * speakers_in c ch / members_in c ch)
            ((p + 1) * speakers_in c ch / members_in c ch))
unfolding speaks
speaks-share c ch p lt =
    let place : (p * c.channels + ch) % c.channels ≡ ch =
      mul-add-mod_self_right p c.channels ch ∙ mod-eq_of_lt lt in
    let row : (p * c.channels + ch) / c.channels ≡ p =
      mul-add-div_right {m = c.channels} (omega arith) p ch ∙ omega (arith, div-eq_of_lt lt) in
    rw (place, row) refl

shares-count : (s m : ℕ) → s ≤ m → count_below (λ p. not (eqb (p * s / m) ((p + 1) * s / m))) m ≡ s
shares-count s zero le = omega arith
shares-count s (suc m) le =
    count-shares s (suc m) (suc m) (omega arith) le ∙ mul-div_cancel_left s (omega arith)

-- For settings that `check` accepts (with a percentage that is a fraction): the connections of a
-- channel are its first `members_in` ones, and exactly `speakers_in` of them speak.
pub speaks-count :
    (c : Plan) (ch : ℕ)
    → 0 < c.parts
    → check c ≡ none
    → ch < c.channels
    → ((p : ℕ) → (p < members_in c ch) ↔ (p * c.channels + ch < c.conns))
      × (count_below (λ p. speaks c (p * c.channels + ch)) (members_in c ch) ≡ speakers_in c ch)
unfolding members_in speakers_in
speaks-count c ch parts ok lt = (
  λ p. room_iff c ch p lt,
  count_below-same _ _ (members_in c ch) (λ p. speaks-share c ch p lt)
      ∙ shares-count (speakers_in c ch) (members_in c ch) (
          share_le (speakers c) c.conns c.channels ch (omega arith)
            (speakers-le c parts (check-percent c ok))),
)
