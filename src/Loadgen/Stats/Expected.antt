-- ===== src/Loadgen/Stats/Expected.antt =====
-- internal/loadgen/stats.go: how many deliveries a run expects.
use ws_chat.Base.{
  ℕ, zero, suc, ◌+◌, ◌*◌, ◌/◌, ◌%◌, ◌^◌, ◌<◌, ◌≡◌, refl, ap, sym, ◌∙◌, List, [], ◌∷◌, length, arith,
}
use ws_chat.Loadgen.Plan.{Plan, members_in}
use ws_chat.Loadgen.Stats.{Stats, none_sent, new_stats, inc, inc_at, spoke, expected_from, expected}
use native.Mathlib.Nat.{mul-add-mod_self_left, div-add-mod, add-mul, mul_assoc}

-- The messages of a run, by the clients that sent them.
abbrev pub spoke_all : Plan → List ℕ → Stats → Stats
spoke_all cfg [] s = s
spoke_all cfg (i ∷ is) s = spoke_all cfg is (spoke cfg i s)

-- How many members their channels have, each message counting again.
abbrev pub audience : Plan → List ℕ → ℕ
audience cfg [] = 0
audience cfg (i ∷ is) = members_in cfg (i % cfg.channels) + audience cfg is

-- The counter may wrap before it is multiplied.
mod-times : (n m w : ℕ) → n % w * m % w ≡ n * m % w
mod-times n m w =
    let split : n * m ≡ w * (n / w * m) + n % w * m =
      ap (λ x. x * m) (sym (div-add-mod n w))
      ∙ add-mul (w * (n / w)) (n % w) m
      ∙ ap (λ x. x + n % w * m) (mul_assoc w (n / w) m) in
    sym (ap (λ x. x % w) split ∙ mul-add-mod_self_left w (n / w * m) (n % w * m))

inc-times :
    (n m r : ℕ)
    → (r + inc n * (m % 2 ^ 64)) % 2 ^ 64 ≡ ((r + n * (m % 2 ^ 64)) % 2 ^ 64 + m) % 2 ^ 64
inc-times n m r =
    let wraps = mod-times (n + 1) (m % 2 ^ 64) (2 ^ 64) in
    let one_more = add-mul n 1 (m % 2 ^ 64) in omega (arith, wraps, one_more)

expected_from-more :
    (cfg : Plan) (i : ℕ) (ns : List ℕ) (r x : ℕ)
    → expected_from cfg i ns ((r + x) % 2 ^ 64) ≡ (expected_from cfg i ns r + x) % 2 ^ 64
unfolding expected_from
expected_from-more cfg i [] r x = refl
expected_from-more cfg i (n ∷ ns) r x =
    let k = members_in cfg i % 2 ^ 64 in
    let same : ((r + x) % 2 ^ 64 + n * k) % 2 ^ 64 ≡ ((r + n * k) % 2 ^ 64 + x) % 2 ^ 64 =
      omega arith in
    ap (expected_from cfg (i + 1) ns) same
    ∙ expected_from-more cfg (i + 1) ns ((r + n * k) % 2 ^ 64) x

expected_from-inc_at :
    (cfg : Plan) (i j : ℕ) (ns : List ℕ) (r : ℕ)
    → j < length ns
    → expected_from cfg i (inc_at j ns) r
      ≡ (expected_from cfg i ns r + members_in cfg (i + j)) % 2 ^ 64
unfolding expected_from
expected_from-inc_at cfg i j [] r h = absurd (omega arith)
expected_from-inc_at cfg i zero (n ∷ ns) r h =
    let here : i ≡ i + 0 = omega arith in
    ap (expected_from cfg (i + 1) ns) (inc-times n (members_in cfg i) r)
    ∙ expected_from-more cfg (i + 1) ns ((r + n * (members_in cfg i % 2 ^ 64)) % 2 ^ 64)
        (members_in cfg i)
    ∙ ap
        (λ k.
          (expected_from cfg (i + 1) ns ((r + n * (members_in cfg i % 2 ^ 64)) % 2 ^ 64)
            + members_in cfg k)
          % 2 ^ 64)
        here
expected_from-inc_at cfg i (suc j) (n ∷ ns) r h =
    let place : i + 1 + j ≡ i + suc j = omega arith in
    expected_from-inc_at cfg (i + 1) j ns ((r + n * (members_in cfg i % 2 ^ 64)) % 2 ^ 64)
      (omega arith)
    ∙ ap
        (λ k.
          (expected_from cfg (i + 1) ns ((r + n * (members_in cfg i % 2 ^ 64)) % 2 ^ 64)
            + members_in cfg k)
          % 2 ^ 64)
        place

length-inc_at : (j : ℕ) (ns : List ℕ) → length (inc_at j ns) ≡ length ns
length-inc_at j [] = refl
length-inc_at zero (n ∷ ns) = refl
length-inc_at (suc j) (n ∷ ns) = ap suc (length-inc_at j ns)

expected_from-zeros : (cfg : Plan) (i n : ℕ) → expected_from cfg i (none_sent n) 0 ≡ 0
unfolding expected_from
expected_from-zeros cfg i zero = refl
expected_from-zeros cfg i (suc n) =
    let none_yet : (0 + 0 * (members_in cfg i % 2 ^ 64)) % 2 ^ 64 ≡ 0 = omega arith in
    ap (expected_from cfg (i + 1) (none_sent n)) none_yet ∙ expected_from-zeros cfg (i + 1) n

length-none_sent : (n : ℕ) → length (none_sent n) ≡ n
length-none_sent zero = refl
length-none_sent (suc n) = ap suc (length-none_sent n)

spoke_all-expected :
    (cfg : Plan) (is : List ℕ) (s : Stats)
    → 0 < cfg.channels
    → length s.sent_in ≡ cfg.channels
    → (expected cfg (spoke_all cfg is s) % 2 ^ 64 ≡ (expected cfg s + audience cfg is) % 2 ^ 64)
      × ((spoke_all cfg is s).sent % 2 ^ 64 ≡ (s.sent + length is) % 2 ^ 64)
unfolding spoke
spoke_all-expected cfg [] s pos size = (omega arith, omega arith)
spoke_all-expected cfg (i ∷ is) s pos size =
    let at = i % cfg.channels in
    let rest = spoke_all-expected cfg is (spoke cfg i s) pos (length-inc_at at s.sent_in ∙ size) in
    let first = expected_from-inc_at cfg 0 at s.sent_in 0 (omega arith) in
    let numbered : 0 + at ≡ at = omega arith in
    let counted = ap (members_in cfg) numbered in
    (omega (arith, rest.0, first, counted), omega (arith, rest.1))

-- With at least one channel, for the messages that any clients sent one after the other: a run
-- expects, up to multiples of 2 ^ 64, each of them as often as its channel has members, and it
-- counts all of them; also where the counters wrap.
pub expected-spoke_all :
    (cfg : Plan) (is : List ℕ)
    → 0 < cfg.channels
    → (expected cfg (spoke_all cfg is (new_stats cfg.channels)) % 2 ^ 64 ≡ audience cfg is % 2 ^ 64)
      × ((spoke_all cfg is (new_stats cfg.channels)).sent % 2 ^ 64 ≡ length is % 2 ^ 64)
unfolding new_stats
expected-spoke_all cfg is pos =
    let start = new_stats cfg.channels in
    let all = spoke_all-expected cfg is start pos (length-none_sent cfg.channels) in
    let nothing = expected_from-zeros cfg 0 cfg.channels in
    (omega (arith, all.0, nothing), omega (arith, all.1))
