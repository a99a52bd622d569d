-- ===== src/Loadgen/Hist/Samples.antt =====
-- The histogram of a list of samples: what merging and the quantile mean.
use native.Mathlib.Nat.{lt-div-mul-add}
use ws_chat.Base.Arith.{pow2-pos}
use ws_chat.Base.Float.{round53, round53-small, round53-close}
use ws_chat.Base.{
  ℕ, zero, suc, ◌+◌, ◌-◌, ◌*◌, ◌%◌, ◌^◌, ◌/◌, ◌≤◌, ◌<◌, min, if_rule, ◌≡◌, refl, arith, ltb, leb,
  eqb, Bool, Bool-cases, ◌&&◌, inl, inr, true, false, if◌then◌else◌, List, [], ◌∷◌, All, length,
  leb→le, &&_split, subst,
}
use ws_chat.Loadgen.Hist.{
  Histogram, u64, bucket_of, bucket_max, num_buckets, zeros, empty, bump, add_sample, scan, rank,
  quantile,
}
use ws_chat.Loadgen.Hist.Buckets.{bucket_of-lt, bucket_max-bucket_of}

-- The histogram that recording the samples one after the other leaves.
unfoldable pub of_samples : List ℕ → Histogram
of_samples [] = empty
of_samples (x ∷ xs) = add_sample (of_samples xs) x

abbrev pub count_if : (ℕ → Bool) → List ℕ → ℕ
count_if p [] = 0
count_if p (x ∷ xs) = (if p x then 1 else 0) + count_if p xs

abbrev in_bucket : ℕ → List ℕ → ℕ
in_bucket i = count_if (λ x. eqb (bucket_of x) i)

abbrev below_bucket : ℕ → List ℕ → ℕ
below_bucket i = count_if (λ x. ltb (bucket_of x) i)

abbrev pub count_le : ℕ → List ℕ → ℕ
count_le v = count_if (λ x. leb x v)

count_if-le : (p : ℕ → Bool) (xs : List ℕ) → count_if p xs ≤ length xs
count_if-le p [] = omega arith
count_if-le p (x ∷ xs) = ground (arith, count_if-le p xs)

below_bucket-step :
    (i : ℕ) (xs : List ℕ) → below_bucket (i + 1) xs ≡ below_bucket i xs + in_bucket i xs
below_bucket-step i [] = omega arith
below_bucket-step i (x ∷ xs) = ground (arith, below_bucket-step i xs)

below_bucket-zero : (xs : List ℕ) → below_bucket 0 xs ≡ 0
below_bucket-zero [] = refl
below_bucket-zero (x ∷ xs) = ground (arith, below_bucket-zero xs)

below_bucket-all : (xs : List ℕ) → below_bucket num_buckets xs ≡ length xs
below_bucket-all [] = refl
below_bucket-all (x ∷ xs) = ground (arith, below_bucket-all xs, bucket_of-lt x)

-- The list holds the counters of the buckets from `i` on.
abbrev Counts : ℕ → List ℕ → List ℕ → Type 0
Counts i xs [] = i ≡ num_buckets
Counts i xs (n ∷ ns) = (n ≡ in_bucket i xs) × Counts (i + 1) xs ns

Counts-zeros : (n i : ℕ) → i + n ≡ num_buckets → Counts i [] (zeros n)
Counts-zeros zero i e = omega arith
Counts-zeros (suc n) i e = (refl, Counts-zeros n (i + 1) (omega arith))

Counts-skip : (x i : ℕ) (xs ns : List ℕ) → bucket_of x < i → Counts i xs ns → Counts i (x ∷ xs) ns
Counts-skip x i xs [] h c = c
Counts-skip x i xs (n ∷ ns) h c = ground (arith, Counts-skip x (i + 1) xs ns)

Counts-bump :
    (x j i : ℕ) (xs ns : List ℕ)
    → i + j ≡ bucket_of x
    → suc (length xs) < u64
    → Counts i xs ns
    → Counts i (x ∷ xs) (bump j ns)
unfolding bump
Counts-bump x j i xs [] e h c = c
Counts-bump x zero i xs (n ∷ ns) e h c =
    ground (arith, Counts-skip x (i + 1) xs ns, count_if-le (λ y. eqb (bucket_of y) i) xs)
Counts-bump x (suc j) i xs (n ∷ ns) e h c = ground (arith, Counts-bump x j (i + 1) xs ns)

pub record Describes (xs : List ℕ) (h : Histogram) : Type 0 where
  pub counters : Counts 0 xs h.buckets
  pub total : h.count ≡ length xs
  pub bounded : All (λ x. x ≤ h.highest) xs

All-mono : (a b : ℕ) (xs : List ℕ) → a ≤ b → All (λ x. x ≤ a) xs → All (λ x. x ≤ b) xs
All-mono a b [] h c = tt
All-mono a b (x ∷ xs) h c = (omega arith, All-mono a b xs h c.1)

pub of_samples-Describes : (xs : List ℕ) → length xs < u64 → Describes xs (of_samples xs)
unfolding of_samples empty add_sample
of_samples-Describes [] h = record {
  counters = Counts-zeros num_buckets 0 refl;
  total = refl;
  bounded = tt;
}
of_samples-Describes (x ∷ xs) h =
    let old = of_samples-Describes xs (omega arith) in
    record {
      counters = Counts-bump x (bucket_of x) 0 xs _ (omega arith) h old.counters;
      total = omega (arith, old.total);
      bounded = (ground arith, All-mono (of_samples xs).highest _ xs (ground arith) old.bounded);
    }

-- Is each of the `n` largest values from bucket `i` on at most the next? Evaluation tells.
rising : ℕ → ℕ → Bool
rising i zero = true
rising i (suc n) = leb (bucket_max i) (bucket_max (i + 1)) && rising (i + 1) n

rising_step : (n i d : ℕ) → d < n → rising i n ≡ true → bucket_max (i + d) ≤ bucket_max (i + d + 1)
unfolding rising
rising_step zero i d lt h = absurd (omega arith)
rising_step (suc n) i zero lt h =
    let e : i + 0 ≡ i = omega arith in
    rw e (leb→le _ _ ((&&_split (leb (bucket_max i) (bucket_max (i + 1))) _ h).0))
rising_step (suc n) i (suc d) lt h =
    let e : i + suc d ≡ i + 1 + d = omega arith in
    rw e (
      rising_step n (i + 1) d (omega arith)
        ((&&_split (leb (bucket_max i) (bucket_max (i + 1))) _ h).1))

rising_all : rising 0 239 ≡ true
unfolding rising bucket_max
rising_all = refl

bucket_max_step : (i : ℕ) → i < 239 → bucket_max i ≤ bucket_max (i + 1)
bucket_max_step i h =
    let e : 0 + i ≡ i = omega arith in
    subst (λ j. bucket_max j ≤ bucket_max (j + 1)) e (rising_step 239 0 i h rising_all)

bucket_max_mono : (d i : ℕ) → i + d < 240 → bucket_max i ≤ bucket_max (i + d)
bucket_max_mono zero i h = let e : i + 0 ≡ i = omega arith in rw e (omega arith)
bucket_max_mono (suc d) i h =
    let e : i + suc d ≡ i + d + 1 = omega arith in
    rw e (omega (arith, bucket_max_mono d i (omega arith), bucket_max_step (i + d) (omega arith)))

bucket_max-le : (i j : ℕ) → i ≤ j → j < 240 → bucket_max i ≤ bucket_max j
bucket_max-le i j h k =
    let e : i + (j - i) ≡ j = omega arith in
    subst (λ v. bucket_max i ≤ bucket_max v) e (bucket_max_mono (j - i) i (omega arith))

abbrev pub Short : ℕ → Type 0
Short x = x < 2 ^ 32

-- All the samples of the buckets up to `i` are at most `bucket_max i`.
below_bucket-le_count :
    (i top : ℕ) (xs : List ℕ)
    → i < 240
    → All Short xs
    → All (λ x. x ≤ top) xs
    → below_bucket (i + 1) xs ≤ count_le (min (bucket_max i) top) xs
below_bucket-le_count i top [] h s b = omega arith
below_bucket-le_count i top (x ∷ xs) h s b = ground (
  arith,
  below_bucket-le_count i top xs h s.1 b.1,
  bucket_max-le (bucket_of x) i,
  bucket_max-bucket_of x s.0,
)

count_le-All : (top : ℕ) (xs : List ℕ) → All (λ x. x ≤ top) xs → count_le top xs ≡ length xs
count_le-All top [] b = refl
count_le-All top (x ∷ xs) b = ground (arith, count_le-All top xs b.1)

Counts-le : (i : ℕ) (xs ns : List ℕ) → Counts i xs ns → i ≤ num_buckets
Counts-le i xs [] c = omega arith
Counts-le i xs (n ∷ ns) c = omega (arith, Counts-le (i + 1) xs ns c.1)

-- The loop of `Quantile` returns a value that `want` samples do not exceed, or all of them.
scan_lem :
    (want most top i : ℕ) (xs ns : List ℕ)
    → length xs < u64
    → most ≤ want
    → most ≤ length xs
    → All Short xs
    → All (λ x. x ≤ top) xs
    → Counts i xs ns
    → most ≤ count_le (scan want top i ns (below_bucket i xs)) xs
unfolding scan
scan_lem want most top i xs [] h w l s b c = omega (arith, count_le-All top xs b)
scan_lem want most top i xs (n ∷ ns) h w l s b c =
    let room = Counts-le (i + 1) xs ns c.1 in
    let seen : (below_bucket i xs + n) % u64 ≡ below_bucket (i + 1) xs =
      omega (arith, c.0, below_bucket-step i xs, count_if-le (λ x. ltb (bucket_of x) (i + 1)) xs) in
    rw (scan, seen)
      (elim (Bool-cases (leb want (below_bucket (i + 1) xs))) [
        | inl done ↦
            rw done
              (omega (arith, leb→le _ _ done, below_bucket-le_count i top xs (omega arith) s b))
        | inr more ↦ rw more (scan_lem want most top (i + 1) xs ns h w l s b c.1)
      ])

-- The share of `n` up to the rounding of one product.
abbrev Enough : ℕ → ℕ → ℕ → ℕ → Type 0
Enough sig scale n r = sig * n * 2 ^ 53 ≤ scale * r * 2 ^ 53 + sig * n

ceil-Enough :
    (product sig scale n c : ℕ)
    → 0 < scale
    → sig * n * 2 ^ 53 ≤ product * 2 ^ 53 + sig * n
    → (product + scale - 1) / scale ≤ c
    → Enough sig scale n c
ceil-Enough product sig scale n c pos close le =
    let up = lt-div-mul-add {a = product + scale - 1} {b = scale} pos in
    let more : (product + scale - 1) / scale * scale ≤ scale * c = grind arith in
    let enough : product ≤ scale * c = omega (arith, up, more, pos) in omega (arith, close, enough)

rank-Enough :
    (sig shift n : ℕ)
    → n < 2 ^ 53
    → (0 < rank sig shift n) × Enough sig (2 ^ shift) n (rank sig shift n)
unfolding rank
rank-Enough sig shift n small =
    let exact = round53-small n small in
    let pos = pow2-pos shift in
    let close = round53-close (sig * n) in
    let ceil = (round53 (sig * n) + 2 ^ shift - 1) / 2 ^ shift in
    rw exact (
      if_rule (λ r. (0 < r) × Enough sig (2 ^ shift) n r) (eqb ceil 0)
        (λ e. (
          omega arith,
          ceil-Enough (round53 (sig * n)) sig (2 ^ shift) n 1 pos close (ground (arith, e)),
        ))
        (λ some_rank. (
          ground (arith, some_rank),
          ceil-Enough (round53 (sig * n)) sig (2 ^ shift) n ceil pos close (omega arith),
        )))

Enough-mono : (sig scale n r c : ℕ) → r ≤ c → Enough sig scale n r → Enough sig scale n c
Enough-mono sig scale n r c le h =
    let more : scale * r ≤ scale * c = grind arith in omega (arith, h, more)

-- For a float64 quantile `sig / 2 ^ shift` of at most 1 over at least one and fewer than `2 ^ 53`
-- samples, each below `2 ^ 32` microseconds: at least that share of the samples (and at least one of
-- them) do not exceed the value that `Quantile` returns, where the share may be less by its
-- `2 ^ 53`rd part, since the product rounds.
pub quantile-covers :
    (xs : List ℕ) (sig shift : ℕ)
    → length xs < 2 ^ 53
    → All Short xs
    → 0 < length xs
    → sig < 2 ^ 53
    → sig ≤ 2 ^ shift
    → let covered = count_le (quantile (of_samples xs) sig shift) xs in
      (sig * length xs * 2 ^ 53 ≤ 2 ^ shift * covered * 2 ^ 53 + sig * length xs) × (0 < covered)
unfolding quantile
quantile-covers xs sig shift h s some_samples fits share =
    let n = length xs in
    let r = rank sig shift n in
    let d = of_samples-Describes xs (omega (arith, h)) in
    let (positive, enough) = rank-Enough sig shift n h in
    let all : sig * n ≤ 2 ^ shift * n = grind arith in
    let used : eqb n 0 ≡ false = ground arith in
    let found = λ (most : ℕ) (w : most ≤ r) (l : most ≤ n).
      scan_lem r most (of_samples xs).highest 0 xs (of_samples xs).buckets (omega (arith, h)) w l s
        d.bounded d.counters in
    let v = scan r (of_samples xs).highest 0 (of_samples xs).buckets 0 in
    rw (d.total, used)
      (elim (Bool-cases (leb r n)) [
        | inl le ↦
            let all_found = rw (below_bucket-zero xs) at found r (omega arith) (leb→le _ _ le) in
            (
              Enough-mono sig (2 ^ shift) n r (count_le v xs) all_found enough,
              omega (arith, positive, all_found),
            )
        | inr more ↦
            let all_found =
              rw (below_bucket-zero xs) at found n (ground (arith, more)) (omega arith) in
            (
              Enough-mono sig (2 ^ shift) n n (count_le v xs) all_found (omega (arith, all)),
              omega (arith, some_samples, all_found),
            )
      ])
