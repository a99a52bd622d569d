-- ===== src/Loadgen/Hist.antt =====
-- internal/loadgen/hist.go: the latency histogram.
-- Durations are whole microseconds (`Record` divides a non-negative duration; a negative one is 0).
pub mod Buckets
pub mod Samples
pub mod Merging
mod Tests
use ws_chat.Base.{
  ℕ, zero, suc, ◌+◌, ◌-◌, ◌*◌, ◌/◌, ◌%◌, ◌^◌, ◌≤◌, ◌<◌, min, max, ◌≡◌, refl, Bool, true, false,
  List, [], ◌∷◌, arith, ltb, leb, eqb, if◌then◌else◌, length,
}
use ws_chat.Base.Float.{round53}

abbrev pub u64 : ℕ
u64 = 2 ^ 64

abbrev pub sub_bits : ℕ
sub_bits = 3

abbrev pub sub_count : ℕ
sub_count = 8

abbrev pub octaves : ℕ
octaves = 32

abbrev pub num_buckets : ℕ
num_buckets = (octaves - sub_bits + 1) * sub_count

-- `bits.Len64`: the number of binary digits; 64 rounds are enough for a uint64.
pub len_fuel : ℕ → ℕ → ℕ
len_fuel zero x = 0
len_fuel (suc f) x = let rest = len_fuel f (x / 2) in if eqb x 0 then 0 else suc rest

pub len64 : ℕ → ℕ
len64 x = len_fuel 64 x

-- `(us >> shift) & (subCount - 1)` is written with `/` and `%`.
unfoldable pub bucket_of : ℕ → ℕ
bucket_of us =
    if ltb us sub_count
    then us
    else (let oct = len64 us - 1 in
        if leb octaves oct
        then num_buckets - 1
        else (let shift = oct - sub_bits in
            let sub = us / 2 ^ shift % sub_count in (oct - sub_bits + 1) * sub_count + sub))

-- The two operands of `|` have no bit in common, so it is `+`.
unfoldable pub bucket_max : ℕ → ℕ
bucket_max i =
    if ltb i sub_count
    then i
    else (let oct = i / sub_count + sub_bits - 1 in
        let shift = oct - sub_bits in
        let sub = i % sub_count in (sub_count + sub) * 2 ^ shift + (2 ^ shift - 1))

pub record Histogram : Type 0 where
  pub buckets : List ℕ
  pub count : ℕ
  pub sum : ℕ
  pub highest : ℕ

abbrev pub zeros : ℕ → List ℕ
zeros zero = []
zeros (suc n) = 0 ∷ zeros n

pub empty : Histogram
empty = record { buckets = zeros num_buckets; count = 0; sum = 0; highest = 0 }

-- `buckets[i]++`.
pub bump : ℕ → List ℕ → List ℕ
bump i [] = []
bump zero (n ∷ ns) = ((n + 1) % u64) ∷ ns
bump (suc i) (n ∷ ns) = n ∷ bump i ns

pub add_sample : Histogram → ℕ → Histogram
add_sample h us = record {
  buckets = bump (bucket_of us) h.buckets;
  count = (h.count + 1) % u64;
  sum = (h.sum + us) % u64;
  highest = if ltb h.highest us then us else h.highest;
}

pub add_buckets : List ℕ → List ℕ → List ℕ
add_buckets [] os = []
add_buckets (n ∷ ns) [] = n ∷ ns
add_buckets (n ∷ ns) (o ∷ os) = ((n + o) % u64) ∷ add_buckets ns os

pub merge : Histogram → Histogram → Histogram
merge h o = record {
  buckets = add_buckets h.buckets o.buckets;
  count = (h.count + o.count) % u64;
  sum = (h.sum + o.sum) % u64;
  highest = if ltb h.highest o.highest then o.highest else h.highest;
}

pub mean : Histogram → ℕ
mean h = if eqb h.count 0 then 0 else h.sum / h.count

-- The loop of `Quantile` from bucket `i` on, with `seen` samples below it.
pub scan : ℕ → ℕ → ℕ → List ℕ → ℕ → ℕ
scan want highest i [] seen = highest
scan want highest i (n ∷ ns) seen =
    let rest = scan want highest (i + 1) ns ((seen + n) % u64) in
    if leb want ((seen + n) % u64) then min (bucket_max i) highest else rest

-- The rank that `Quantile` looks for, at the float64 `sig / 2 ^ shift` with a significand below
-- `2 ^ 53`. `float64(h.count)` and the product round, `Ceil` is exact. (A float from `2 ^ 64` on does
-- not fit in a uint64; the count has to be that large.)
pub rank : ℕ → ℕ → ℕ → ℕ
rank sig shift count =
    let product = round53 (sig * round53 count) in
    let ceil = (product + 2 ^ shift - 1) / 2 ^ shift in if eqb ceil 0 then 1 else ceil

pub quantile : Histogram → ℕ → ℕ → ℕ
quantile h sig shift =
    if eqb h.count 0 then 0 else scan (rank sig shift h.count) h.highest 0 h.buckets 0
