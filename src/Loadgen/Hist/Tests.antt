-- ===== src/Loadgen/Hist/Tests.antt =====
-- The histogram at a few samples.
use ws_chat.Base.{ℕ, ◌+◌, ◌*◌, ◌^◌, ◌≤◌, ◌<◌, ◌≡◌, refl, List, [], ◌∷◌, ◌++◌, length, arith}
use ws_chat.Base.Float.{round53, nearest, digits}
use ws_chat.Loadgen.Hist.{
  len_fuel, len64, bucket_of, bucket_max, empty, bump, add_sample, merge, scan, rank, quantile,
}
use ws_chat.Loadgen.Hist.Samples.{of_samples, count_le, quantile-covers}
use ws_chat.Loadgen.Hist.Merging.{merge-of_samples}

abbrev samples : List ℕ
samples = 3 ∷ 900 ∷ 70 ∷ 12 ∷ []

median : quantile (of_samples samples) 1 1 ≡ 12
unfolding quantile rank round53 nearest digits scan of_samples add_sample bump empty bucket_of
    bucket_max len64 len_fuel
median = refl

worst : quantile (of_samples samples) 1 0 ≡ 900
unfolding quantile rank round53 nearest digits scan of_samples add_sample bump empty bucket_of
    bucket_max len64 len_fuel
worst = refl

-- The float64 nearest to 0.9: its product with 10 rounds to 9.
ninth : rank 8106479329266893 53 10 ≡ 9
unfolding rank round53 nearest digits
ninth = refl

quantile-covers_example :
    let covered = count_le (quantile (of_samples samples) 8106479329266893 53) samples in
    (8106479329266893 * length samples * 2 ^ 53
      ≤ 2 ^ 53 * covered * 2 ^ 53 + 8106479329266893 * length samples)
    × (0 < covered)
quantile-covers_example =
    quantile-covers samples 8106479329266893 53 (omega arith) (omega arith) (omega arith)
      (omega arith) (omega arith)

merge-of_samples_example :
    merge (of_samples samples) (of_samples (5 ∷ [])) ≡ of_samples (samples ++ 5 ∷ [])
merge-of_samples_example = merge-of_samples samples (5 ∷ [])
