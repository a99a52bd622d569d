-- ===== src/Loadgen/Hist/Merging.antt =====
-- Merging per-connection histograms is recording all their samples in one.
use ws_chat.Base.{ℕ, zero, suc, ◌<◌, ◌≡◌, refl, ap, ◌∙◌, arith, List, [], ◌∷◌, ◌++◌, All, length}
use ws_chat.Loadgen.Hist.{
  Histogram, u64, bucket_of, num_buckets, zeros, empty, bump, add_sample, add_buckets, merge,
}
use ws_chat.Loadgen.Hist.Samples.{of_samples}

-- The array has its fixed size and every counter is a uint64.
record Fits (h : Histogram) : Type 0 where
  size : length h.buckets ≡ num_buckets
  cells : All (λ n. n < u64) h.buckets
  count_fits : h.count < u64
  sum_fits : h.sum < u64

length-bump : (i : ℕ) (ns : List ℕ) → length (bump i ns) ≡ length ns
unfolding bump
length-bump i [] = refl
length-bump zero (n ∷ ns) = refl
length-bump (suc i) (n ∷ ns) = ap suc (length-bump i ns)

bump-cells : (i : ℕ) (ns : List ℕ) → All (λ n. n < u64) ns → All (λ n. n < u64) (bump i ns)
unfolding bump
bump-cells i [] c = c
bump-cells zero (n ∷ ns) c = (omega arith, c.1)
bump-cells (suc i) (n ∷ ns) c = (c.0, bump-cells i ns c.1)

length-zeros : (n : ℕ) → length (zeros n) ≡ n
length-zeros zero = refl
length-zeros (suc n) = ap suc (length-zeros n)

zeros-cells : (n : ℕ) → All (λ n. n < u64) (zeros n)
zeros-cells zero = tt
zeros-cells (suc n) = (omega arith, zeros-cells n)

of_samples-Fits : (xs : List ℕ) → Fits (of_samples xs)
unfolding of_samples empty add_sample
of_samples-Fits [] = record {
  size = length-zeros num_buckets;
  cells = zeros-cells num_buckets;
  count_fits = omega arith;
  sum_fits = omega arith;
}
of_samples-Fits (x ∷ xs) =
    let old = of_samples-Fits xs in
    record {
      size = length-bump (bucket_of x) _ ∙ old.size;
      cells = bump-cells (bucket_of x) _ old.cells;
      count_fits = omega arith;
      sum_fits = omega arith;
    }

add_buckets-bump :
    (i : ℕ) (ns os : List ℕ)
    → length ns ≡ length os
    → add_buckets (bump i ns) os ≡ bump i (add_buckets ns os)
unfolding bump add_buckets
add_buckets-bump i [] os e = refl
add_buckets-bump i (n ∷ ns) [] e = absurd (omega arith)
add_buckets-bump zero (n ∷ ns) (o ∷ os) e = ground arith
add_buckets-bump (suc i) (n ∷ ns) (o ∷ os) e = ground (arith, add_buckets-bump i ns os)

add_buckets-zeros :
    (k : ℕ) (os : List ℕ) → length os ≡ k → All (λ n. n < u64) os → add_buckets (zeros k) os ≡ os
unfolding add_buckets
add_buckets-zeros zero [] e c = refl
add_buckets-zeros zero (o ∷ os) e c = absurd (omega arith)
add_buckets-zeros (suc k) [] e c = absurd (omega arith)
add_buckets-zeros (suc k) (o ∷ os) e c = ground (arith, add_buckets-zeros k os)

merge-empty : (o : Histogram) → Fits o → merge empty o ≡ o
unfolding merge empty
merge-empty o f = ground (arith, add_buckets-zeros num_buckets o.buckets f.size f.cells)

merge-add_sample :
    (h o : Histogram) (x : ℕ)
    → Fits h
    → Fits o
    → merge (add_sample h x) o ≡ add_sample (merge h o) x
unfolding merge add_sample
merge-add_sample h o x f g = ground (arith, add_buckets-bump (bucket_of x) h.buckets o.buckets)

-- Merging the histograms of two lists of samples gives the histogram of both lists together, with
-- the same buckets, count, sum and maximum, also where counters wrap at `2 ^ 64`.
pub merge-of_samples :
    (xs ys : List ℕ) → merge (of_samples xs) (of_samples ys) ≡ of_samples (xs ++ ys)
unfolding of_samples
merge-of_samples [] ys = merge-empty (of_samples ys) (of_samples-Fits ys)
merge-of_samples (x ∷ xs) ys =
    merge-add_sample (of_samples xs) (of_samples ys) x (of_samples-Fits xs) (of_samples-Fits ys)
    ∙ ap (λ h. add_sample h x) (merge-of_samples xs ys)
