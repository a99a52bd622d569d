-- ===== src/RateLimit/Bounds.antt =====
-- What a bucket lets through at once.
use ws_chat.Base.{
  ℕ, zero, suc, ◌+◌, ◌-◌, ◌*◌, ◌^◌, ◌≤◌, ◌<◌, min, ◌≡◌, refl, ap, subst, sym, ◌∙◌, some, List, [],
  ◌∷◌, length, ltb, arith, if◌then◌else◌, All,
}
use ws_chat.Base.Float.{IsFloat, round53, round53-small, round53-IsFloat}
use ws_chat.RateLimit.{
  Bucket, one, new_bucket, started, refill_started, refill, take_token, allow_bucket,
}

-- How many of the calls at these times are allowed, and the bucket afterwards.
unfoldable pub allow_all : Bucket → List ℕ → Bucket × ℕ
allow_all b [] = (b, 0)
allow_all b (now ∷ later) =
    let (b', ok) = allow_bucket b now in
    let (end, n) = allow_all b' later in (end, (if ok then 1 else 0) + n)

-- The burst is a float64, which the tokens do not exceed.
pub record IsValid (b : Bucket) : Type 0 where
  pub bounded : b.tokens ≤ b.burst
  pub float : IsFloat b.burst

-- A call with `n` tokens left, at a time that is not after the last.
allow_bucket-left :
    (b : Bucket) (now n : ℕ)
    → 0 < b.last
    → now ≤ b.last
    → n < 2 ^ 53
    → b.tokens ≡ n * one
    → let (b', ok) = allow_bucket b now in
      (ok ≡ ltb 0 n) × (b'.last ≡ b.last) × (b'.tokens ≡ (n - 1) * one)
unfolding allow_bucket refill take_token
allow_bucket-left b now zero used le fits e = ground (arith, e)
allow_bucket-left b now (suc n) used le fits e =
    let less : b.tokens - one ≡ n * one = omega (arith, e) in
    let exact = ap round53 less ∙ round53-IsFloat (n * one) (n, 116, omega (arith, fits), refl) in
    ground (arith, e, exact)

allow_all-left :
    (b : Bucket) (times : List ℕ) (n : ℕ)
    → 0 < b.last
    → All (λ t. t ≤ b.last) times
    → n < 2 ^ 53
    → b.tokens ≡ n * one
    → (allow_all b times).1 ≡ min (length times) n
unfolding allow_all
allow_all-left b [] n used h fits e = omega arith
allow_all-left b (now ∷ later) n used h fits e =
    let (ok, last, left) = allow_bucket-left b now n used h.0 fits e in
    let b' = (allow_bucket b now).0 in
    let rest =
      allow_all-left b' later (n - 1) (omega (arith, used, last))
        (subst (λ t. All (λ u. u ≤ t) later) (sym last) h.1) (omega (arith, fits)) left in
    ground (arith, ok, rest)

started-started : (b : Bucket) (now : ℕ) → 0 < now → started (started b now) now ≡ started b now
started-started b now pos = ground arith

allow_all-started :
    (b : Bucket) (now : ℕ) (later : List ℕ)
    → 0 < now
    → allow_all b (now ∷ later) ≡ allow_all (started b now) (now ∷ later)
unfolding allow_all
allow_all-started b now later pos =
    ap (λ r. ((allow_all r.0 later).0, (if r.1 then 1 else 0) + (allow_all r.0 later).1)) again
  where
    again : allow_bucket b now ≡ allow_bucket (started b now) now
    again =
        unfold allow_bucket refill in
        ap (λ r. take_token (refill_started r now)) (sym (started-started b now pos))

-- Of the calls on a new bucket of a burst below `2 ^ 53`, the first at a time `start` after the zero
-- time and none of the others after `start`, also if the clock goes back: those that are allowed are
-- as many as the burst, or all if they are fewer.
pub allow_all-burst :
    (burst interval start : ℕ) (later : List ℕ) (b : Bucket)
    → new_bucket burst interval ≡ some b
    → burst < 2 ^ 53
    → 0 < start
    → All (λ t. t ≤ start) later
    → (allow_all b (start ∷ later)).1 ≡ min (suc (length later)) burst
unfolding new_bucket
allow_all-burst burst interval start later b e fits pos h =
    let filled : (b.tokens ≡ round53 burst * one) × (b.last ≡ 0) = ground arith in
    let tokens = filled.0 ∙ ap (λ n. n * one) (round53-small burst fits) in
    let begun : (started b start).last ≡ start = ground (arith, filled.1) in
    let kept : (started b start).tokens ≡ burst * one = ground (arith, tokens) in
    rw (allow_all-started b start later pos) (
      allow_all-left (started b start) (start ∷ later) burst (omega (arith, begun, pos))
        (subst (λ t. All (λ u. u ≤ t) (start ∷ later)) (sym begun) (omega arith, h)) fits kept)
