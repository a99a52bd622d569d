-- ===== src/RateLimit/Forgetting.antt =====
-- Forgetting an idle bucket hands nobody a free refill.
use ws_chat.Base.{
  ℕ, ◌+◌, ◌≤◌, ◌<◌, ◌≡◌, refl, ap, sym, ◌∙◌, Bool, true, some, List, [], ◌∷◌, arith, All,
}
use ws_chat.RateLimit.{
  Bucket, new_bucket, gain, started, refill_started, refill, take_token, allow_bucket, idle_bucket,
}
use ws_chat.Base.Float.{round53-above}
use ws_chat.RateLimit.Bounds.{IsValid}

-- The answers of `AllowAt` at these times, one after the other.
unfoldable pub answers : Bucket → List ℕ → List Bool
answers b [] = []
answers b (now ∷ later) = let (b', ok) = allow_bucket b now in ok ∷ answers b' later

abbrev pub fresh : Bucket → Bucket
fresh b = record b { tokens = b.burst; last = 0 }

-- `fresh` is what `New` made.
new_bucket-fresh : (n interval : ℕ) (b : Bucket) → new_bucket n interval ≡ some b → fresh b ≡ b
unfolding new_bucket
new_bucket-fresh n interval b e = ground arith

-- A full bucket stays full.
refill_started-full :
    (b : Bucket) (now : ℕ)
    → IsValid b
    → b.tokens ≡ b.burst
    → b.last ≤ now
    → refill_started b now ≡ record b { last = now }
refill_started-full b now v e le =
    let above = round53-above (b.tokens + gain b now) b.burst v.float (omega (arith, e)) in
    ground (arith, e, above, le)

-- One that is idle is full.
refill-idle :
    (b : Bucket) (now : ℕ)
    → IsValid b
    → b.last ≤ now
    → (idle_bucket b now).1 ≡ true
    → refill b now ≡ record b { tokens = b.burst; last = now }
unfolding idle_bucket refill
refill-idle b now v h i = ground (arith, v.bounded)

refill-fresh :
    (b : Bucket) (now later : ℕ)
    → IsValid b
    → b.last ≤ now
    → (idle_bucket b now).1 ≡ true
    → 0 < now
    → now ≤ later
    → refill (idle_bucket b now).0 later ≡ refill (fresh b) later
unfolding idle_bucket refill
refill-fresh b now later v h i pos le =
    let full : Bucket = record b { tokens = b.burst; last = now } in
    let full-IsValid : IsValid full = record { bounded = omega arith; float = v.float } in
    let running : started full later ≡ full = ground (arith, pos) in
    let new : refill_started (started (fresh b) later) later
        ≡ record b { tokens = b.burst; last = later } =
      ground arith in
    ap (λ c. refill_started (started c later) later) (refill-idle b now v h i)
    ∙ ap (λ c. refill_started c later) running
    ∙ refill_started-full full later full-IsValid refl le
    ∙ sym new

-- For a bucket whose burst is a float64, with no more tokens than that: if `Idle` says so at
-- a time `now` after the zero time and not before its last refill, then from `now` on the bucket
-- gives the answers that a new one of the same burst and interval would give.
pub idle-answers :
    (b : Bucket) (now : ℕ) (times : List ℕ)
    → IsValid b
    → b.last ≤ now
    → 0 < now
    → (idle_bucket b now).1 ≡ true
    → All (λ t. now ≤ t) times
    → answers (idle_bucket b now).0 times ≡ answers (fresh b) times
unfolding answers allow_bucket
idle-answers b now [] v h pos i le = refl
idle-answers b now (t ∷ ts) v h pos i le =
    ap (λ r. (take_token r).1 ∷ answers (take_token r).0 ts) (refill-fresh b now t v h i pos le.0)
