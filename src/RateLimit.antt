-- ===== src/RateLimit.antt =====
-- internal/ratelimit/ratelimit.go: the token bucket.
-- A float64 is the number of `2 ^ -116` in it. All that arise are multiples of that, since the least is
-- one nanosecond in `2 ^ 63`, with 53 digits; and every operation rounds as the source's does. Times
-- are nanoseconds, 0 the zero time. The nil bucket, which is unlimited, is `none`; a non-positive
-- burst or interval is 0.
pub mod Bounds
pub mod Forgetting
mod Tests
use ws_chat.Base.{
  ℕ, ◌+◌, ◌-◌, ◌*◌, Bool, true, false, ◌||◌, Option, none, some, List, [], ◌∷◌, arith, ltb, leb,
  eqb, if◌then◌else◌, min, ◌/◌, ◌%◌, ◌^◌,
}
use ws_chat.Base.Float.{round53}

pub record Bucket : Type 0 where
  pub interval : ℕ
  pub burst : ℕ
  pub tokens : ℕ
  pub last : ℕ

abbrev pub one : ℕ
one = 2 ^ 116

-- The quotient of two numbers as a float64: two digits more than are kept, and a last one that says
-- whether there are others, which is all that rounding needs.
unfoldable pub float_div : ℕ → ℕ → ℕ
float_div n d =
    let q = n * 2 ^ 118 / d in
    let sticky = if eqb (n * 2 ^ 118 % d) 0 || eqb (q % 2) 1 then q else q + 1 in round53 sticky / 4

pub new_bucket : ℕ → ℕ → Option Bucket
new_bucket burst interval =
    if ltb burst 1 || eqb interval 0
    then none
    else some (record {
      interval = interval;
      burst = round53 burst * one;
      tokens = round53 burst * one;
      last = 0;
    })

-- The zero `last` of a new bucket is set first.
abbrev pub started : Bucket → ℕ → Bucket
started b now = if eqb b.last 0 then record b { last = now } else b

-- `Sub` of two times stops at the longest duration.
abbrev pub gain : Bucket → ℕ → ℕ
gain b now = float_div (round53 (min (now - b.last) (2 ^ 63 - 1))) (round53 b.interval)

abbrev pub refill_started : Bucket → ℕ → Bucket
refill_started b now =
    let more = round53 (b.tokens + gain b now) in
    if leb now b.last
    then b
    else record b { tokens = if ltb b.burst more then b.burst else more; last = now }

-- `refillLocked`.
pub refill : Bucket → ℕ → Bucket
refill b now = refill_started (started b now) now

-- Taking one token.
pub take_token : Bucket → Bucket × Bool
take_token b =
    if ltb b.tokens one then (b, false) else (record b { tokens = round53 (b.tokens - one) }, true)

pub allow_bucket : Bucket → ℕ → Bucket × Bool
allow_bucket b now = take_token (refill b now)

unfoldable pub allow_at : Option Bucket → ℕ → Option Bucket × Bool
allow_at none now = (none, true)
allow_at (some b) now = let (b', ok) = allow_bucket b now in (some b', ok)

pub idle_bucket : Bucket → ℕ → Bucket × Bool
idle_bucket b now = let b' = refill b now in (b', leb b'.burst b'.tokens)

-- `Idle`: the bucket after its refill, and the answer.
pub idle : Option Bucket → ℕ → Option Bucket × Bool
idle none now = (none, true)
idle (some b) now = let (b', full_again) = idle_bucket b now in (some b', full_again)
