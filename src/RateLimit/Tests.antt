-- ===== src/RateLimit/Tests.antt =====
-- A bucket of two tokens, one more every ten nanoseconds.
use ws_chat.Base.{ℕ, ◌*◌, ◌^◌, ◌≡◌, min, refl, true, false, List, [], ◌∷◌, arith}
use ws_chat.Base.Float.{round53, nearest, digits}
use ws_chat.RateLimit.{
  Bucket, one, float_div, new_bucket, refill, take_token, allow_bucket, idle_bucket,
}
use ws_chat.RateLimit.Bounds.{allow_all, allow_all-burst}
use ws_chat.RateLimit.Forgetting.{answers, fresh, idle-answers}

abbrev two_a_time : Bucket
two_a_time = record { interval = 10; burst = 2 * one; tokens = 2 * one; last = 0 }

abbrev times : List ℕ
times = 101 ∷ 102 ∷ 108 ∷ 110 ∷ 112 ∷ []

used : answers two_a_time (100 ∷ times) ≡ true ∷ true ∷ false ∷ false ∷ true ∷ false ∷ []
unfolding answers allow_bucket refill take_token float_div round53 nearest digits
used = refl

-- One nanosecond before the interval is over the quotient rounds to a whole token.
abbrev slow : Bucket
slow = record { interval = 10000000000000000; burst = one; tokens = one; last = 0 }

rounded_up : answers slow (1 ∷ 10000000000000000 ∷ []) ≡ true ∷ true ∷ []
unfolding answers allow_bucket refill take_token float_div round53 nearest digits
rounded_up = refl

allow_all-burst_example : (allow_all two_a_time (100 ∷ 100 ∷ 90 ∷ [])).1 ≡ min 3 2
unfolding new_bucket round53
allow_all-burst_example =
    allow_all-burst 2 10 100 (100 ∷ 90 ∷ []) two_a_time refl (omega arith) (omega arith)
      (omega arith, omega arith)

abbrev half_full : Bucket
half_full = record { interval = 10; burst = 2 * one; tokens = 2 ^ 115; last = 100 }

idle-answers_example :
    answers (idle_bucket half_full 120).0 (120 ∷ 121 ∷ [])
    ≡ answers (fresh half_full) (120 ∷ 121 ∷ [])
unfolding idle_bucket refill float_div round53 nearest digits
idle-answers_example =
    idle-answers half_full 120 (120 ∷ 121 ∷ [])
      (record { bounded = omega arith; float = (2, 116, omega arith, refl) }) (omega arith)
      (omega arith) refl (omega arith)
