-- ===== src/Loadgen/Payload/Tests.antt =====
-- A payload of eight bytes sent 1500 nanoseconds after 1970, and read 250 later.
use ws_chat.Base.{◌-◌, ◌≡◌, refl, some, none, ◌∷◌, [], ◌++◌, length, max, bytes, arith}
use ws_chat.Base.Decimal.{print_nat, emit}
use ws_chat.Loadgen.Payload.{payload, latency_of, before_bar, latency_of-payload}

eight_bytes : payload 8 1500 ≡ bytes "1500|xxx"
unfolding payload print_nat emit
eight_bytes = refl

no_bar : latency_of 1750 (bytes "1500xxxx") ≡ none
unfolding latency_of before_bar
no_bar = refl

latency_of-payload_example :
    (latency_of 1750 (payload 8 1500) ≡ some (1750 - 1500))
    × (length (payload 8 1500) ≡ max 8 (length (print_nat 1500 ++ 124 ∷ [])))
latency_of-payload_example =
    latency_of-payload 8 1500 1750 (omega arith) (omega arith) (omega arith)
