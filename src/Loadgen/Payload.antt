-- ===== src/Loadgen/Payload.antt =====
-- internal/loadgen/loadgen.go: the message a speaker sends, and the latency its readers take from it.
-- Times are nanoseconds since 1970, positive int64; a duration is the bit pattern of an int64.
mod Tests
use ws_chat.Base.{
  ℕ, zero, suc, ◌+◌, ◌-◌, ◌%◌, ◌^◌, ◌≤◌, ◌<◌, ◌≡◌, refl, ap, ◌∙◌, sym, Bool, true, Option, none,
  some, List, [], ◌∷◌, ◌++◌, leb, eqb, if◌then◌else◌, if_rule, length, length-append, length-take,
  take, drop, All, max, Text, arith, append_assoc,
}
use ws_chat.Base.Decimal.{
  is_digit, print_nat, parse_int, emit, emit-All, emit-cons, parse_int-print_nat,
}

-- `strings.Repeat("x", n)`.
abbrev pub padding : ℕ → Text
padding zero = []
padding (suc n) = 120 ∷ padding n

-- `payload`, at the time `now`, with the padding of `Run`.
unfoldable pub payload : ℕ → ℕ → Text
payload size now =
    let head = print_nat now ++ 124 ∷ [] in
    if leb size (length head) then head else head ++ take (size - length head) (padding size)

-- `strings.IndexByte(data, '|')` and `data[:i]`.
unfoldable pub before_bar : Text → Option Text
before_bar [] = none
before_bar (c ∷ s) =
    let rest = before_bar s in
    if eqb c 124 then some [] else elim rest [ none ↦ none | some t ↦ some (c ∷ t) ]

abbrev pub since : ℕ → Option ℕ → Option ℕ
since now none = none
since now (some ns) = some ((now + 2 ^ 64 - ns) % 2 ^ 64)

abbrev pub latency_at : ℕ → Option Text → Option ℕ
latency_at now none = none
latency_at now (some []) = none
latency_at now (some (c ∷ s)) = since now (parse_int (c ∷ s))

-- `latencyOf`, at the time `now`.
unfoldable pub latency_of : ℕ → Text → Option ℕ
latency_of now s = latency_at now (before_bar s)

before_bar-digits :
    (s rest : Text) → All (λ c. is_digit c ≡ true) s → before_bar (s ++ 124 ∷ rest) ≡ some s
unfolding before_bar
before_bar-digits [] rest a = refl
before_bar-digits (c ∷ s) rest a = ground (arith, before_bar-digits s rest a.1)

latency-digits :
    (s : Text) (now sent : ℕ)
    → (c : ℕ) × (t : Text) × (s ≡ c ∷ t)
    → parse_int s ≡ some sent
    → latency_at now (some s) ≡ some ((now + 2 ^ 64 - sent) % 2 ^ 64)
latency-digits [] now sent h e = absurd cc
latency-digits (c ∷ s) now sent h e = rw e refl

padding-length : (n : ℕ) → length (padding n) ≡ n
padding-length zero = refl
padding-length (suc n) = ap suc (padding-length n)

-- The payload starts with the time and a bar.
payload-starts : (size now : ℕ) → (rest : Text) × (payload size now ≡ print_nat now ++ 124 ∷ rest)
unfolding payload
payload-starts size now =
    if_rule (λ (t : Text). (rest : Text) × (t ≡ print_nat now ++ 124 ∷ rest))
      (leb size (length (print_nat now ++ 124 ∷ []))) (λ _. ([], refl))
      (λ _. (_, append_assoc (print_nat now) (124 ∷ []) _))

payload-length :
    (size now : ℕ) → length (payload size now) ≡ max size (length (print_nat now ++ 124 ∷ []))
unfolding payload
payload-length size now =
    let head = print_nat now ++ 124 ∷ [] in
    if_rule (λ (t : Text). length t ≡ max size (length head)) (leb size (length head))
      (λ big. ground arith)
      (λ small. ground (
        arith,
        length-append head (take (size - length head) (padding size)),
        length-take (size - length head) (padding size),
        padding-length size,
      ))

-- For times that are positive int64: from the payload that was sent at one of them, of whatever
-- size, a reader takes the time passed since; and a payload has the size that was asked for, or the
-- size of the time with its bar where that is larger.
pub latency_of-payload :
    (size sent now : ℕ)
    → sent < 2 ^ 63
    → sent ≤ now
    → now < 2 ^ 63
    → (latency_of now (payload size sent) ≡ some (now - sent))
      × (length (payload size sent) ≡ max size (length (print_nat sent ++ 124 ∷ [])))
unfolding latency_of
latency_of-payload size sent now small le small' =
    let p = payload-starts size sent in
    let digits = emit-All 20 sent [] tt in
    let found : before_bar (payload size sent) ≡ some (print_nat sent) =
      ap before_bar p.1 ∙ unfold print_nat in before_bar-digits (emit 20 sent []) p.0 digits in
    let passed : (now + 2 ^ 64 - sent) % 2 ^ 64 ≡ now - sent = omega arith in
    (
      ap (latency_at now) found
          ∙ latency-digits (print_nat sent) now sent (unfold print_nat in emit-cons 19 sent [])
              (parse_int-print_nat sent small)
          ∙ ap some passed,
      payload-length size sent,
    )
