-- ===== src/History/Windows.antt =====
-- The window of a channel is the end of what was appended to it.
use ws_chat.Base.{
  ℕ, zero, suc, ◌+◌, ◌-◌, ◌≤◌, ◌<◌, ◌≡◌, refl, sym, ap, subst, append-nil, append_assoc, ◌∙◌, min,
  Bool, true, false, List, [], ◌∷◌, ◌++◌, arith, ltb, eqb, if◌then◌else◌, if_rule, length, drop,
  drop-all, drop-append_le, length-append, length-drop, Text, text_keyed, ◌==◌, same_text_iff,
}
use ws_chat.Base.Dict.{lookup, lookup-insert}
use ws_chat.History.{Memory, new_memory, window, shifted, append, recent}

module _ {ℓ} {M : Type ℓ} where
  -- The newest `n` entries of a list.
  abbrev pub newest : ℕ → List M → List M
  newest n xs = drop (length xs - n) xs

  -- What was appended to `channel`, in order.
  unfoldable pub sent_to : Text → List (Text × M) → List M
  sent_to channel [] = []
  sent_to channel ((c, msg) ∷ log) =
      let rest = sent_to channel log in if c == channel then msg ∷ rest else rest

  unfoldable pub append_all : Memory M → List (Text × M) → Memory M
  append_all m [] = m
  append_all m ((c, msg) ∷ log) = append_all (append m c msg) log

  drop-drop : (a b : ℕ) (xs : List M) → drop a (drop b xs) ≡ drop (a + b) xs
  drop-drop a zero xs = let e : a + 0 ≡ a = omega arith in rw e
  drop-drop zero (suc b) [] = let e : 0 + suc b ≡ suc b = omega arith in rw e
  drop-drop (suc a) (suc b) [] = let e : suc a + suc b ≡ suc (a + suc b) = omega arith in rw e
  drop-drop a (suc b) (x ∷ xs) =
      let e : a + suc b ≡ suc (a + b) = omega arith in rw e (drop-drop a b xs)

  length-newest : (n : ℕ) (xs : List M) → length (newest n xs) ≡ min n (length xs)
  length-newest n xs = omega (arith, length-drop (length xs - n) xs)

  -- One more message: the window of the longer list.
  newest-snoc :
      (n : ℕ) (xs : List M) (x : M)
      → 0 < n
      → shifted n (newest n xs) ++ x ∷ [] ≡ newest n (xs ++ x ∷ [])
  unfolding shifted
  newest-snoc n xs x pos =
      let kept = length-newest n xs in
      let longer = length-append xs (x ∷ []) in
      if_rule (λ w. w ++ x ∷ [] ≡ newest n (xs ++ x ∷ [])) (eqb (length (newest n xs)) n)
        (λ full.
          let room : n ≤ length xs = ground (arith, kept) in
          let next : 1 + (length xs - n) ≡ length (xs ++ x ∷ []) - n = omega (arith, longer) in
          ap (λ l. l ++ x ∷ []) (drop-drop 1 (length xs - n) xs ∙ ap (λ k. drop k xs) next)
          ∙ sym (drop-append_le (length (xs ++ x ∷ []) - n) xs (x ∷ []) (omega (arith, longer))))
        (λ short.
          let room : length xs < n = ground (arith, kept) in
          let all : length xs - n ≡ 0 = omega arith in
          let all' : length (xs ++ x ∷ []) - n ≡ 0 = omega (arith, longer) in rw (all, all'))

  -- A log that ends in one more message.
  sent_to-snoc :
      (channel c : Text) (msg : M) (log : List (Text × M))
      → sent_to channel (log ++ (c, msg) ∷ [])
        ≡ (if c == channel then sent_to channel log ++ msg ∷ [] else sent_to channel log)
  unfolding sent_to
  sent_to-snoc channel c msg [] = ground arith
  sent_to-snoc channel c msg ((d, first) ∷ log) = ground (arith, sent_to-snoc channel c msg log)

  window-append :
      (m : Memory M) (c channel : Text) (msg : M)
      → 0 < m.limit
      → window (append m c msg) channel ≡ (
          if c == channel then shifted m.limit (window m channel) ++ msg ∷ [] else window m channel)
  unfolding window append
  window-append m c channel msg pos = ground (
    arith,
    same_text_iff c channel,
    lookup-insert c channel (shifted m.limit (window m c) ++ msg ∷ []) m.channels,
  )

  -- The memory agrees with the log of what was appended so far.
  abbrev Agrees : Memory M → List (Text × M) → Type ℓ
  Agrees m log = (channel : Text) → window m channel ≡ newest m.limit (sent_to channel log)

  limit-append : (m : Memory M) (c : Text) (msg : M) → (append m c msg).limit ≡ m.limit
  unfolding append
  limit-append m c msg = ground arith

  append-Agrees :
      (m : Memory M) (log : List (Text × M)) (c : Text) (msg : M)
      → 0 < m.limit
      → Agrees m log
      → Agrees (append m c msg) (log ++ (c, msg) ∷ [])
  append-Agrees m log c msg pos h channel =
      window-append m c channel msg pos
      ∙ grown (c == channel) (window m channel) (h channel)
      ∙ ap (newest m.limit) (sym (sent_to-snoc channel c msg log))
      ∙ ap (λ n. newest n (sent_to channel (log ++ (c, msg) ∷ []))) (sym (limit-append m c msg))
    where
      grown :
          (b : Bool) (w : List M)
          → w ≡ newest m.limit (sent_to channel log)
          → (if b then shifted m.limit w ++ msg ∷ [] else w)
            ≡ newest m.limit (if b then sent_to channel log ++ msg ∷ [] else sent_to channel log)
      grown true w e =
          ap (λ v. shifted m.limit v ++ msg ∷ []) e
          ∙ newest-snoc m.limit (sent_to channel log) msg pos
      grown false w e = e

  append_all-Agrees :
      (m : Memory M) (past log : List (Text × M))
      → 0 < m.limit
      → Agrees m past
      → Agrees (append_all m log) (past ++ log)
  unfolding append_all
  append_all-Agrees m past [] pos h = subst (Agrees m) (sym (append-nil past)) h
  append_all-Agrees m past ((c, msg) ∷ log) pos h =
      subst (Agrees (append_all (append m c msg) log)) (append_assoc past ((c, msg) ∷ []) log) (
        append_all-Agrees (append m c msg) (past ++ (c, msg) ∷ []) log
          (rw (limit-append m c msg) pos) (append-Agrees m past c msg pos h))

  limit-append_all : (m : Memory M) (log : List (Text × M)) → (append_all m log).limit ≡ m.limit
  unfolding append_all
  limit-append_all m [] = refl
  limit-append_all m ((c, msg) ∷ log) = limit-append_all (append m c msg) log ∙ limit-append m c msg

  -- A memory of no messages never holds one.
  append_all-none : (m : Memory M) (log : List (Text × M)) → m.limit ≡ 0 → append_all m log ≡ m
  unfolding append_all append
  append_all-none m [] e = refl
  append_all-none m ((c, msg) ∷ log) e =
      let off : ltb m.limit 1 ≡ true = ground arith in simp off (append_all-none m log e)

  recent-window :
      (m : Memory M) (channel : Text) (n : ℕ) → recent m channel n ≡ newest n (window m channel)
  unfolding recent
  recent-window m channel n = recent_drop n (window m channel)
    where
      recent_drop :
          (n : ℕ) (w : List M)
          → (if ltb n 1
              then []
              else (if eqb (length w) 0
                  then []
                  else drop (length w - (if ltb (length w) n then length w else n)) w))
            ≡ newest n w
      recent_drop n [] =
          if_rule (λ v. v ≡ []) (ltb n 1) (λ _. refl) (λ _. refl)
          ∙ sym (drop-all (length {A = M} [] - n) [] (omega arith))
      recent_drop zero (x ∷ w) = sym (drop-all (length (x ∷ w) - 0) (x ∷ w) (omega arith))
      recent_drop (suc n) (x ∷ w) =
          if_rule (λ v. v ≡ newest (suc n) (x ∷ w)) (ltb (suc n) 1) (λ h. absurd (ground arith))
            λ _.
              if_rule (λ v. v ≡ newest (suc n) (x ∷ w)) (eqb (length (x ∷ w)) 0)
                (λ h. absurd (ground arith)) (λ _. ap (λ k. drop k (x ∷ w)) (ground arith))

  newest-newest : (n k : ℕ) (xs : List M) → newest n (newest k xs) ≡ newest (min n k) xs
  newest-newest n k xs =
      let skip : length (newest k xs) - n + (length xs - k) ≡ length xs - min n k =
        omega (arith, length-newest k xs) in
      drop-drop (length (newest k xs) - n) (length xs - k) xs ∙ ap (λ d. drop d xs) skip

  window-new : (limit : ℕ) (channel : Text) → window (new_memory {M = M} limit) channel ≡ []
  unfolding window new_memory lookup
  window-new limit channel = refl

  -- After any appends to a memory of `limit` messages, and for any number `n` asked for, `Recent`
  -- returns the newest `min n limit` messages of the channel, oldest first, and of no other channel.
  pub recent-newest :
      (limit n : ℕ) (log : List (Text × M)) (channel : Text)
      → recent (append_all (new_memory limit) log) channel n
        ≡ newest (min n limit) (sent_to channel log)
  unfolding new_memory sent_to
  recent-newest zero n log channel =
      recent-window (append_all (new_memory 0) log) channel n
      ∙ ap (newest n) (
          ap (λ m. window m channel) (append_all-none (new_memory 0) log refl)
          ∙ window-new 0 channel)
      ∙ drop-all (length {A = M} [] - n) [] (omega arith)
      ∙ sym (drop-all (length (sent_to channel log) - min n 0) (sent_to channel log) (omega arith))
  recent-newest (suc limit) n log channel =
      recent-window (append_all (new_memory (suc limit)) log) channel n
      ∙ ap (newest n) (
          append_all-Agrees (new_memory (suc limit)) [] log (omega arith)
            (λ ch.
              window-new (suc limit) ch
              ∙ sym (drop-all (length {A = M} [] - suc limit) [] (omega arith)))
            channel
          ∙ ap (λ k. newest k (sent_to channel log))
              (limit-append_all (new_memory (suc limit)) log))
      ∙ newest-newest n (suc limit) (sent_to channel log)
