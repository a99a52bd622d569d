-- ===== src/Loadgen/Stats/Accounts.antt =====
-- internal/loadgen/loadgen.go: each frame that a client reads is counted once.
use ws_chat.Base.{
  ℕ, ◌+◌, ◌%◌, ◌^◌, ◌≡◌, refl, ap, Bool, true, false, Option, none, some, List, [], ◌∷◌, count, one,
  if◌then◌else◌, if_rule, length, Text, ◌==◌, text_keyed, same_text, arith,
}
use ws_chat.Base.Dict.{Dict, lookup, insert}
use ws_chat.Loadgen.Stats.{
  Stats, Frame, Client, Arrival, entry, inc, bump, refused, closed_early, on_frame, is_same,
  decoded, read_frame, on_arrival, read, with_garbage, no_frame,
}

-- The sum of a map's counts.
abbrev pub total : Dict Text ℕ → ℕ
total [] = 0
total ((k, n) ∷ m) = n + total m

-- What was counted of the frames.
abbrev pub counted : Stats → ℕ
counted s = (s.received + s.other + s.garbage + total s.refusals) % 2 ^ 64

-- A frame that is decoded, but has no verb.
abbrev pub is_unnamed_frame : Option Frame → Bool
is_unnamed_frame none = false
is_unnamed_frame (some f) = f.verb == []

abbrev pub is_unnamed : (Text → Option Frame) → Bool → Arrival → Bool
is_unnamed unmarshal binary a =
    if is_same a.binary binary then is_unnamed_frame (unmarshal a.bytes) else false

total-insert :
    (key : Text) (v : ℕ) (m : Dict Text ℕ)
    → total (insert key v m) + entry (lookup key m) ≡ total m + v
unfolding lookup insert
total-insert key v [] = omega arith
total-insert key v ((j, n) ∷ m) = ground (arith, total-insert key v m)

pub total-bump :
    (key : Text) (m : Dict Text ℕ) → total (bump key m) % 2 ^ 64 ≡ (total m + 1) % 2 ^ 64
unfolding bump
total-bump key m = let sum = total-insert key (inc (entry (lookup key m))) m in omega (arith, sum)

-- A frame with a verb is counted once.
on_frame-counted :
    (now : ℕ) (f : Frame) (c : Client)
    → (counted (on_frame now f c).stats + one (f.verb == [])) % 2 ^ 64
      ≡ (counted c.stats + 1) % 2 ^ 64
unfolding on_frame refused
on_frame-counted now f c = ground (arith, total-bump f.description c.stats.refusals)

on_nothing : (now : ℕ) (c : Client) → on_frame now no_frame c ≡ c
unfolding on_frame same_text
on_nothing now c = refl

on_garbage-counted :
    (now : ℕ) (c : Client)
    → (counted (on_frame now no_frame (with_garbage c)).stats + 0) % 2 ^ 64
      ≡ (counted c.stats + 1) % 2 ^ 64
on_garbage-counted now c =
    let same = ap (λ (d : Client). counted d.stats) (on_nothing now (with_garbage c)) in
    omega (arith, same)

on_decoded-counted :
    (now : ℕ) (c : Client) (o : Option Frame)
    → (counted (on_frame now (decoded c o).1 (decoded c o).0).stats + one (is_unnamed_frame o))
        % 2 ^ 64
      ≡ (counted c.stats + 1) % 2 ^ 64
on_decoded-counted now c none = on_garbage-counted now c
on_decoded-counted now c (some f) = on_frame-counted now f c

abbrev framed : Client → Option Frame → Bool → Client × Frame
framed c o right = if right then decoded c o else (with_garbage c, no_frame)

-- With the framing right or wrong.
on_framed-counted :
    (now : ℕ) (c : Client) (o : Option Frame) (right : Bool)
    → (counted (on_frame now (framed c o right).1 (framed c o right).0).stats
          + one (if right then is_unnamed_frame o else false))
        % 2 ^ 64
      ≡ (counted c.stats + 1) % 2 ^ 64
on_framed-counted now c o true = on_decoded-counted now c o
on_framed-counted now c o false = on_garbage-counted now c

module _ (unmarshal : Text → Option Frame) where
  on_arrival-counted :
      (a : Arrival) (c : Client)
      → (counted (on_arrival unmarshal a c).stats + one (is_unnamed unmarshal c.binary a)) % 2 ^ 64
        ≡ (counted c.stats + 1) % 2 ^ 64
  unfolding on_arrival read_frame
  on_arrival-counted a c = on_framed-counted a.now c (unmarshal a.bytes) (is_same a.binary c.binary)

  on_frame-binary : (now : ℕ) (f : Frame) (c : Client) → (on_frame now f c).binary ≡ c.binary
  unfolding on_frame
  on_frame-binary now f c = ground arith

  on_decoded-binary :
      (now : ℕ) (c : Client) (o : Option Frame)
      → (on_frame now (decoded c o).1 (decoded c o).0).binary ≡ c.binary
  on_decoded-binary now c none = on_frame-binary now no_frame (with_garbage c)
  on_decoded-binary now c (some f) = on_frame-binary now f c

  on_arrival-binary : (a : Arrival) (c : Client) → (on_arrival unmarshal a c).binary ≡ c.binary
  unfolding on_arrival read_frame
  on_arrival-binary a c =
      if_rule (λ (d : Client × Frame). (on_frame a.now d.1 d.0).binary ≡ c.binary)
        (is_same a.binary c.binary) (λ _. on_decoded-binary a.now c (unmarshal a.bytes))
        (λ _. on_frame-binary a.now no_frame (with_garbage c))

  -- Whatever frames a client reads, and however its reading ends: the messages, the refusals, the
  -- other frames and the garbage it counts are together, up to multiples of 2 ^ 64, all the frames
  -- it read except those that are decoded and have no verb, which it counts nowhere.
  pub read-counted :
      (arrivals : List Arrival) (end : Option Text) (c : Client)
      → (counted (read unmarshal arrivals end c).stats
            + count (is_unnamed unmarshal c.binary) arrivals)
          % 2 ^ 64
        ≡ (counted c.stats + length arrivals) % 2 ^ 64
  unfolding read closed_early
  read-counted [] none c = omega arith
  read-counted [] (some reason) c = omega arith
  read-counted (a ∷ more) end c =
      let rest = read-counted more end (on_arrival unmarshal a c) in
      let first = on_arrival-counted a c in
      let same = ap (λ b. count (is_unnamed unmarshal b) more) (on_arrival-binary a c) in
      ground (arith, rest, first, same)
