-- ===== src/Server/FanOut/Order.antt =====
-- channel.go: the rings of a channel get the same messages in the same order, until they are closed.
use ws_chat.Base.{
  ℕ, zero, suc, ◌≤◌, ◌≡◌, ◌⊎◌, inl, inr, refl, ap, sym, subst, ◌∙◌, Bool, true, false, ◌||◌, Option,
  none, some, List, [], ◌∷◌, ◌++◌, map, take, length, length-append, eqb, if◌then◌else◌, if_rule,
  Text, arith,
}
use ws_chat.Proto.Frame.{Outbound}
use ws_chat.Proto.Codec.{Codec, msg_pack, json}
use ws_chat.Server.State.{Ring, send_ring, close_ring, set_at}
use ws_chat.Server.Channels.{both_frames, frame_of, encode_all}
use ws_chat.Server.FanOut.{
  Stage, outside, sending, Hall, is_codec, put_ring, sent_to, begin_send, send_one, end_send, Move,
  begins, sends, ends, closes, move, moves, new_hall,
}

module _ (encode : Codec → Outbound → Option Text) where
  -- Frames of one message.
  abbrev Frames : Outbound → Option (Codec → Text) → Type 0
  Frames payload none = Unit
  Frames payload (some frames) = (c : Codec) → encode c payload ≡ some (frames c)

  both_frames-Frames :
      (payload : Outbound) (m j : Option Text)
      → encode msg_pack payload ≡ m
      → encode json payload ≡ j
      → Frames payload (both_frames m j)
  both_frames-Frames payload (some m) (some j) em ej = of_codec
    where
      of_codec : (c : Codec) → encode c payload ≡ some (frame_of m j c)
      of_codec msg_pack = em
      of_codec json = ej
  both_frames-Frames payload (some m) none em ej = tt
  both_frames-Frames payload none j em ej = tt

  encode_all-Frames : (payload : Outbound) → Frames payload (encode_all encode payload)
  unfolding encode_all
  encode_all-Frames payload = both_frames-Frames payload _ _ refl refl

  -- A ring holds the first of these messages, as its codec encodes them.
  abbrev pub HoldsFirst : List Outbound → Codec → Ring → Type 0
  HoldsFirst said k r =
      (length r.log ≤ length said) × (map some r.log ≡ map (encode k) (take (length r.log) said))

  -- It is closed, or it holds this many.
  abbrev pub Holds : ℕ → Ring → Type 0
  Holds n r = (r.shut ≡ true) ⊎ (length r.log ≡ n)

  -- With the lock free all is sent; under it the last message is on its way.
  abbrev Sending : List Outbound → (Codec → Ring) → Stage → Type 0
  Sending said rings outside = ⊥
  Sending said rings (sending payload frames left) =
      (before : List Outbound) × (said ≡ before ++ payload ∷ [])
      × ((k : Codec) → encode k payload ≡ some (frames k))
      × ((k : Codec) → Holds (if left k then length before else length said) (rings k))

  abbrev Locked : List Outbound → Hall → Option ℕ → Type 0
  Locked said h none =
      ((i : ℕ) → h.stage i ≡ outside) × ((k : Codec) → Holds (length said) (h.rings k))
  Locked said h (some i) =
      ((j : ℕ) → (eqb i j ≡ true) ⊎ (h.stage j ≡ outside)) × Sending said h.rings (h.stage i)

  record Ordered (h : Hall) : Type 0 where
    said : List Outbound
    holds : (k : Codec) → HoldsFirst said k (h.rings k)
    locked : Locked said h h.lock

  -- One more message that no ring has.
  take-more :
      (n : ℕ) (xs : List Outbound) (x : Outbound)
      → n ≤ length xs
      → take n (xs ++ x ∷ []) ≡ take n xs
  take-more zero xs x le = refl
  take-more (suc n) [] x le = absurd (omega arith)
  take-more (suc n) (y ∷ ys) x le = ap (λ l. y ∷ l) (take-more n ys x (omega arith))

  HoldsFirst-more :
      (said : List Outbound) (x : Outbound) (k : Codec) (r : Ring)
      → HoldsFirst said k r
      → HoldsFirst (said ++ x ∷ []) k r
  HoldsFirst-more said x k r (le, e) = (
    omega (arith, le, length-append {0} said (x ∷ [])),
    e ∙ ap (map (encode k)) (sym (take-more (length r.log) said x le)),
  )

  begin-Ordered :
      (i : ℕ) (payload : Outbound) (h : Hall) (s : Stage) (lock : Option ℕ)
      (made : Option (Codec → Text))
      → Frames payload made
      → h.lock ≡ lock
      → Ordered h
      → Ordered (begin_send i payload h s lock made)
  unfolding begin_send
  begin-Ordered i payload h (sending p frames left) lock made f e o = o
  begin-Ordered i payload h outside (some holder) made f e o = o
  begin-Ordered i payload h outside none none f e o = o
  begin-Ordered i payload h outside none (some frames) f e o =
      let (out, all) = subst (Locked o.said h) e o.locked in
      record {
        said = o.said ++ payload ∷ [];
        holds = λ k. HoldsFirst-more o.said payload k (h.rings k) (o.holds k);
        locked = (
          λ j.
              if_rule (λ (s : Stage). (eqb i j ≡ true) ⊎ (s ≡ outside)) (eqb i j) (λ y. inl y)
                (λ _. inr (out j)),
          if_rule (Sending (o.said ++ payload ∷ []) h.rings) (eqb i i) (λ _. (o.said, refl, f, all))
              (λ no. absurd (ground (arith, no))),
        );
      }

  is_codec-same : (k c : Codec) → is_codec k c ≡ true → k ≡ c
  is_codec-same msg_pack msg_pack e = refl
  is_codec-same msg_pack json e = absurd (cc)
  is_codec-same json msg_pack e = absurd (cc)
  is_codec-same json json e = refl

  take-all : (xs : List Outbound) (n : ℕ) → length xs ≤ n → take n xs ≡ xs
  take-all [] zero le = refl
  take-all [] (suc n) le = refl
  take-all (x ∷ xs) zero le = absurd (omega arith)
  take-all (x ∷ xs) (suc n) le = ap (λ l. x ∷ l) (take-all xs n (omega arith))

  map-snoc :
      {A B : Type 0} (f : A → B) (xs : List A) (x : A) → map f (xs ++ x ∷ []) ≡ map f xs ++ f x ∷ []
  map-snoc f [] x = refl
  map-snoc f (y ∷ xs) x = ap (λ l. f y ∷ l) (map-snoc f xs x)

  -- The ring that gets the frame of the last message.
  abbrev Got : List Outbound → Codec → Ring → Type 0
  Got said k r = HoldsFirst said k r × Holds (length said) r

  ring_sent :
      (k : Codec) (r : Ring) (before : List Outbound) (payload : Outbound) (frame : Text)
      → encode k payload ≡ some frame
      → HoldsFirst (before ++ payload ∷ []) k r
      → Holds (length before) r
      → Got (before ++ payload ∷ []) k (send_ring frame r)
  ring_sent k r before payload frame f (le, e) at =
      let said = before ++ payload ∷ [] in
      let size = length-append {0} before (payload ∷ []) in
      if_rule (λ (s : Ring). HoldsFirst said k s × Holds (length said) s) r.shut
        (λ shut. ((le, e), inl shut))
        (λ runs.
          let n : length r.log ≡ length before = ground (arith, at, runs) in
          let more = length-append {0} r.log (frame ∷ []) in
          let old : map some r.log ≡ map (encode k) before =
            e
            ∙ ap (map (encode k)) (
                take-more (length r.log) before payload (omega (arith, n))
                ∙ take-all before (length r.log) (omega (arith, n))) in
          (
            (
              omega (arith, size, more, n),
              map-snoc some r.log frame
                  ∙ ap (λ l. l ++ some frame ∷ []) old
                  ∙ ap (λ x. map (encode k) before ++ x ∷ []) (sym f)
                  ∙ sym (map-snoc (encode k) before payload)
                  ∙ ap (map (encode k)) (
                      sym (
                        take-all said (length (r.log ++ frame ∷ []))
                          (omega (arith, size, more, n)))),
            ),
            inr (omega (arith, size, more, n)),
          ))

  -- What holds of a ring that was put, and of the others.
  pick :
      (P : Bool → Ring → Type 0) (b : Bool) (new old : Ring)
      → (b ≡ true → P true new)
      → (b ≡ false → P false old)
      → P b (if b then new else old)
  pick P true new old h g = h refl
  pick P false new old h g = g refl

  send-Ordered :
      (i : ℕ) (k : Codec) (h : Hall) (s : Stage)
      → h.stage i ≡ s
      → Ordered h
      → Ordered (send_one i k h s)
  unfolding send_one
  send-Ordered i k h outside e o = o
  send-Ordered i k h (sending payload frames left) e o =
      if_rule Ordered (left k) (λ due. sent h.lock refl due) (λ _. o)
    where
      after : Hall
      after = record h {
        rings = put_ring k (send_ring (frames k) (h.rings k)) h.rings;
        stage = set_at i (sending payload frames (sent_to k left)) h.stage;
      }

      sent : (lock : Option ℕ) → h.lock ≡ lock → left k ≡ true → Ordered after
      sent none l due =
          let (out, all) = subst (Locked o.said h) l o.locked in absurd (ground (arith, out i, e))
      sent (some j) l due =
          let (others, busy) = subst (Locked o.said h) l o.locked in
          let mine : j ≡ i = ground (arith, others i, e) in
          let (before, last, f, at) = subst (Sending o.said h.rings) (ap h.stage mine ∙ e) busy in
          let first = subst (λ (l : List Outbound). HoldsFirst l k (h.rings k)) last (o.holds k) in
          let due_ring =
            subst (λ (b : Bool). Holds (if b then length before else length o.said) (h.rings k)) due
              (at k) in
          let got =
            subst
              (λ (l : List Outbound).
                HoldsFirst l k (send_ring (frames k) (h.rings k))
                × Holds (length l) (send_ring (frames k) (h.rings k)))
              (sym last) (ring_sent k (h.rings k) before payload (frames k) (f k) first due_ring) in
          record {
            said = o.said;
            holds = λ c.
                pick (λ b r. HoldsFirst o.said c r) (is_codec k c)
                  (send_ring (frames k) (h.rings k)) (h.rings c)
                  (λ y.
                    subst (λ (q : Codec). HoldsFirst o.said q (send_ring (frames k) (h.rings k)))
                      (is_codec-same k c y) got.0)
                  (λ _. o.holds c);
            locked = subst (Locked o.said after) (sym l ∙ refl) (
              λ (u : ℕ).
                  if_rule (λ (t : Stage). (eqb j u ≡ true) ⊎ (t ≡ outside)) (eqb i u)
                    (λ y. inl (ground (arith, mine, y))) (λ _. others u),
              subst (λ (u : ℕ). Sending o.said after.rings (after.stage u)) (sym mine)
                  (if_rule (Sending o.said after.rings) (eqb i i)
                    (λ _. (
                      before,
                      last,
                      f,
                      λ c.
                          pick
                            (λ b r.
                              Holds
                                (if (if b then false else left c)
                                  then length before
                                  else length o.said)
                                r)
                            (is_codec k c) (send_ring (frames k) (h.rings k)) (h.rings c)
                            (λ _. got.1) (λ _. at c),
                    ))
                    (λ no. absurd (ground (arith, no)))),
            );
          }

  end-Ordered :
      (i : ℕ) (h : Hall) (s : Stage) → h.stage i ≡ s → Ordered h → Ordered (end_send i h s)
  unfolding end_send
  end-Ordered i h outside e o = o
  end-Ordered i h (sending payload frames left) e o =
      if_rule Ordered (left msg_pack || left json) (λ _. o) (λ done. ended h.lock refl done)
    where
      after : Hall
      after = record h { stage = set_at i outside h.stage; lock = none }

      none_due : (left msg_pack || left json) ≡ false → (k : Codec) → left k ≡ false
      none_due done msg_pack = ground (arith, done)
      none_due done json = ground (arith, done)

      ended :
          (lock : Option ℕ) → h.lock ≡ lock → (left msg_pack || left json) ≡ false → Ordered after
      ended none l done =
          let (out, all) = subst (Locked o.said h) l o.locked in absurd (ground (arith, out i, e))
      ended (some j) l done =
          let (others, busy) = subst (Locked o.said h) l o.locked in
          let mine : j ≡ i = ground (arith, others i, e) in
          let (before, last, f, at) = subst (Sending o.said h.rings) (ap h.stage mine ∙ e) busy in
          record {
            said = o.said;
            holds = o.holds;
            locked = (
              λ (u : ℕ).
                  if_rule (λ (t : Stage). t ≡ outside) (eqb i u) (λ _. refl)
                    (λ no. ground (arith, others u, mine, no)),
              λ k.
                  subst
                    (λ (b : Bool). Holds (if b then length before else length o.said) (h.rings k))
                    (none_due done k) (at k),
            );
          }

  -- Closing a ring changes nothing that is in it.
  close-Ordered :
      (k : Codec) (h : Hall)
      → Ordered h
      → Ordered (record h { rings = put_ring k (close_ring (h.rings k)) h.rings })
  close-Ordered k h o = record {
    said = o.said;
    holds = λ c.
        pick (λ b r. HoldsFirst o.said c r) (is_codec k c) (close_ring (h.rings k)) (h.rings c)
          (λ y.
            subst (λ (q : Codec). HoldsFirst o.said q (close_ring (h.rings k)))
              (is_codec-same k c y) (o.holds k))
          (λ _. o.holds c);
    locked = closed h.lock o.locked;
  }
    where
      after : Hall
      after = record h { rings = put_ring k (close_ring (h.rings k)) h.rings }

      held : (c : Codec) (n : ℕ) → Holds n (h.rings c) → Holds n (after.rings c)
      held c n at =
          pick (λ b r. Holds n r) (is_codec k c) (close_ring (h.rings k)) (h.rings c)
            (λ _. inl refl) (λ _. at)

      on_the_way : (s : Stage) → Sending o.said h.rings s → Sending o.said after.rings s
      on_the_way outside none_such = absurd none_such
      on_the_way (sending payload frames left) (before, last, f, at) =
          (before, last, f, λ c. held c (if left c then length before else length o.said) (at c))

      closed : (lock : Option ℕ) → Locked o.said h lock → Locked o.said after lock
      closed none (out, all) = (out, λ c. held c (length o.said) (all c))
      closed (some i) (others, busy) = (others, on_the_way (h.stage i) busy)

  moves-Ordered : (ms : List Move) (h : Hall) → Ordered h → Ordered (moves encode ms h)
  unfolding moves move
  moves-Ordered [] h o = o
  moves-Ordered (begins i payload ∷ ms) h o = moves-Ordered ms (move encode (begins i payload) h) (
      begin-Ordered i payload h (h.stage i) h.lock (encode_all encode payload)
        (encode_all-Frames payload) refl o)
  moves-Ordered (sends i k ∷ ms) h o =
      moves-Ordered ms (move encode (sends i k) h) (send-Ordered i k h (h.stage i) refl o)
  moves-Ordered (ends i ∷ ms) h o =
      moves-Ordered ms (move encode (ends i) h) (end-Ordered i h (h.stage i) refl o)
  moves-Ordered (closes k ∷ ms) h o =
      moves-Ordered ms (move encode (closes k) h) (close-Ordered k h o)

  -- Somebody has the lock, or a ring is closed or has all the messages.
  abbrev pub AllSent : List Outbound → Hall → Codec → Option ℕ → Type 0
  AllSent said h k none = Holds (length said) (h.rings k)
  AllSent said h k (some i) = Unit

  Locked-AllSent :
      (said : List Outbound) (h : Hall) (k : Codec) (lock : Option ℕ)
      → Locked said h lock
      → AllSent said h k lock
  Locked-AllSent said h k none (out, all) = all k
  Locked-AllSent said h k (some i) held = tt

  -- Whatever callers broadcast to a channel, their steps in any order, rings sent to in any order,
  -- codecs failing, and either ring closed at any time, without the lock: there is one list of
  -- messages, of which each ring holds the encodings of the first so many, in order; and a ring that
  -- is not closed holds all of them whenever nobody has the lock.
  pub moves-one_order :
      (ms : List Move)
      → let h = moves encode ms new_hall in
        (said : List Outbound) × ((k : Codec) → HoldsFirst said k (h.rings k))
        × ((k : Codec) → AllSent said h k h.lock)
  moves-one_order ms =
      let o = moves-Ordered ms new_hall (record {
        said = [];
        holds = λ k. (omega arith, refl);
        locked = (λ i. refl, λ k. inr refl);
      }) in
      let h = moves encode ms new_hall in
      (o.said, o.holds, λ k. Locked-AllSent o.said h k h.lock o.locked)
