-- ===== src/Broadcast/MapChan/Sending.antt =====
-- broadcast.go: a send to a subscriber and a receive by one keep the invariant of MapChan.
use ws_chat.Base.{
  ℕ, ◌≡◌, refl, sym, ap, ◌∙◌, Bool, true, false, not, ◌||◌, List, [], ◌∷◌, ◌++◌, ltb, eqb,
  if◌then◌else◌, if_rule, length, length-append, All, All-map, All-snoc, All-update, append_assoc,
  arith,
}
use ws_chat.Broadcast.MapChan.{
  MapSub, sending, MapChan, new_sub, new_map_chan, is_reading, write_locked, set_sub, send_at, send,
  is_full, run_thread, received, receive,
}
use ws_chat.Broadcast.MapChan.Invariant.{
  Fulls, Opens, SubInv, ThreadInv, Member, Noted, Inv, later-ThreadInv,
}

module _ {ℓ} {A : Type ℓ} where
  pub new-SubInv : (buf : ℕ) (over : Bool) → SubInv buf (new_sub {A = A} over)
  new-SubInv buf over = record { fits = omega arith; in_order = refl; lags = λ e. absurd (cc) }

  pub new_map_chan-Inv : (n : ℕ) → Inv (new_map_chan {A = A} n)
  unfolding new_map_chan
  new_map_chan-Inv n = record {
    each = λ p. new-SubInv _ true;
    members = tt;
    running = tt;
    calm = refl;
  }

  pub write_rule :
      (b c : MapChan A) → Inv b → (is_reading b.threads ≡ false → Inv c) → Inv (write_locked b c)
  write_rule b c i h = if_rule Inv (is_reading b.threads) (λ _. i) h

  -- One subscription replaced by one that is as open, and full where it was.
  set-Inv :
      (p : ℕ) (s : MapSub A) (b : MapChan A)
      → SubInv b.buf s
      → s.ended ≡ (b.sub_at p).ended
      → ((b.sub_at p).was_full ≡ true → s.was_full ≡ true)
      → Inv b
      → Inv (record b { sub_at = λ q. if eqb p q then s else b.sub_at q })
  set-Inv p s b ok e f i =
      let after = λ (q : ℕ). if eqb p q then s else b.sub_at q in
      let opens : Opens b.sub_at after = λ q h. ground (arith, ap (λ n. (b.sub_at n).ended)) in
      let fulls : Fulls b.sub_at after = λ q h. ground arith in
      record {
        each = λ q. if_rule (SubInv b.buf) (eqb p q) (λ _. ok) (λ _. i.each q);
        members =
            All-map (Member b.sub_at b.next) (Member after b.next) b.subs
              (λ q m. (opens q m.0, m.1)) i.members;
        running =
            All-map (ThreadInv b.sub_at b.next) (ThreadInv after b.next) b.threads
              (λ t x. later-ThreadInv b.next b.sub_at after t opens fulls x) i.running;
        calm = i.calm;
      }

  received-Inv :
      (p : ℕ) (b : MapChan A) (q : List A)
      → (b.sub_at p).queue ≡ q
      → Inv b
      → Inv (set_sub p (received q (b.sub_at p)) b)
  received-Inv p b [] e i = set-Inv p (b.sub_at p) b (i.each p) refl (λ h. h) i
  received-Inv p b (m ∷ ms) e i =
      let s = b.sub_at p in
      set-Inv p (record s { queue = ms; got = s.got ++ m ∷ [] }) b
        (record {
          fits = omega (arith, (i.each p).fits, ap length e);
          in_order =
              append_assoc s.got (m ∷ []) ms ∙ ap (λ l. s.got ++ l) (sym e) ∙ (i.each p).in_order;
          lags = (i.each p).lags;
        })
        refl (λ h. h) i

  pub receive-Inv : (p : ℕ) (b : MapChan A) → Inv b → Inv (receive p b)
  unfolding receive
  receive-Inv p b i = received-Inv p b (b.sub_at p).queue refl i

  send-Opens : (m : A) (p buf : ℕ) (at : ℕ → MapSub A) → Opens at (send_at m p buf at)
  unfolding send_at
  send-Opens m p buf at q h = ground (arith, ap (λ n. (at n).ended))

  send-Fulls : (m : A) (p buf : ℕ) (at : ℕ → MapSub A) → Fulls at (send_at m p buf at)
  unfolding send_at
  send-Fulls m p buf at q h = ground (arith, ap (λ n. (at n).was_full))

  send-SubInv :
      (m : A) (p buf q : ℕ) (at : ℕ → MapSub A)
      → ((r : ℕ) → SubInv buf (at r))
      → SubInv buf (send_at m p buf at q)
  unfolding send_at
  send-SubInv m p buf q at i =
      let s = at p in
      if_rule (SubInv buf) (s.ended || not (eqb p q)) (λ _. i q)
        (λ _.
          if_rule (SubInv buf) (ltb (length s.queue) buf)
            (λ room. record {
              fits = ground (arith, length-append s.queue (m ∷ []));
              in_order =
                  sym (append_assoc s.got s.queue (m ∷ [])) ∙ ap (λ l. l ++ m ∷ []) (i p).in_order;
              lags = (i p).lags;
            })
            (λ none_left. record {
              fits = (i p).fits;
              in_order = (i p).in_order;
              lags = λ e. refl;
            }))

  -- One round of the loop of `Broadcast`: those that are noted as slow were full.
  pub sent-Inv :
      (t p : ℕ) (m : A) (ps slow : List ℕ) (b : MapChan A)
      → All (Member b.sub_at b.next) (p ∷ ps)
      → All (Noted b.sub_at b.next) slow
      → Inv b
      → Inv (run_thread t (sending m (p ∷ ps) slow) b)
  unfolding run_thread send
  sent-Inv t p m ps slow b o f i =
      let after = send_at m p b.buf b.sub_at in
      let opens = send-Opens m p b.buf b.sub_at in
      let fulls = send-Fulls m p b.buf b.sub_at in
      let later =
        All-map (Noted b.sub_at b.next) (Noted after b.next) slow (λ q x. (fulls q x.0, x.1)) f in
      let noted : All (Noted after b.next) (if is_full p b then slow ++ p ∷ [] else slow) =
        if_rule (All (Noted after b.next)) (is_full p b)
          (λ full.
            All-snoc (Noted after b.next) slow p later
              (unfold send_at in ground (arith, o.0.0), o.0.1))
          (λ _. later) in
      record {
        each = λ q. send-SubInv m p b.buf q b.sub_at i.each;
        members =
            All-map (Member b.sub_at b.next) (Member after b.next) b.subs
              (λ q x. (opens q x.0, x.1)) i.members;
        running =
            All-update (ThreadInv after b.next) t
              (sending m ps (if is_full p b then slow ++ p ∷ [] else slow)) b.threads
              (All-map (ThreadInv b.sub_at b.next) (ThreadInv after b.next) b.threads
                (λ x h. later-ThreadInv b.next b.sub_at after x opens fulls h) i.running)
              (
                All-map (Member b.sub_at b.next) (Member after b.next) ps
                    (λ q x. (opens q x.0, x.1)) o.1,
                noted,
              );
        calm = ground (arith, i.calm, o.0.0);
      }
