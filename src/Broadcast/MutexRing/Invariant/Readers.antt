-- ===== src/Broadcast/MutexRing/Invariant/Readers.antt =====
-- ring.go: `finish` and the accesses of `Recv` keep the invariant.
use ws_chat.Base.{
  ℕ, zero, suc, ◌+◌, ◌-◌, ◌^◌, ◌≤◌, ◌<◌, ◌≡◌, refl, sym, ap, subst, ◌∙◌, inr, List, [], ◌∷◌, ◌++◌,
  false, ◌||◌, not, some, length, get_elem?, one, one-le, take, drop, length-take, length-drop,
  arith, ltb, eqb, if_rule, All-get, update, count-update,
}
use ws_chat.Broadcast.Errors.{Err, closed, lagged}
use ws_chat.Broadcast.Segments.{segment, segment-join}
use ws_chat.Broadcast.SeqRing.{u64, sub64, failed}
use ws_chat.Broadcast.MutexRing.{
  Place, idle, top, locking, lapped, dropped, ended, woken, parked, RingSub, Ring, finish, copy,
  batch, read_locked, read, receive,
}
use ws_chat.Broadcast.MutexRing.Copying.{copy-take, copy-pos}
use ws_chat.Broadcast.MutexRing.Invariant.Defs.{
  Stands, Resting, Asked, is_lagged, SubInv, is_waiting, is_live, is_overrun, Inv, set_sub-Inv,
}

module _ {ℓ} {A : Type ℓ} where
  take-length : (n : ℕ) (xs : List A) → take (length (take n xs)) xs ≡ take n xs
  take-length zero xs = refl
  take-length (suc n) [] = refl
  take-length (suc n) (x ∷ xs) = ap (λ l. x ∷ l) (take-length n xs)

  -- A subscription that only changes its place, and is not dropped unless it rests there.
  place-SubInv :
      (k : ℕ) (s : RingSub A) (q : Place) (r : Ring A)
      → SubInv k r.log r.notify r.shut s
      → Stands k (length r.log) r.notify r.shut s.pos q
      → (s.err ≡ some lagged → Resting q)
      → Asked s.room q
      → SubInv k r.log r.notify r.shut (record s { place = q })
  place-SubInv k s q r i st rest ask = record {
    behind = i.behind;
    begun = i.begun;
    received = i.received;
    overrun = λ e. ((i.overrun e).0, rest e);
    stands = st;
    asked = ask;
  }

  -- `finish`, in a place that no counter but `drops` counts.
  finish-Inv :
      (k i : ℕ) (e : Err) (s t : RingSub A) (r : Ring A)
      → get_elem? r.readers i ≡ some s
      → SubInv k r.log r.notify r.shut t
      → t.err ≡ s.err
      → one (is_waiting t) ≡ one (is_waiting s)
      → (e ≡ lagged → (t.pos + 2 ^ k < length r.log) × Resting t.place)
      → one (is_overrun t) ≤ one (is_overrun s)
      → one (is_overrun (record t { err = some e })) ≤ one (is_overrun s)
      → Inv k r
      → Inv k (finish i e t r)
  unfolding finish
  finish-Inv k i e s t r at inv same w far o o' h =
      if_rule (Inv k) (failed t.err)
        (λ was.
          let l : one (is_live t) ≡ one (is_live s) = ap (λ x. one (not (failed x))) same in
          set_sub-Inv k i r.waiters r.subs r.drops s t r at inv (omega arith) (omega arith)
            (omega arith) h)
        (λ new.
          let l : failed s.err ≡ false = sym (ap failed same) ∙ new in
          let c : one (is_live s) ≡ 1 = rw l refl in
          let b = count-update is_live i s (record t { err = some e }) r.readers at in
          set_sub-Inv k i r.waiters (r.subs - 1) r.drops s (record t { err = some e }) r at
            (record {
              behind = inv.behind;
              begun = inv.begun;
              received = inv.received;
              overrun = λ q. far (cc);
              stands = inv.stands;
              asked = inv.asked;
            })
            (omega arith) (omega (arith, h.live)) (omega arith) h)

  -- The subscription behind the read lock that is not lapped.
  batch-Inv :
      (k i : ℕ) (s : RingSub A) (r : Ring A) (c : List A × ℕ)
      → get_elem? r.readers i ≡ some s
      → s.place ≡ locking
      → c.1 ≡ s.pos + length c.0
      → c.1 ≤ length r.log
      → c.0 ≡ segment s.pos (length c.0) r.log
      → (c.0 ≡ [] → s.pos ≡ length r.log)
      → Inv k r
      → Inv k (batch i s r c)
  unfolding batch
  batch-Inv k i s r (x ∷ xs, p) at pl ep le ex all h =
      let inv = All-get (SubInv k r.log r.notify r.shut) i s r.readers h.each at in
      let t = record s { pos = p; place = idle; delivered = s.delivered ++ x ∷ xs } in
      let w : is_waiting s ≡ false = rw pl refl in
      let o : is_overrun s ≡ is_overrun t = rw pl refl in
      set_sub-Inv k i r.waiters r.subs r.drops s t r at
        (record {
          behind = le;
          begun = omega (arith, inv.begun);
          received =
              ap (λ l. l ++ x ∷ xs) inv.received
              ∙ ap (λ l. segment s.first (s.pos - s.first) r.log ++ l) ex
              ∙ segment-join s.first (s.pos - s.first) s.pos (length (x ∷ xs)) (p - s.first) r.log
                  (omega (arith, inv.begun)) (omega (arith, inv.begun));
          overrun = λ e. absurd (subst Resting pl (inv.overrun e).1);
          stands = tt;
          asked = tt;
        })
        (rw w refl) refl (rw o (omega arith)) h
  batch-Inv k i s r ([], p) at pl ep le ex all h =
      let inv = All-get (SubInv k r.log r.notify r.shut) i s r.readers h.each at in
      let w : is_waiting s ≡ false = rw pl refl in
      let o : is_overrun s ≡ is_lagged s.err = rw pl refl in
      let ask : 0 < s.room = subst (Asked s.room) pl inv.asked in
      let rest = λ (e : s.err ≡ some lagged). absurd (subst Resting pl (inv.overrun e).1) in
      if_rule (Inv k) r.shut
        (λ shut.
          set_sub-Inv k i r.waiters r.subs r.drops s (record s { place = ended }) r at
            (place-SubInv k s ended r inv shut rest ask) (rw w refl) refl (rw o (omega arith)) h)
        (λ still.
          set_sub-Inv k i (r.waiters + 1) r.subs r.drops s (record s { place = parked r.notify }) r
            at (place-SubInv k s (parked r.notify) r inv (inr (refl, all refl, still)) rest ask)
            (rw w (omega arith)) refl (rw o (omega arith)) h)

  read_locked-Inv :
      (k i : ℕ) (s : RingSub A) (r : Ring A)
      → length r.log < u64
      → get_elem? r.readers i ≡ some s
      → s.place ≡ locking
      → Inv k r
      → Inv k (read_locked i s r)
  unfolding read_locked
  read_locked-Inv k i s r small at pl h =
      let inv = All-get (SubInv k r.log r.notify r.shut) i s r.readers h.each at in
      let w : is_waiting s ≡ false = rw pl refl in
      let o : is_overrun s ≡ is_lagged s.err = rw pl refl in
      let ask : 0 < s.room = subst (Asked s.room) pl inv.asked in
      let gap : sub64 r.seq s.pos ≡ length r.log - s.pos =
        omega (arith, h.stored.counts, inv.behind) in
      if_rule (Inv k) (ltb r.capacity (sub64 r.seq s.pos))
        (λ over.
          set_sub-Inv k i r.waiters r.subs r.drops s (record s { place = lapped }) r at
            (place-SubInv k s lapped r inv (ground (arith, h.stored.sized))
              (λ e. absurd (subst Resting pl (inv.overrun e).1)) ask)
            (rw w refl) refl (rw o (omega arith)) h)
        (λ near.
          let p = copy-pos k r s.room s.pos small inv.behind h.stored in
          let c =
            copy-take k r s.room s.pos small inv.behind (ground (arith, h.stored.sized)) h.stored in
          batch-Inv k i s r (copy r s.room s.pos) at pl p.0 p.1
            (unfold segment in rw c (sym (take-length s.room (drop s.pos r.log))))
            (λ e.
              let none_left : length (take s.room (drop s.pos r.log)) ≡ 0 = ap length (sym c ∙ e) in
              omega
                (arith, inv.behind, length-take s.room (drop s.pos r.log), length-drop s.pos r.log))
            h)

  -- The next access of a subscription, by its place.
  pub read-Inv :
      (k i : ℕ) (s : RingSub A) (p : Place) (r : Ring A)
      → length r.log < u64
      → get_elem? r.readers i ≡ some (record s { place = p })
      → Inv k r
      → Inv k (read i (record s { place = p }) p r)
  unfolding read
  read-Inv k i s idle r small at h = h
  read-Inv k i s locking r small at h =
      read_locked-Inv k i (record s { place = locking }) r small at refl h
  read-Inv k i s top r small at h =
      let t = record s { place = top } in
      let inv = All-get (SubInv k r.log r.notify r.shut) i t r.readers h.each at in
      if_rule (λ q. Inv k (record r { readers = update i (record s { place = q }) r.readers }))
        (failed s.err)
        (λ _.
          set_sub-Inv k i r.waiters r.subs r.drops t (record s { place = idle }) r at
            (place-SubInv k t idle r inv tt (λ _. tt) tt) refl refl (omega arith) h)
        (λ live.
          set_sub-Inv k i r.waiters r.subs r.drops t (record s { place = locking }) r at
            (place-SubInv k t locking r inv tt (λ e. absurd (cc)) inv.asked) refl refl (omega arith)
            h)
  read-Inv k i s lapped r small at h =
      let t = record s { place = lapped } in
      let inv = All-get (SubInv k r.log r.notify r.shut) i t r.readers h.each at in
      set_sub-Inv k i r.waiters r.subs (r.drops + 1) t (record s { place = dropped }) r at
        (place-SubInv k t dropped r inv inv.stands (λ e. (inv.overrun e).1) inv.asked) refl refl
        (omega arith) h
  read-Inv k i s dropped r small at h =
      let t = record s { place = dropped } in
      let inv = All-get (SubInv k r.log r.notify r.shut) i t r.readers h.each at in
      finish-Inv k i lagged t (record s { place = idle }) r at
        (place-SubInv k t idle r inv tt (λ _. tt) tt) refl refl (λ _. (inv.stands, tt))
        (one-le (is_lagged s.err)) (omega arith) h
  read-Inv k i s ended r small at h =
      let t = record s { place = ended } in
      let inv = All-get (SubInv k r.log r.notify r.shut) i t r.readers h.each at in
      finish-Inv k i closed t (record s { place = idle }) r at
        (place-SubInv k t idle r inv tt (λ _. tt) tt) refl refl (λ e. absurd (cc)) (omega arith)
        (omega arith) h
  read-Inv k i s (parked g) r small at h =
      let t = record s { place = parked g } in
      let inv = All-get (SubInv k r.log r.notify r.shut) i t r.readers h.each at in
      if_rule (λ q. Inv k (record r { readers = update i (record s { place = q }) r.readers }))
        (r.fired g || failed s.err)
        (λ _.
          set_sub-Inv k i r.waiters r.subs r.drops t (record s { place = woken }) r at
            (place-SubInv k t woken r inv tt (λ e. absurd (inv.overrun e).1) inv.asked) refl refl
            (omega arith) h)
        (λ _. set_sub-Inv k i r.waiters r.subs r.drops t t r at inv refl refl (omega arith) h)
  read-Inv k i s woken r small at h =
      let t = record s { place = woken } in
      let inv = All-get (SubInv k r.log r.notify r.shut) i t r.readers h.each at in
      let b = count-update is_waiting i t (record s { place = top }) r.readers at in
      set_sub-Inv k i (r.waiters - 1) r.subs r.drops t (record s { place = top }) r at
        (place-SubInv k t top r inv tt (λ _. tt) inv.asked) (omega (arith, h.waiting)) refl
        (omega arith) h

  pub receive-Inv :
      (k i n : ℕ) (s : RingSub A) (p : Place) (r : Ring A)
      → get_elem? r.readers i ≡ some (record s { place = p })
      → Inv k r
      → Inv k (receive i n (record s { place = p }) p r)
  unfolding receive
  receive-Inv k i n s idle r at h =
      let t = record s { place = idle } in
      let inv = All-get (SubInv k r.log r.notify r.shut) i t r.readers h.each at in
      if_rule (Inv k) (eqb n 0) (λ _. h)
        (λ some_room.
          set_sub-Inv k i r.waiters r.subs r.drops t (record s { room = n; place = top }) r at
            (record {
              behind = inv.behind;
              begun = inv.begun;
              received = inv.received;
              overrun = λ e. ((inv.overrun e).0, tt);
              stands = tt;
              asked = ground arith;
            })
            refl refl (omega arith) h)
  receive-Inv k i n s p r at h = h

  -- A drop that is on its way is counted already.
  closed-overrun :
      (s : RingSub A) (p : Place)
      → one (is_overrun (record s { place = p; err = some closed }))
        ≤ one (is_overrun (record s { place = p }))
  closed-overrun s dropped = omega arith
  closed-overrun s p = omega arith

  -- `Close` of a subscription.
  pub leave-Inv :
      (k i : ℕ) (s : RingSub A) (r : Ring A)
      → get_elem? r.readers i ≡ some s
      → Inv k r
      → Inv k (finish i closed s r)
  leave-Inv k i s r at h =
      finish-Inv k i closed s s r at
        (All-get (SubInv k r.log r.notify r.shut) i s r.readers h.each at) refl refl
        (λ e. absurd (cc)) (omega arith) (closed-overrun s s.place) h
