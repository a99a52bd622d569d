-- ===== src/Broadcast/MutexRing/Invariant/Writers.antt =====
-- ring.go: the sections under the write lock keep the invariant.
use ws_chat.Base.{
  ℕ, ◌+◌, ◌-◌, ◌≤◌, ◌<◌, ◌≡◌, refl, sym, ap, subst, ◌∙◌, inl, inr, List, [], ◌∷◌, ◌++◌, Bool, true,
  false, not, if◌then◌else◌, ◌≢◌, append-nil, Option, some, none, length, length-append, one,
  count-append, arith, ltb, if_rule, All-snoc, All-change,
}
use ws_chat.Broadcast.Errors.{Err, closed, lagged}
use ws_chat.Broadcast.Segments.{segment-append, segment-zero}
use ws_chat.Broadcast.SeqRing.{u64, failed}
use ws_chat.Broadcast.MutexRing.{
  Place, idle, top, locking, lapped, dropped, ended, woken, parked, RingSub, Ring, new_ring,
  new_sub, broadcast, close, subscribe,
}
use ws_chat.Broadcast.MutexRing.Copying.{Stored, new_ring-Stored, broadcast-Stored}
use ws_chat.Broadcast.MutexRing.Invariant.Defs.{
  Stands, SubInv, is_waiting, is_live, is_overrun, is_lagged, Inv,
}

not_lagged : (e : Option Err) → e ≢ some lagged → is_lagged e ≡ false
not_lagged none ne = refl
not_lagged (some closed) ne = refl
not_lagged (some lagged) ne = absurd (ne refl)

module _ {ℓ} {A : Type ℓ} where
  pub new_ring-Inv : (nil : A) (k : ℕ) → Inv k (new_ring nil k)
  unfolding new_ring
  new_ring-Inv nil k = record {
    stored = new_ring-Stored nil k;
    each = tt;
    waiting = refl;
    live = refl;
    overruns = omega arith;
  }

  -- A longer log and a later channel, which is another one for a subscription that waits.
  later-Stands :
      (k n m g h : ℕ) (b c : Bool) (s : RingSub A) (p : Place)
      → n ≤ m
      → g ≤ h
      → (b ≡ true → c ≡ true)
      → (one (is_waiting (record s { place = p })) ≡ 1 → g < h)
      → Stands k n g b s.pos p
      → Stands k m h c s.pos p
  later-Stands k n m g h b c s idle le le' sh next st = tt
  later-Stands k n m g h b c s top le le' sh next st = tt
  later-Stands k n m g h b c s locking le le' sh next st = tt
  later-Stands k n m g h b c s lapped le le' sh next st = omega arith
  later-Stands k n m g h b c s dropped le le' sh next st = omega arith
  later-Stands k n m g h b c s ended le le' sh next st = sh st
  later-Stands k n m g h b c s woken le le' sh next st = tt
  later-Stands k n m g h b c s (parked q) le le' sh next (inl old) = inl (omega arith)
  later-Stands k n m g h b c s (parked q) le le' sh next (inr now) =
      inl (omega (arith, next refl, now.0))

  -- The subscriptions after a message, and after the channel is swapped.
  later-SubInv :
      (k g h : ℕ) (b c : Bool) (log more : List A) (s : RingSub A)
      → g ≤ h
      → (b ≡ true → c ≡ true)
      → (one (is_waiting s) ≡ 1 → g < h)
      → SubInv k log g b s
      → SubInv k (log ++ more) h c s
  later-SubInv k g h b c log more s le sh next i = record {
    behind = omega (arith, i.behind, length-append log more);
    begun = i.begun;
    received =
        i.received
        ∙ sym
            (segment-append s.first (s.pos - s.first) log more (omega (arith, i.behind, i.begun)));
    overrun = λ e. (omega (arith, (i.overrun e).0, length-append log more), (i.overrun e).1);
    stands =
        later-Stands k (length log) (length (log ++ more)) g h b c s s.place
          (omega (arith, length-append log more)) le sh next i.stands;
    asked = i.asked;
  }

  pub broadcast-Inv :
      (k : ℕ) (m : A) (r : Ring A)
      → length (broadcast m r).log < u64
      → Inv k r
      → Inv k (broadcast m r)
  unfolding broadcast
  broadcast-Inv k m r small i =
      let g = if ltb 0 r.waiters then r.notify + 1 else r.notify in
      if_rule (λ (x : Ring A). Stored k x → Inv k x) r.shut (λ _ _. i)
        (λ _ st. record {
          stored = st;
          each =
              All-change (SubInv k r.log r.notify r.shut) (SubInv k (r.log ++ m ∷ []) g r.shut)
                is_waiting r.waiters r.readers (omega (arith, i.waiting))
                (λ s le.
                  later-SubInv k r.notify g r.shut r.shut r.log (m ∷ []) s (ground arith) (λ e. e)
                    (λ w. ground arith))
                i.each;
          waiting = i.waiting;
          live = i.live;
          overruns = i.overruns;
        })
        (broadcast-Stored k m r small i.stored)

  pub close-Inv : (k : ℕ) (r : Ring A) → Inv k r → Inv k (close r)
  unfolding close
  close-Inv k r i =
      if_rule (Inv k) r.shut (λ _. i)
        (λ _. record {
          stored = record {
            sized = i.stored.sized;
            masks = i.stored.masks;
            counts = i.stored.counts;
            slots = i.stored.slots;
          };
          each =
              All-change (SubInv k r.log r.notify r.shut) (SubInv k r.log (r.notify + 1) true)
                is_waiting r.waiters r.readers (omega (arith, i.waiting))
                (λ s le x.
                  subst (λ l. SubInv k l (r.notify + 1) true s) (append-nil r.log)
                    (later-SubInv k r.notify (r.notify + 1) r.shut true r.log [] s (omega arith)
                      (λ _. refl) (λ _. omega arith) x))
                i.each;
          waiting = i.waiting;
          live = i.live;
          overruns = i.overruns;
        })

  -- One more subscription, which is not in `Recv`.
  new_sub-Inv :
      (k p u : ℕ) (e : Option Err) (r : Ring A)
      → p ≤ length r.log
      → e ≢ some lagged
      → u ≡ r.subs + one (not (failed e))
      → Inv k r
      → Inv k (record r { subs = u; readers = r.readers ++ new_sub p e ∷ [] })
  new_sub-Inv k p u e r le ne eu i =
      let s : RingSub A = new_sub p e in
      let nothing : p - p ≡ 0 = omega arith in
      let calm : is_lagged e ≡ false = not_lagged e ne in
      record {
        stored = record {
          sized = i.stored.sized;
          masks = i.stored.masks;
          counts = i.stored.counts;
          slots = i.stored.slots;
        };
        each = All-snoc (SubInv k r.log r.notify r.shut) r.readers s i.each (record {
          behind = le;
          begun = omega arith;
          received = rw nothing (sym (segment-zero p r.log));
          overrun = λ x. absurd (ne x);
          stands = tt;
          asked = tt;
        });
        waiting = omega (arith, i.waiting, count-append is_waiting r.readers (s ∷ []));
        live = omega (arith, i.live, count-append is_live r.readers (s ∷ []));
        overruns =
            omega (arith, i.overruns, count-append is_overrun r.readers (s ∷ []), ap one calm);
      }

  pub subscribe-Inv : (k : ℕ) (r : Ring A) → Inv k r → Inv k (subscribe r)
  unfolding subscribe
  subscribe-Inv k r i =
      if_rule (Inv k) r.shut
        (λ _.
          new_sub-Inv k 0 (r.subs + 1 - 1) (some closed) r (omega arith) (λ e. absurd (cc))
            (omega arith) i)
        (λ _.
          new_sub-Inv k r.seq (r.subs + 1) none r (omega (arith, i.stored.counts))
            (λ e. absurd (cc)) refl i)
