-- ===== src/Broadcast/MutexRing/Guarantees.antt =====
-- ring.go: what holds in every interleaving of broadcasts, subscriptions and a close.
use ws_chat.Base.{
  ℕ, zero, suc, ◌+◌, ◌-◌, ◌^◌, ◌≤◌, ◌<◌, ◌≡◌, refl, sym, ap, subst, ◌∙◌, List, [], ◌∷◌, ◌++◌, Bool,
  true, false, some, Option, none, length, get_elem?, update, take, drop, All-get, count, arith,
  ltb, if_rule, ◌⊎◌, if◌then◌else◌,
}
use ws_chat.Broadcast.Errors.{lagged}
use ws_chat.Broadcast.SeqRing.{u64, sub64}
use ws_chat.Broadcast.SeqRing.Guarantees.{IsStretch}
use ws_chat.Broadcast.MutexRing.{
  idle, locking, lapped, ended, parked, RingSub, Ring, RingMove, reads, new_ring, len, batch, copy,
  read_locked, read, on, move, moves,
}
use ws_chat.Broadcast.MutexRing.Copying.{copy-take, copy-pos}
use ws_chat.Broadcast.MutexRing.Invariant.{
  Stands, SubInv, is_waiting, is_live, is_overrun, Inv, new_ring-Inv,
}
use ws_chat.Broadcast.MutexRing.Moves.{moves-Inv}

module _ {ℓ} {A : Type ℓ} where
  -- What one reading comes to: `n` slots, `g` in `notify`.
  abbrev pub taken : ℕ → Bool → RingSub A → List A → RingSub A
  taken g shut s (x ∷ xs) = record s {
    pos = s.pos + length (x ∷ xs);
    place = idle;
    delivered = s.delivered ++ x ∷ xs;
  }
  taken g shut s [] = record s { place = if shut then ended else parked g }

  abbrev pub reading : ℕ → List A → ℕ → Bool → RingSub A → RingSub A
  reading n log g shut s =
      if ltb n (length log - s.pos)
      then record s { place = lapped }
      else taken g shut s (take s.room (drop s.pos log))

  reached-Inv :
      (nil : A) (k : ℕ) (ms : List (RingMove A))
      → length (moves (new_ring nil k) ms).log < u64
      → Inv k (moves (new_ring nil k) ms)
  reached-Inv nil k ms small = moves-Inv k ms (new_ring nil k) small (new_ring-Inv nil k)

  get-update :
      (i : ℕ) (x y : RingSub A) (xs : List (RingSub A))
      → get_elem? xs i ≡ some x
      → get_elem? (update i y xs) i ≡ some y
  get-update i x y [] h = absurd cc
  get-update zero x y (z ∷ xs) h = refl
  get-update (suc i) x y (z ∷ xs) h = get-update i x y xs h

  batch-taken :
      (i : ℕ) (s : RingSub A) (r : Ring A) (c : List A × ℕ)
      → c.1 ≡ s.pos + length c.0
      → get_elem? r.readers i ≡ some s
      → get_elem? (batch i s r c).readers i ≡ some (taken r.notify r.shut s c.0)
  unfolding batch
  batch-taken i s r (x ∷ xs, p) e at = rw e (get-update i s _ r.readers at)
  batch-taken i s r ([], p) e at =
      if_rule (λ (b : Ring A). get_elem? b.readers i ≡ some (taken r.notify r.shut s [])) r.shut
        (λ shut. rw shut (get-update i s _ r.readers at))
        (λ still. rw still (get-update i s _ r.readers at))

  read_locked-reading :
      (k i : ℕ) (s : RingSub A) (r : Ring A)
      → length r.log < u64
      → Inv k r
      → get_elem? r.readers i ≡ some s
      → get_elem? (read_locked i s r).readers i ≡ some (reading (2 ^ k) r.log r.notify r.shut s)
  unfolding read_locked
  read_locked-reading k i s r small h at =
      let inv = All-get (SubInv k r.log r.notify r.shut) i s r.readers h.each at in
      let gap : sub64 r.seq s.pos ≡ length r.log - s.pos =
        omega (arith, h.stored.counts, inv.behind) in
      let test : ltb r.capacity (sub64 r.seq s.pos) ≡ ltb (2 ^ k) (length r.log - s.pos) =
        ap (λ c. ltb c (sub64 r.seq s.pos)) h.stored.sized ∙ ap (ltb (2 ^ k)) gap in
      if_rule
        (λ (b : Ring A). get_elem? b.readers i ≡ some (reading (2 ^ k) r.log r.notify r.shut s))
        (ltb r.capacity (sub64 r.seq s.pos))
        (λ over.
          let o : ltb (2 ^ k) (length r.log - s.pos) ≡ true = sym test ∙ over in
          rw o (get-update i s _ r.readers at))
        (λ near.
          let n : ltb (2 ^ k) (length r.log - s.pos) ≡ false = sym test ∙ near in
          let p = copy-pos k r s.room s.pos small inv.behind h.stored in
          let c = copy-take k r s.room s.pos small inv.behind (ground arith) h.stored in
          rw (n, ← c) (batch-taken i s r (copy r s.room s.pos) p.0 at))

  on-some :
      (o : Option (RingSub A)) (s : RingSub A) (f : RingSub A → Ring A) (r : Ring A)
      → o ≡ some s
      → on o f r ≡ f s
  on-some none s f r e = absurd cc
  on-some (some t) s f r e = let same : t ≡ s = cc in ap f same

  move-read_locked :
      (i : ℕ) (s : RingSub A) (r : Ring A)
      → get_elem? r.readers i ≡ some s
      → s.place ≡ locking
      → move r (reads i) ≡ read_locked i s r
  unfolding move read
  move-read_locked i s r at e =
      on-some (get_elem? r.readers i) s (λ t. read i t t.place r) r at ∙ ap (λ p. read i s p r) e

  -- In every interleaving of fewer than `2 ^ 64` broadcasts with any number of subscriptions and a
  -- close: what `Recv` has returned to a subscription so far is an unbroken stretch of the messages,
  -- in their order, from the one that was next when it subscribed; and a subscription that was
  -- dropped with `ErrLagged` is more than the ring's `2 ^ k` slots behind.
  pub delivered-in_order :
      (nil : A) (k : ℕ) (ms : List (RingMove A)) (i : ℕ) (s : RingSub A)
      → length (moves (new_ring nil k) ms).log < u64
      → get_elem? (moves (new_ring nil k) ms).readers i ≡ some s
      → IsStretch s.first s.delivered (moves (new_ring nil k) ms).log
        × (s.err ≡ some lagged → s.pos + 2 ^ k < length (moves (new_ring nil k) ms).log)
  delivered-in_order nil k ms i s small at =
      let r = moves (new_ring nil k) ms in
      let inv =
        All-get (SubInv k r.log r.notify r.shut) i s r.readers (reached-Inv nil k ms small).each
          at in
      (
        (s.pos - s.first, omega (arith, inv.behind, inv.begun), inv.received),
        λ e. (inv.overrun e).0,
      )

  -- In every interleaving of fewer than `2 ^ 64` broadcasts with any number of subscriptions and a
  -- close: no wakeup is lost. The channel that a sleeping subscription waits for was swapped, so that
  -- it is closed or about to be, or there is nothing to wake up for: the subscription has read every
  -- message and the ring is not closed.
  pub parked-woken :
      (nil : A) (k : ℕ) (ms : List (RingMove A)) (i g : ℕ) (s : RingSub A)
      → length (moves (new_ring nil k) ms).log < u64
      → get_elem? (moves (new_ring nil k) ms).readers i ≡ some s
      → s.place ≡ parked g
      → (g < (moves (new_ring nil k) ms).notify)
        ⊎ ((g ≡ (moves (new_ring nil k) ms).notify)
            × (s.pos ≡ length (moves (new_ring nil k) ms).log)
            × ((moves (new_ring nil k) ms).shut ≡ false))
  parked-woken nil k ms i g s small at e =
      let r = moves (new_ring nil k) ms in
      let inv =
        All-get (SubInv k r.log r.notify r.shut) i s r.readers (reached-Inv nil k ms small).each
          at in
      subst (Stands k (length r.log) r.notify r.shut s.pos) e inv.stands

  -- In every interleaving of fewer than `2 ^ 64` broadcasts with any number of subscriptions and a
  -- close: `Len` is the number of subscriptions that are not finished, and none once the ring is
  -- closed; `waiters` is the number of those that wait; and `Drops` counts at least those that were
  -- dropped with `ErrLagged`.
  len-counts :
      (nil : A) (k : ℕ) (ms : List (RingMove A))
      → length (moves (new_ring nil k) ms).log < u64
      → (len (moves (new_ring nil k) ms) ≡ (
          if (moves (new_ring nil k) ms).shut
          then 0
          else count is_live (moves (new_ring nil k) ms).readers))
        × ((moves (new_ring nil k) ms).waiters
            ≡ count is_waiting (moves (new_ring nil k) ms).readers)
        × (count is_overrun (moves (new_ring nil k) ms).readers ≤ (moves (new_ring nil k) ms).drops)
  unfolding len
  len-counts nil k ms small =
      let r = moves (new_ring nil k) ms in
      let inv = reached-Inv nil k ms small in (rw inv.live refl, inv.waiting, inv.overruns)

  -- In every state that fewer than `2 ^ 64` broadcasts reach: the section of `Recv` under the read
  -- lock leaves the subscription as a reading of the plain list of messages says. More than `2 ^ k`
  -- messages behind it is lapped; otherwise it gets the next messages, as many as there are and as
  -- `dst` has room for; and if there is none it finds the ring closed or waits.
  pub reads-reading :
      (nil : A) (k : ℕ) (ms : List (RingMove A)) (i : ℕ) (s : RingSub A)
      → length (moves (new_ring nil k) ms).log < u64
      → get_elem? (moves (new_ring nil k) ms).readers i ≡ some s
      → s.place ≡ locking
      → get_elem? (move (moves (new_ring nil k) ms) (reads i)).readers i
        ≡ some (
            reading
              (2 ^ k)
              (moves (new_ring nil k) ms).log
              (moves (new_ring nil k) ms).notify
              (moves (new_ring nil k) ms).shut
              s)
  reads-reading nil k ms i s small at e =
      let r = moves (new_ring nil k) ms in
      ap (λ (b : Ring A). get_elem? b.readers i) (move-read_locked i s r at e)
      ∙ read_locked-reading k i s r small (reached-Inv nil k ms small) at
