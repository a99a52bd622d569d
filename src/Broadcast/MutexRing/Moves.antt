-- ===== src/Broadcast/MutexRing/Moves.antt =====
-- ring.go: every move keeps the invariant of the ring, and only adds to what was broadcast.
use ws_chat.Base.{
  ℕ, ◌≤◌, ◌<◌, ◌≡◌, refl, List, [], ◌∷◌, Bool, some, Option, none, length, length-append, get_elem?,
  arith, ltb, if_rule,
}
use ws_chat.Broadcast.Errors.{Err, closed, lagged}
use ws_chat.Broadcast.SeqRing.{u64, failed}
use ws_chat.Broadcast.MutexRing.{
  Place, idle, top, locking, lapped, dropped, ended, woken, parked, RingSub, Ring, RingMove,
  broadcasts, closes, subscribes, fires, reads, leaves, receives, broadcast, close, subscribe,
  finish, batch, copy, read_locked, read, receive, on, move, moves,
}
use ws_chat.Broadcast.MutexRing.Invariant.{
  Inv, broadcast-Inv, close-Inv, subscribe-Inv, read-Inv, receive-Inv, leave-Inv,
}

module _ {ℓ} {A : Type ℓ} where
  -- What one subscription does leaves the log alone.
  finish-log : (i : ℕ) (e : Err) (s : RingSub A) (r : Ring A) → (finish i e s r).log ≡ r.log
  unfolding finish
  finish-log i e s r =
      if_rule (λ (x : Ring A). x.log ≡ r.log) (failed s.err) (λ _. refl) (λ _. refl)

  batch-log : (i : ℕ) (s : RingSub A) (r : Ring A) (c : List A × ℕ) → (batch i s r c).log ≡ r.log
  unfolding batch
  batch-log i s r (x ∷ xs, p) = refl
  batch-log i s r ([], p) = if_rule (λ (x : Ring A). x.log ≡ r.log) r.shut (λ _. refl) (λ _. refl)

  read-log : (i : ℕ) (s : RingSub A) (p : Place) (r : Ring A) → (read i s p r).log ≡ r.log
  unfolding read read_locked
  read-log i s locking r =
      if_rule (λ (x : Ring A). x.log ≡ r.log) (ltb r.capacity _) (λ _. refl)
        (λ _. batch-log i s r (copy r s.room s.pos))
  read-log i s dropped r = finish-log i lagged (record s { place = idle }) r
  read-log i s ended r = finish-log i closed (record s { place = idle }) r
  read-log i s idle r = refl
  read-log i s top r = refl
  read-log i s lapped r = refl
  read-log i s (parked g) r = refl
  read-log i s woken r = refl

  receive-log : (i n : ℕ) (s : RingSub A) (p : Place) (r : Ring A) → (receive i n s p r).log ≡ r.log
  unfolding receive
  receive-log i n s idle r = if_rule (λ (x : Ring A). x.log ≡ r.log) _ (λ _. refl) (λ _. refl)
  receive-log i n s p r = refl

  -- A move of a subscription, if there is one.
  on-log :
      (o : Option (RingSub A)) (f : RingSub A → Ring A) (r : Ring A)
      → ((s : RingSub A) → (f s).log ≡ r.log)
      → (on o f r).log ≡ r.log
  on-log none f r h = refl
  on-log (some s) f r h = h s

  on-Inv :
      (k : ℕ) (o : Option (RingSub A)) (f : RingSub A → Ring A) (r : Ring A)
      → ((s : RingSub A) → o ≡ some s → Inv k (f s))
      → Inv k r
      → Inv k (on o f r)
  on-Inv k none f r h i = i
  on-Inv k (some s) f r h i = h s refl

  move-grows : (r : Ring A) (m : RingMove A) → length r.log ≤ length (move r m).log
  unfolding move broadcast close subscribe
  move-grows r (broadcasts m) =
      if_rule (λ (x : Ring A). length r.log ≤ length x.log) r.shut (λ _. omega arith)
        (λ _. omega (arith, length-append r.log (m ∷ [])))
  move-grows r closes =
      if_rule (λ (x : Ring A). length r.log ≤ length x.log) r.shut (λ _. omega arith)
        (λ _. omega arith)
  move-grows r subscribes =
      if_rule (λ (x : Ring A). length r.log ≤ length x.log) r.shut (λ _. omega arith)
        (λ _. omega arith)
  move-grows r (fires g) =
      if_rule (λ (x : Ring A). length r.log ≤ length x.log) (ltb g r.notify) (λ _. omega arith)
        (λ _. omega arith)
  move-grows r (reads i) =
      rw (on-log (get_elem? r.readers i) (λ s. read i s s.place r) r (λ s. read-log i s s.place r))
        (omega arith)
  move-grows r (leaves i) =
      rw
        (on-log (get_elem? r.readers i) (λ s. finish i closed s r) r (λ s. finish-log i closed s r))
        (omega arith)
  move-grows r (receives i n) =
      rw
        (on-log (get_elem? r.readers i) (λ s. receive i n s s.place r) r
          (λ s. receive-log i n s s.place r))
        (omega arith)

  moves-grows : (ms : List (RingMove A)) (r : Ring A) → length r.log ≤ length (moves r ms).log
  unfolding moves
  moves-grows [] r = omega arith
  moves-grows (m ∷ ms) r = omega (arith, move-grows r m, moves-grows ms (move r m))

  fires-Inv : (k : ℕ) (f : ℕ → Bool) (r : Ring A) → Inv k r → Inv k (record r { fired = f })
  fires-Inv k f r i = record {
    stored = record {
      sized = i.stored.sized;
      masks = i.stored.masks;
      counts = i.stored.counts;
      slots = i.stored.slots;
    };
    each = i.each;
    waiting = i.waiting;
    live = i.live;
    overruns = i.overruns;
  }

  move-Inv :
      (k : ℕ) (m : RingMove A) (r : Ring A)
      → length (move r m).log < u64
      → Inv k r
      → Inv k (move r m)
  unfolding move
  move-Inv k (broadcasts m) r small i = broadcast-Inv k m r small i
  move-Inv k closes r small i = close-Inv k r i
  move-Inv k subscribes r small i = subscribe-Inv k r i
  move-Inv k (fires g) r small i =
      if_rule (Inv k) (ltb g r.notify) (λ _. fires-Inv k _ r i) (λ _. i)
  move-Inv k (reads j) r small i =
      on-Inv k (get_elem? r.readers j) _ r
        (λ s at. read-Inv k j s s.place r (omega (arith, move-grows r (reads j))) at i) i
  move-Inv k (leaves j) r small i =
      on-Inv k (get_elem? r.readers j) _ r (λ s at. leave-Inv k j s r at i) i
  move-Inv k (receives j n) r small i =
      on-Inv k (get_elem? r.readers j) _ r (λ s at. receive-Inv k j n s s.place r at i) i

  pub moves-Inv :
      (k : ℕ) (ms : List (RingMove A)) (r : Ring A)
      → length (moves r ms).log < u64
      → Inv k r
      → Inv k (moves r ms)
  unfolding moves
  moves-Inv k [] r small i = i
  moves-Inv k (m ∷ ms) r small i =
      moves-Inv k ms (move r m) small (move-Inv k m r (omega (arith, moves-grows ms (move r m))) i)
