-- ===== src/Broadcast/SeqRing/Invariant/Writing.antt =====
-- The moves of the writer keep the invariant.
use Prim.Native.Nat.{bit_and}
use ws_chat.Base.{
  ℕ, suc, ◌+◌, ◌%◌, ◌^◌, ◌<◌, ◌≡◌, refl, ap, ◌∙◌, List, [], ◌∷◌, ◌++◌, length, arith, length-append,
  get_elem?-append_lt, get_elem?-append_last, true, Bool, ltb, eqb, if◌then◌else◌, if_rule, dec_lt,
  inl, inr, Bool-cases,
}
use ws_chat.Base.Arith.{pow2-pos}
use ws_chat.Base.Mask.{bit_and-mask}
use ws_chat.Broadcast.SeqRing.{
  System, u64, Writer, free, begun, stored, counting, swapping, closing, begin_broadcast,
  begin_close, write_step, lock_for,
}
use ws_chat.Broadcast.SeqRing.Invariant.Defs.{Counts, written, WriterInv}
use ws_chat.Broadcast.Slots.{slot_ne}

module _ {ℓ} {A : Type ℓ} where
  slot : (k : ℕ) (s : System A) → WriterInv k s → bit_and s.published s.mask ≡ s.published % 2 ^ k
  slot k s w = ap (bit_and s.published) w.masks ∙ bit_and-mask s.published k

  -- The store to the slot of the message that has begun.
  store-WriterInv :
      (k : ℕ) (s : System A) (m : A)
      → s.writer ≡ begun m
      → WriterInv k s
      → WriterInv k (write_step s (begun m))
  unfolding write_step
  store-WriterInv k s m e w = record {
    masks = w.masks;
    begins = w.begins;
    counts = ground arith;
    slots = λ j h near. elim (dec_lt j s.published) [
      | yes old ↦ ground (arith, slot k s w, slot_ne j s.published (2 ^ k) (pow2-pos k), w.slots j)
      | no new ↦
          let same : j ≡ s.published = ground (arith, w.counts) in
          rw same (ground (arith, slot k s w, w.counts))
    ];
    filled = λ j h. elim (dec_lt j s.published) [
      | yes old ↦ elim (Bool-cases (eqb (bit_and s.published s.mask) (j % 2 ^ k))) [
        | inl hit ↦ (m, ground (arith, hit))
        | inr miss ↦ let f = w.filled j (ground arith) in (f.0, ground (arith, f.1, miss))
      ]
      | no new ↦
          let same : j ≡ s.published = ground (arith, w.counts) in
          (m, rw same (ground (arith, slot k s w)))
    ];
  }

  begin-WriterInv :
      (k : ℕ) (s : System A) (m : A)
      → s.writer ≡ free
      → suc (length s.log) < u64
      → WriterInv k s
      → WriterInv k
          (record s { begin = (s.published + 1) % u64; log = s.log ++ m ∷ []; writer = begun m })
  begin-WriterInv k s m e room w = record {
    masks = w.masks;
    begins = ground (arith, w.counts, length-append s.log (m ∷ []));
    counts = ground (arith, w.counts, length-append s.log (m ∷ []), get_elem?-append_last s.log m);
    slots = λ j h near. ground (
      arith,
      w.counts,
      length-append s.log (m ∷ []),
      get_elem?-append_lt s.log (m ∷ []) j,
      w.slots j,
    );
    filled = λ j h. w.filled j (ground (arith, w.counts));
  }

  publish-WriterInv :
      (k : ℕ) (s : System A) (m : A)
      → s.writer ≡ stored m
      → length s.log < u64
      → WriterInv k s
      → WriterInv k (write_step s (stored m))
  unfolding write_step
  publish-WriterInv k s m e room w = record {
    masks = w.masks;
    begins = w.begins;
    counts = ground (arith, w.counts);
    slots = λ j h near. w.slots j (ground arith) near;
    filled = λ j h. w.filled j (ground arith);
  }

  -- Between messages the writer only moves.
  abbrev Resting : Writer A → Type 0
  Resting (begun m) = ⊥
  Resting (stored m) = ⊥
  Resting w = Unit

  Counts-Resting :
      (w : Writer A) (p : ℕ) (log : List A)
      → Resting w
      → Counts w p log
      → (p ≡ length log) × (written w p log ≡ length log)
  Counts-Resting (begun m) p log r c = absurd r
  Counts-Resting (stored m) p log r c = absurd r
  Counts-Resting free p log r c = (c.0, refl)
  Counts-Resting w p log r c = (c.0, refl)

  Resting-Counts :
      (w : Writer A) (p : ℕ) (log : List A)
      → Resting w
      → p ≡ length log
      → Counts w p log × (written w p log ≡ length log)
  Resting-Counts (begun m) p log r e = absurd r
  Resting-Counts (stored m) p log r e = absurd r
  Resting-Counts free p log r e = ((e, tt), refl)
  Resting-Counts w p log r e = ((e, tt), refl)

  rest-WriterInv :
      (k : ℕ) (s : System A) (w : Writer A) (n : ℕ) (shut : Bool)
      → Resting s.writer
      → Resting w
      → WriterInv k s
      → WriterInv k (record s { writer = w; notify = n; shut = shut })
  rest-WriterInv k s w n shut a b i =
      let old = Counts-Resting s.writer s.published s.log a i.counts in
      let new = Resting-Counts w s.published s.log b old.0 in
      record {
        masks = i.masks;
        begins = i.begins;
        counts = new.0;
        slots = λ j h near. i.slots j (omega (arith, old.1, new.1)) near;
        filled = λ j h. i.filled j (omega (arith, old.1, new.1));
      }

  pub write-WriterInv :
      (k : ℕ) (s : System A) (w : Writer A)
      → s.writer ≡ w
      → length s.log < u64
      → WriterInv k s
      → WriterInv k (write_step s w)
  unfolding write_step
  write-WriterInv k s free e room i = i
  write-WriterInv k s (begun m) e room i = store-WriterInv k s m e i
  write-WriterInv k s (stored m) e room i = publish-WriterInv k s m e room i
  write-WriterInv k s counting e room i =
      rest-WriterInv k s (if ltb 0 s.waiters then swapping else free) s.notify s.shut (rw e tt)
        (if_rule Resting (ltb 0 s.waiters) (λ _. tt) (λ _. tt)) i
  write-WriterInv k s swapping e room i =
      rest-WriterInv k s free (s.notify + 1) s.shut (rw e tt) tt i
  write-WriterInv k s closing e room i =
      rest-WriterInv k s free (s.notify + 1) s.shut (rw e tt) tt i

  pub lock-WriterInv :
      (k : ℕ) (s t : System A) (w : Writer A)
      → (w ≡ free → WriterInv k t)
      → WriterInv k s
      → WriterInv k (lock_for s w t)
  unfolding lock_for
  lock-WriterInv k s t free h i = h refl
  lock-WriterInv k s t (begun m) h i = i
  lock-WriterInv k s t (stored m) h i = i
  lock-WriterInv k s t w h i = i

  pub begin_broadcast-WriterInv :
      (k : ℕ) (s : System A) (m : A)
      → s.writer ≡ free
      → length (begin_broadcast s m).log < u64
      → WriterInv k s
      → WriterInv k (begin_broadcast s m)
  unfolding begin_broadcast
  begin_broadcast-WriterInv k s m e room i =
      if_rule (WriterInv k) s.shut (λ _. i)
        λ up. begin-WriterInv k s m e (ground (arith, room, up, length-append s.log (m ∷ []))) i

  pub begin_close-WriterInv :
      (k : ℕ) (s : System A) → s.writer ≡ free → WriterInv k s → WriterInv k (begin_close s)
  unfolding begin_close
  begin_close-WriterInv k s e i =
      if_rule (WriterInv k) s.shut (λ _. i)
        (λ _. rest-WriterInv k s closing s.notify true (rw e tt) tt i)
