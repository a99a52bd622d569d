-- ===== src/Broadcast/SeqRing/Moves.antt =====
-- What single moves leave of the invariant: the writer's part under the subscription's moves, and
-- the subscription's part under the writer's.
use ws_chat.Base.{
  ℕ, ◌+◌, ◌≤◌, ◌<◌, ◌≡◌, refl, subst, List, ◌++◌, Option, none, some, length, arith, length-append,
  Bool, ltb, eqb, if_rule, ◌&&◌,
}
use ws_chat.Broadcast.Errors.{Err, lagged, closed}
use ws_chat.Broadcast.SeqRing.{
  System, u64, Writer, free, begun, stored, Reader, loading, empty, copying, write_step, lock_for,
  finish_once, finish, copy_slot, validate, copy_step, lag, load_published, sub64, read_step,
}
use ws_chat.Broadcast.SeqRing.Invariant.{
  Counts, WriterInv, ReaderInv, Received-grow, Received-publish,
}

module _ {ℓ} {A : Type ℓ} where
  -- The invariant of the writer does not speak of the subscriptions.
  pub keep_ring :
      (k : ℕ) (s : System A) (reader : Reader A) (pos : ℕ) (err : Option Err)
      (room subs drops waiters others first : ℕ) (delivered : List A) (fired : ℕ → Bool)
      → WriterInv k s
      → WriterInv k (record s {
        reader = reader;
        pos = pos;
        err = err;
        room = room;
        subs = subs;
        drops = drops;
        waiters = waiters;
        others = others;
        first = first;
        delivered = delivered;
        fired = fired;
      })
  keep_ring k s reader pos err room subs drops waiters others first delivered fired w = record {
    masks = w.masks;
    begins = w.begins;
    counts = w.counts;
    slots = w.slots;
    filled = w.filled;
  }

  pub finish_once-WriterInv :
      (k : ℕ) (s : System A) (o : Option Err) (e : Err)
      → WriterInv k s
      → WriterInv k (finish_once o s e)
  unfolding finish_once
  finish_once-WriterInv k s none e w = keep_ring k s _ _ _ _ _ _ _ _ _ _ _ w
  finish_once-WriterInv k s (some _) e w = w

  pub finish-WriterInv : (k : ℕ) (s : System A) (e : Err) → WriterInv k s → WriterInv k (finish s e)
  unfolding finish
  finish-WriterInv k s e w = finish_once-WriterInv k s s.err e w

  pub copy_slot-WriterInv :
      (k : ℕ) (s : System A) (end start : ℕ) (xs : List A) (o : Option A)
      → WriterInv k s
      → WriterInv k (copy_slot s end start xs o)
  unfolding copy_slot
  copy_slot-WriterInv k s end start xs none w = keep_ring k s _ _ _ _ _ _ _ _ _ _ _ w
  copy_slot-WriterInv k s end start xs (some x) w = keep_ring k s _ _ _ _ _ _ _ _ _ _ _ w

  pub read-WriterInv :
      (k : ℕ) (s : System A) (r : Reader A) → WriterInv k s → WriterInv k (read_step s r)
  unfolding read_step load_published lag copy_step validate
  read-WriterInv k s loading w =
      if_rule (WriterInv k) (eqb s.published s.pos) (λ _. keep_ring k s _ _ _ _ _ _ _ _ _ _ _ w)
        λ _.
          if_rule (WriterInv k) (ltb (s.mask + 1) (sub64 s.published s.pos))
            (λ _. finish-WriterInv k _ lagged (keep_ring k s _ _ _ _ _ _ _ _ _ _ _ w))
            (λ _. keep_ring k s _ _ _ _ _ _ _ _ _ _ _ w)
  read-WriterInv k s empty w =
      if_rule (WriterInv k) s.shut
        (λ _. finish-WriterInv k _ closed (keep_ring k s _ _ _ _ _ _ _ _ _ _ _ w))
        (λ _. keep_ring k s _ _ _ _ _ _ _ _ _ _ _ w)
  read-WriterInv k s (copying end start xs) w =
      if_rule (WriterInv k) (ltb s.pos end && ltb (length xs) s.room)
        (λ _. copy_slot-WriterInv k s end start xs _ w)
        λ _.
          if_rule (WriterInv k) (ltb (s.mask + 1) (sub64 s.begin start))
            (λ _. keep_ring k s _ _ _ _ _ _ _ _ _ _ _ w)
            (λ _. keep_ring k s _ _ _ _ _ _ _ _ _ _ _ w)
  read-WriterInv k s r w = keep_ring k s _ _ _ _ _ _ _ _ _ _ _ w

  -- The invariant of the subscription while the writer moves: it publishes more, or begins a message.
  pub publish_ring :
      (k : ℕ) (s : System A) (buf : ℕ → Option A) (shut : Bool) (begin published notify : ℕ)
      (writer : Writer A) (waiters others : ℕ) (fired : ℕ → Bool)
      → s.published ≤ published
      → ReaderInv k s
      → ReaderInv k (record s {
        buf = buf;
        shut = shut;
        begin = begin;
        published = published;
        notify = notify;
        writer = writer;
        waiters = waiters;
        others = others;
        fired = fired;
      })
  publish_ring k s buf shut begin published notify writer waiters others fired up i = record {
    behind = omega (arith, i.behind);
    received =
        Received-publish k s.published published s.pos s.first s.delivered s.log s.reader up
          i.received;
    lapped = i.lapped;
  }

  pub begin_ring :
      (k : ℕ) (s : System A) (begin : ℕ) (writer : Writer A) (more : List A)
      → s.published ≤ length s.log
      → ReaderInv k s
      → ReaderInv k (record s { begin = begin; writer = writer; log = s.log ++ more })
  begin_ring k s begin writer more le i = record {
    behind = i.behind;
    received =
        Received-grow k s.published s.published s.pos s.first s.delivered s.log more s.reader
          (omega arith) i.behind le i.received;
    lapped = λ e. (omega (arith, (i.lapped e).0, length-append s.log more), (i.lapped e).1);
  }

  pub write-ReaderInv :
      (k : ℕ) (s : System A) (w : Writer A)
      → s.writer ≡ w
      → length s.log < u64
      → WriterInv k s
      → ReaderInv k s
      → ReaderInv k (write_step s w)
  unfolding write_step
  write-ReaderInv k s free e room w i = i
  write-ReaderInv k s (stored m) e room w i =
      let counts = subst (λ v. Counts v s.published s.log) e w.counts in
      publish_ring k s _ _ _ _ _ _ _ _ _ (omega (arith, room)) i
  write-ReaderInv k s v e room w i = publish_ring k s _ _ _ _ _ _ _ _ _ (omega arith) i

  -- Only a free lock is taken.
  pub lock_rule {κ} :
      (P : System A → Type κ) (s t : System A) (w : Writer A)
      → (w ≡ free → P t)
      → P s
      → P (lock_for s w t)
  unfolding lock_for
  lock_rule P s t free h i = h refl
  lock_rule P s t (begun m) h i = i
  lock_rule P s t w h i = i
