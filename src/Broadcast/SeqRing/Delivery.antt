-- ===== src/Broadcast/SeqRing/Delivery.antt =====
-- What every run of the ring guarantees to a subscription.
use ws_chat.Base.{
  ℕ, ◌+◌, ◌-◌, ◌<◌, ◌≡◌, refl, sym, subst, ◌∙◌, List, [], ◌∷◌, some, length, arith, Bool, ltb, eqb,
  if_rule,
}
use ws_chat.Broadcast.Errors.{lagged, closed}
use ws_chat.Broadcast.Segments.{segment-zero}
use ws_chat.Broadcast.SeqRing.{
  System, u64, free, Reader, fresh, subscribing, idle, Move, broadcast, close, write, read,
  sub_close, subscribe, other_in, other_out, fire, recv, init, begin_broadcast, begin_close, finish,
  begin_subscribe, begin_recv, close_sub, step, run,
}
use ws_chat.Broadcast.SeqRing.Invariant.{
  Received, Quiet, ReaderInv, Inv, published-le, write-WriterInv, begin_broadcast-WriterInv,
  begin_close-WriterInv, finish-ReaderInv, read-ReaderInv,
}
use ws_chat.Broadcast.SeqRing.Moves.{
  lock_rule, keep_ring, finish-WriterInv, read-WriterInv, publish_ring, begin_ring, write-ReaderInv,
}
use ws_chat.Broadcast.SeqRing.Growth.{step-Grows, run-Grows}

module _ {ℓ} {A : Type ℓ} where
  init-Inv : (k : ℕ) → Inv {A = A} k (init k)
  unfolding init
  init-Inv k = record {
    writes = record {
      masks = refl;
      begins = refl;
      counts = (refl, tt);
      slots = λ j h near. absurd (omega arith);
      filled = λ j h. absurd (omega arith);
    };
    reads = record {
      behind = omega arith;
      received = (refl, refl, refl);
      lapped = λ e. absurd (cc);
    };
  }

  begin_broadcast-Inv :
      (k : ℕ) (s : System A) (m : A)
      → s.writer ≡ free
      → length (begin_broadcast s m).log < u64
      → Inv k s
      → Inv k (begin_broadcast s m)
  begin_broadcast-Inv k s m e room i = record {
    writes = begin_broadcast-WriterInv k s m e room i.writes;
    reads =
        unfold begin_broadcast in
        if_rule (ReaderInv k) s.shut (λ _. i.reads)
          (λ _. begin_ring k s _ _ _ (published-le k s i.writes) i.reads);
  }

  begin_close-Inv : (k : ℕ) (s : System A) → s.writer ≡ free → Inv k s → Inv k (begin_close s)
  begin_close-Inv k s e i = record {
    writes = begin_close-WriterInv k s e i.writes;
    reads =
        unfold begin_close in
        if_rule (ReaderInv k) s.shut (λ _. i.reads)
          (λ _. publish_ring k s _ _ _ _ _ _ _ _ _ (omega arith) i.reads);
  }

  begin_subscribe-Inv :
      (k : ℕ) (s : System A) (r : Reader A) → s.reader ≡ r → Inv k s → Inv k (begin_subscribe s r)
  unfolding begin_subscribe
  begin_subscribe-Inv k s fresh e i =
      let c = subst (Received k s.published s.pos s.first s.delivered s.log) e i.reads.received in
      let dropped = λ (q : s.err ≡ some lagged). subst Quiet e (i.reads.lapped q).1 in
      let nothing : s.pos - s.first ≡ 0 = omega arith in
      if_rule (Inv k) s.shut
        (λ _. record {
          writes = finish-WriterInv k _ closed (keep_ring k s _ _ _ _ _ _ _ _ _ _ _ i.writes);
          reads =
              finish-ReaderInv k (record s { subs = s.subs + 1; reader = idle }) closed
                (λ q. absurd (cc))
                (record {
                  behind = i.reads.behind;
                  received = (omega arith, rw nothing (c.0 ∙ sym (segment-zero s.first s.log)));
                  lapped = λ q. absurd (dropped q);
                });
        })
        λ _. record {
          writes = keep_ring k s _ _ _ _ _ _ _ _ _ _ _ i.writes;
          reads = record {
            behind = i.reads.behind;
            received = c;
            lapped = λ q. absurd (dropped q);
          };
        }
  begin_subscribe-Inv k s idle e i = i
  begin_subscribe-Inv k s r e i = i

  begin_recv-Inv :
      (k : ℕ) (s : System A) (r : Reader A) (n : ℕ)
      → s.reader ≡ r
      → Inv k s
      → Inv k (begin_recv s r n)
  unfolding begin_recv
  begin_recv-Inv k s idle n e i =
      let c = subst (Received k s.published s.pos s.first s.delivered s.log) e i.reads.received in
      if_rule (Inv k) (eqb n 0) (λ _. i)
        λ _. record {
          writes = keep_ring k s _ _ _ _ _ _ _ _ _ _ _ i.writes;
          reads = record {
            behind = i.reads.behind;
            received = c;
            lapped = λ q. ((i.reads.lapped q).0, tt);
          };
        }
  begin_recv-Inv k s fresh n e i = i
  begin_recv-Inv k s r n e i = i

  finish-Inv : (k : ℕ) (s : System A) → Inv k s → Inv k (finish s closed)
  finish-Inv k s i = record {
    writes = finish-WriterInv k s closed i.writes;
    reads = finish-ReaderInv k s closed (λ q. absurd (cc)) i.reads;
  }

  close_sub-Inv : (k : ℕ) (s : System A) (r : Reader A) → Inv k s → Inv k (close_sub s r)
  unfolding close_sub
  close_sub-Inv k s fresh i = i
  close_sub-Inv k s subscribing i = i
  close_sub-Inv k s idle i = finish-Inv k s i
  close_sub-Inv k s r i = finish-Inv k s i

  other_ring :
      (k : ℕ) (s : System A) (waiters others : ℕ) (fired : ℕ → Bool)
      → Inv k s
      → Inv k (record s { waiters = waiters; others = others; fired = fired })
  other_ring k s waiters others fired i = record {
    writes = keep_ring k s _ _ _ _ _ _ _ _ _ _ _ i.writes;
    reads = publish_ring k s _ _ _ _ _ _ _ _ _ (omega arith) i.reads;
  }

  -- Every move keeps the invariant, while fewer than `2 ^ 64` messages have been broadcast.
  pub step-Inv :
      (k : ℕ) (s : System A) (m : Move A)
      → length s.log < u64
      → length (step s m).log < u64
      → Inv k s
      → Inv k (step s m)
  unfolding step
  step-Inv k s (broadcast m) old new i =
      lock_rule (λ t. length t.log < u64 → Inv k t) s _ s.writer
        (λ e room. begin_broadcast-Inv k s m e room i) (λ _. i) new
  step-Inv k s close old new i = lock_rule (Inv k) s _ s.writer (λ e. begin_close-Inv k s e i) i
  step-Inv k s write old new i = record {
    writes = write-WriterInv k s s.writer refl old i.writes;
    reads = write-ReaderInv k s s.writer refl old i.writes i.reads;
  }
  step-Inv k s read old new i = record {
    writes = read-WriterInv k s s.reader i.writes;
    reads =
        read-ReaderInv k s s.reader
          (record { here = refl; writes = i.writes; reads = i.reads; room = old });
  }
  step-Inv k s sub_close old new i = close_sub-Inv k s s.reader i
  step-Inv k s subscribe old new i = begin_subscribe-Inv k s s.reader refl i
  step-Inv k s other_in old new i = other_ring k s _ _ s.fired i
  step-Inv k s other_out old new i =
      if_rule (Inv k) (ltb 0 s.others) (λ _. other_ring k s _ _ s.fired i) (λ _. i)
  step-Inv k s (fire g) old new i =
      if_rule (Inv k) (ltb g s.notify) (λ _. other_ring k s s.waiters s.others _ i) (λ _. i)
  step-Inv k s (recv n) old new i = begin_recv-Inv k s s.reader n refl i

  run-Inv :
      (k : ℕ) (s : System A) (ms : List (Move A))
      → length (run s ms).log < u64
      → Inv k s
      → Inv k (run s ms)
  unfolding run
  run-Inv k s [] room i = i
  run-Inv k s (m ∷ ms) room i = run-Inv k (step s m) ms room (
      step-Inv k s m (omega (arith, room, step-Grows s m, run-Grows (step s m) ms))
        (omega (arith, room, run-Grows (step s m) ms)) i)

  pub run-init-Inv :
      (k : ℕ) (ms : List (Move A))
      → length (run (init {A = A} k) ms).log < u64
      → Inv k (run (init k) ms)
  run-init-Inv k ms room = run-Inv k (init k) ms room (init-Inv k)
