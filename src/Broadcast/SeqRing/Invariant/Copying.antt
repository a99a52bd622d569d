-- ===== src/Broadcast/SeqRing/Invariant/Copying.antt =====
-- The moves of the subscription keep the invariant.
use Prim.Native.Nat.{bit_and}
use ws_chat.Base.{
  ℕ, suc, ◌+◌, ◌-◌, ◌%◌, ◌^◌, ◌≤◌, ◌<◌, ◌≡◌, refl, sym, ap, subst, ◌∙◌, ◌≡⟨◌⟩◌, ◌∎, List, [], ◌∷◌,
  ◌++◌, Option, none, some, length, get_elem?, arith, length-append, ltb, eqb, if_rule, ◌&&◌, ◌||◌,
  ltb→lt, &&_split,
}
use ws_chat.Base.Arith.{pow2-pos}
use ws_chat.Base.Mask.{bit_and-mask}
use ws_chat.Broadcast.Errors.{lagged, closed}
use ws_chat.Broadcast.Segments.{segment, segment-snoc, segment-join, segment-zero}
use ws_chat.Broadcast.SeqRing.{
  System, u64, Writer, free, begun, stored, Reader, fresh, subscribing, idle, top, loading, empty,
  capturing, captured, registered, rechecking, asleep, leaving, copying, panicked, sub64, failed,
  lag, load_published, copy_slot, validate, copy_step, read_step,
}
use ws_chat.Broadcast.SeqRing.Invariant.Defs.{
  Counts, written, WriterInv, Received, Quiet, ReaderInv,
}
use ws_chat.Broadcast.SeqRing.Invariant.Reading.{Steady, Steady-ReaderInv, finish-ReaderInv}

module _ {ℓ} {A : Type ℓ} where
  Counts-le : (w : Writer A) (p : ℕ) (log : List A) → Counts w p log → p ≤ length log
  Counts-le (begun m) p log c = omega arith
  Counts-le (stored m) p log c = omega arith
  Counts-le free p log c = omega arith
  Counts-le w p log c = omega arith

  pub published-le : (k : ℕ) (s : System A) → WriterInv k s → s.published ≤ length s.log
  published-le k s w = Counts-le s.writer s.published s.log w.counts

  written-ge : (w : Writer A) (p : ℕ) (log : List A) → Counts w p log → p ≤ written w p log
  written-ge (begun m) p log c = omega arith
  written-ge (stored m) p log c = omega arith
  written-ge free p log c = omega arith
  written-ge w p log c = omega arith

  -- What is known of a subscription that stands at `r`.
  pub record At (k : ℕ) (s : System A) (r : Reader A) : Type ℓ where
    pub here : s.reader ≡ r
    pub writes : WriterInv k s
    pub reads : ReaderInv k s
    pub room : length s.log < u64

  At-Received :
      (k : ℕ) (s : System A) (r : Reader A)
      → At k s r
      → Received k s.published s.pos s.first s.delivered s.log r
  At-Received k s r a =
      subst (Received k s.published s.pos s.first s.delivered s.log) a.here a.reads.received

  At-Lapped : (k : ℕ) (s : System A) (r : Reader A) → At k s r → s.err ≡ some lagged → Quiet r
  At-Lapped k s r a e = subst Quiet a.here (a.reads.lapped e).1

  At-Steady : (k : ℕ) (s : System A) (r : Reader A) → At k s r → Steady r → Steady s.reader
  At-Steady k s r a h = subst Steady (sym a.here) h

  -- A move to a place where the subscription is not busy copying.
  move-ReaderInv :
      (k : ℕ) (s : System A) (r r' : Reader A) (n : ℕ)
      → At k s r
      → Steady r
      → Steady r'
      → (s.err ≡ some lagged → Quiet r')
      → ReaderInv k (record s { reader = r'; waiters = n })
  move-ReaderInv k s r r' n a b b' q = Steady-ReaderInv k s r' n (At-Steady k s r a b) b' q a.reads

  slot : (k : ℕ) (s : System A) → WriterInv k s → bit_and s.pos s.mask ≡ s.pos % 2 ^ k
  slot k s w = ap (bit_and s.pos) w.masks ∙ bit_and-mask s.pos k

  -- A batch that is not torn grows by the next message of the history.
  extend_batch :
      (start pos : ℕ) (xs log : List A) (x : A)
      → start + length xs ≡ pos
      → xs ≡ segment start (length xs) log
      → get_elem? log pos ≡ some x
      → xs ++ x ∷ [] ≡ segment start (length (xs ++ x ∷ [])) log
  extend_batch start pos xs log x e c g =
      let grown : length (xs ++ x ∷ []) ≡ suc (length xs) =
        omega (arith, length-append xs (x ∷ [])) in
      xs ++ x ∷ []
      ≡⟨ ap (λ l. l ++ x ∷ []) c ⟩ segment start (length xs) log ++ x ∷ []
      ≡⟨ segment-snoc start (length xs) pos log x e g ⟩ segment start (suc (length xs)) log
      ≡⟨ ap (λ n. segment start n log) (sym grown) ⟩ segment start (length (xs ++ x ∷ [])) log ∎

  copied-ReaderInv :
      (k : ℕ) (s : System A) (end start : ℕ) (xs : List A) (o : Option A)
      → At k s (copying end start xs)
      → s.pos < end
      → s.buf (bit_and s.pos s.mask) ≡ o
      → ReaderInv k (copy_slot s end start xs o)
  unfolding copy_slot
  copied-ReaderInv k s end start xs none a more e =
      let c = At-Received k s (copying end start xs) a in
      let full =
        a.writes.filled s.pos
          (omega (arith, written-ge s.writer s.published s.log a.writes.counts)) in
      absurd (cc (ap s.buf (slot k s a.writes), full.1))
  copied-ReaderInv k s end start xs (some x) a more e =
      let c = At-Received k s (copying end start xs) a in
      let le = published-le k s a.writes in
      let below = written-ge s.writer s.published s.log a.writes.counts in
      record {
        behind = omega (arith, a.room);
        received = (
          c.0,
          omega (arith, a.room, length-append xs (x ∷ [])),
          omega (arith, a.room),
          c.3,
          c.4,
          λ near. extend_batch start s.pos xs s.log x c.1 (c.5 near) (
              sym (a.writes.slots s.pos (omega arith) (omega arith))
              ∙ ap s.buf (sym (slot k s a.writes))
              ∙ e),
        );
        lapped = λ q. absurd (At-Lapped k s (copying end start xs) a q);
      }

  deliver :
      (s : System A) (k start : ℕ) (xs : List A)
      → s.delivered ≡ segment s.first (start - s.first) s.log
      → (length s.log ≤ start + 2 ^ k → xs ≡ segment start (length xs) s.log)
      → length s.log ≤ start + 2 ^ k
      → start + length xs ≡ s.pos
      → s.first ≤ start
      → s.delivered ++ xs ≡ segment s.first (s.pos - s.first) s.log
  deliver s k start xs before batch near e h =
      ap (λ l. l ++ xs) before
      ∙ ap (λ l. segment s.first (start - s.first) s.log ++ l) (batch near)
      ∙ segment-join s.first (start - s.first) start (length xs) (s.pos - s.first) s.log
          (omega arith) (omega arith)

  -- The seqlock check: a batch that is returned is not torn.
  validate-ReaderInv :
      (k : ℕ) (s : System A) (end start : ℕ) (xs : List A)
      → At k s (copying end start xs)
      → ReaderInv k (validate s start xs)
  unfolding validate
  validate-ReaderInv k s end start xs a =
      let c = At-Received k s (copying end start xs) a in
      let le = published-le k s a.writes in
      if_rule (ReaderInv k) (ltb (s.mask + 1) (sub64 s.begin start))
        (λ torn. record {
          behind = omega arith;
          received = (c.3, c.4);
          lapped = λ q. absurd (At-Lapped k s (copying end start xs) a q);
        })
        (λ whole. record {
          behind = a.reads.behind;
          received = (
            omega arith,
            deliver s k start xs c.4 c.5
                (ground (arith, a.writes.begins, a.writes.masks, a.room, whole, pow2-pos k)) c.1
                c.3,
          );
          lapped = λ q. absurd (At-Lapped k s (copying end start xs) a q);
        })

  copy_step-ReaderInv :
      (k : ℕ) (s : System A) (end start : ℕ) (xs : List A)
      → At k s (copying end start xs)
      → ReaderInv k (copy_step s end start xs)
  unfolding copy_step
  copy_step-ReaderInv k s end start xs a =
      if_rule (ReaderInv k) (ltb s.pos end && ltb (length xs) s.room)
        (λ more.
          copied-ReaderInv k s end start xs (s.buf (bit_and s.pos s.mask)) a
            (ltb→lt _ _ (&&_split (ltb s.pos end) _ more).0) refl)
        (λ _. validate-ReaderInv k s end start xs a)

  -- A subscription is dropped only if it is lapped.
  lag-ReaderInv :
      (k : ℕ) (s : System A) → At k s loading → s.pos + 2 ^ k < length s.log → ReaderInv k (lag s)
  unfolding lag
  lag-ReaderInv k s a far =
      finish-ReaderInv k (record s { drops = s.drops + 1; reader = idle }) lagged (λ _. (far, tt))
        (record {
          behind = a.reads.behind;
          received = At-Received k s loading a;
          lapped = λ q. absurd (At-Lapped k s loading a q);
        })

  load-ReaderInv : (k : ℕ) (s : System A) → At k s loading → ReaderInv k (load_published s)
  unfolding load_published
  load-ReaderInv k s a =
      let c = At-Received k s loading a in
      let le = published-le k s a.writes in
      if_rule (ReaderInv k) (eqb s.published s.pos)
        (λ _.
          move-ReaderInv k s loading empty s.waiters a tt tt
            (λ q. absurd (At-Lapped k s loading a q)))
        λ _.
          if_rule (ReaderInv k) (ltb (s.mask + 1) (sub64 s.published s.pos))
            (λ far. lag-ReaderInv k s a (ground (arith, a.writes.masks, a.room, far, pow2-pos k)))
            λ _. record {
              behind = a.reads.behind;
              received = (
                omega arith,
                omega arith,
                a.reads.behind,
                c.0,
                c.1,
                λ near. sym (segment-zero s.pos s.log),
              );
              lapped = λ q. absurd (At-Lapped k s loading a q);
            }

  -- A move from a place where a dropped subscription cannot be.
  onward :
      (k : ℕ) (s : System A) (r r' : Reader A) (n : ℕ)
      → At k s r
      → Steady r
      → Steady r'
      → ¬ Quiet r
      → ReaderInv k (record s { reader = r'; waiters = n })
  onward k s r r' n a b b' h =
      move-ReaderInv k s r r' n a b b' (λ q. absurd (h (At-Lapped k s r a q)))

  pub read-ReaderInv :
      (k : ℕ) (s : System A) (r : Reader A) → At k s r → ReaderInv k (read_step s r)
  unfolding read_step
  read-ReaderInv k s fresh a = a.reads
  read-ReaderInv k s subscribing a =
      let c = At-Received k s subscribing a in
      record {
        behind = omega arith;
        received = (
          omega arith,
          let none_yet : s.published - s.published ≡ 0 = omega arith in
              rw none_yet (c.0 ∙ sym (segment-zero s.published s.log)),
        );
        lapped = λ q. absurd (At-Lapped k s subscribing a q);
      }
  read-ReaderInv k s idle a = a.reads
  read-ReaderInv k s top a =
      move-ReaderInv k s top _ s.waiters a tt (if_rule Steady (failed s.err) (λ _. tt) (λ _. tt))
        (λ q. rw q tt)
  read-ReaderInv k s loading a = load-ReaderInv k s a
  read-ReaderInv k s empty a =
      if_rule (ReaderInv k) s.shut
        (λ _.
          finish-ReaderInv k (record s { reader = idle }) closed (λ e. absurd (cc))
            (move-ReaderInv k s empty idle s.waiters a tt tt (λ _. tt)))
        λ _. onward k s empty capturing s.waiters a tt tt (λ h. h)
  read-ReaderInv k s capturing a =
      onward k s capturing (captured s.notify) s.waiters a tt tt (λ h. h)
  read-ReaderInv k s (captured g) a =
      onward k s (captured g) (registered g) (s.waiters + 1) a tt tt (λ h. h)
  read-ReaderInv k s (registered g) a =
      onward k s (registered g) _ s.waiters a tt
        (if_rule Steady (eqb s.published s.pos) (λ _. tt) (λ _. tt)) (λ h. h)
  read-ReaderInv k s (rechecking g) a =
      onward k s (rechecking g) _ s.waiters a tt (if_rule Steady s.shut (λ _. tt) (λ _. tt))
        (λ h. h)
  read-ReaderInv k s (asleep g) a =
      onward k s (asleep g) _ s.waiters a tt
        (if_rule Steady (s.fired g || failed s.err) (λ _. tt) (λ _. tt)) (λ h. h)
  read-ReaderInv k s leaving a = onward k s leaving top (s.waiters - 1) a tt tt (λ h. h)
  read-ReaderInv k s panicked a = a.reads
  read-ReaderInv k s (copying end start xs) a = copy_step-ReaderInv k s end start xs a
