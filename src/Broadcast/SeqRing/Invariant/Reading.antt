-- ===== src/Broadcast/SeqRing/Invariant/Reading.antt =====
-- What a subscription has received stays true while the writer moves, and grows with its own moves.
use ws_chat.Base.{
  ℕ, ◌+◌, ◌-◌, ◌^◌, ◌≤◌, ◌<◌, ◌≡◌, sym, ◌∙◌, List, ◌++◌, Option, none, some, length, arith,
  length-append,
}
use ws_chat.Broadcast.Errors.{Err, lagged}
use ws_chat.Broadcast.Segments.{segment, segment-append}
use ws_chat.Broadcast.SeqRing.{
  System, Reader, fresh, subscribing, copying, panicked, finish_once, finish,
}
use ws_chat.Broadcast.SeqRing.Invariant.Defs.{Received, Quiet, ReaderInv}

module _ {ℓ} {A : Type ℓ} where
  -- The writer publishes more, or begins one more message.
  pub Received-grow :
      (k p p' pos first : ℕ) (out log more : List A) (r : Reader A)
      → p ≤ p'
      → pos ≤ p
      → p ≤ length log
      → Received k p pos first out log r
      → Received k p' pos first out (log ++ more) r
  Received-grow k p p' pos first out log more fresh up h l c = c
  Received-grow k p p' pos first out log more subscribing up h l c = c
  Received-grow k p p' pos first out log more panicked up h l c = c
  Received-grow k p p' pos first out log more (copying q start xs) up h l c = (
    omega arith,
    c.1,
    c.2,
    c.3,
    c.4 ∙ sym (segment-append first (start - first) log more (omega arith)),
    λ near.
        c.5 (omega (arith, length-append log more))
        ∙ sym (segment-append start (length xs) log more (omega arith)),
  )
  Received-grow k p p' pos first out log more r up h l c =
      (c.0, c.1 ∙ sym (segment-append first (pos - first) log more (omega arith)))

  pub Received-publish :
      (k p p' pos first : ℕ) (out log : List A) (r : Reader A)
      → p ≤ p'
      → Received k p pos first out log r
      → Received k p' pos first out log r
  Received-publish k p p' pos first out log fresh up c = c
  Received-publish k p p' pos first out log subscribing up c = c
  Received-publish k p p' pos first out log panicked up c = c
  Received-publish k p p' pos first out log (copying q start xs) up c =
      (omega arith, c.1, c.2, c.3, c.4, c.5)
  Received-publish k p p' pos first out log r up c = c

  -- Where a subscription may stand between two copies: the same is known of it everywhere there.
  abbrev pub Steady : Reader A → Type 0
  Steady fresh = ⊥
  Steady subscribing = ⊥
  Steady panicked = ⊥
  Steady (copying q start xs) = ⊥
  Steady r = Unit

  abbrev pub Prefix : ℕ → ℕ → List A → List A → Type ℓ
  Prefix pos first out log = (first ≤ pos) × (out ≡ segment first (pos - first) log)

  pub Received-Prefix :
      (k p pos first : ℕ) (out log : List A) (r : Reader A)
      → Steady r
      → Received k p pos first out log r
      → Prefix pos first out log
  Received-Prefix k p pos first out log fresh h c = absurd h
  Received-Prefix k p pos first out log subscribing h c = absurd h
  Received-Prefix k p pos first out log panicked h c = absurd h
  Received-Prefix k p pos first out log (copying q start xs) h c = absurd h
  Received-Prefix k p pos first out log r h c = c

  pub Prefix-Received :
      (k p pos first : ℕ) (out log : List A) (r : Reader A)
      → Steady r
      → Prefix pos first out log
      → Received k p pos first out log r
  Prefix-Received k p pos first out log fresh h c = absurd h
  Prefix-Received k p pos first out log subscribing h c = absurd h
  Prefix-Received k p pos first out log panicked h c = absurd h
  Prefix-Received k p pos first out log (copying q start xs) h c = absurd h
  Prefix-Received k p pos first out log r h c = c

  -- A move between two such places that leaves the subscription's own fields alone.
  pub Steady-ReaderInv :
      (k : ℕ) (s : System A) (r : Reader A) (n : ℕ)
      → Steady s.reader
      → Steady r
      → (s.err ≡ some lagged → Quiet r)
      → ReaderInv k s
      → ReaderInv k (record s { reader = r; waiters = n })
  Steady-ReaderInv k s r n a b q i = record {
    behind = i.behind;
    received =
        Prefix-Received k s.published s.pos s.first s.delivered s.log r b
          (Received-Prefix k s.published s.pos s.first s.delivered s.log s.reader a i.received);
    lapped = λ e. ((i.lapped e).0, q e);
  }

  finish_once-ReaderInv :
      (k : ℕ) (s : System A) (o : Option Err) (e : Err)
      → (e ≡ lagged → (s.pos + 2 ^ k < length s.log) × Quiet s.reader)
      → ReaderInv k s
      → ReaderInv k (finish_once o s e)
  unfolding finish_once
  finish_once-ReaderInv k s none e h i = record {
    behind = i.behind;
    received = i.received;
    lapped = λ q. h (cc);
  }
  finish_once-ReaderInv k s (some _) e h i = i

  pub finish-ReaderInv :
      (k : ℕ) (s : System A) (e : Err)
      → (e ≡ lagged → (s.pos + 2 ^ k < length s.log) × Quiet s.reader)
      → ReaderInv k s
      → ReaderInv k (finish s e)
  unfolding finish
  finish-ReaderInv k s e h i = finish_once-ReaderInv k s s.err e h i
