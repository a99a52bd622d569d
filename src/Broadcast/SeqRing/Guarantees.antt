-- ===== src/Broadcast/SeqRing/Guarantees.antt =====
-- What the ring promises to a subscription, over every interleaving.
use ws_chat.Base.{ℕ, ◌+◌, ◌-◌, ◌^◌, ◌≤◌, ◌<◌, ◌≡◌, sym, subst, ◌∙◌, List, some, length, arith, ◌≢◌}
use ws_chat.Broadcast.Errors.{lagged}
use ws_chat.Broadcast.Segments.{segment, segment-zero}
use ws_chat.Broadcast.SeqRing.{u64, Reader, fresh, subscribing, copying, panicked, Move, init, run}
use ws_chat.Broadcast.SeqRing.Invariant.{Received, published-le}
use ws_chat.Broadcast.SeqRing.Delivery.{run-init-Inv}

module _ {ℓ} {A : Type ℓ} where
  abbrev pub IsStretch : ℕ → List A → List A → Type ℓ
  IsStretch first out log = (n : ℕ) × (first + n ≤ length log) × (out ≡ segment first n log)

  Received-IsStretch :
      (k p pos first : ℕ) (out log : List A) (r : Reader A)
      → pos ≤ p
      → p ≤ length log
      → Received k p pos first out log r
      → IsStretch first out log
  Received-IsStretch k p pos first out log fresh h l c =
      (0, omega arith, c.0 ∙ sym (segment-zero first log))
  Received-IsStretch k p pos first out log subscribing h l c =
      (0, omega arith, c.0 ∙ sym (segment-zero first log))
  Received-IsStretch k p pos first out log panicked h l c = absurd c.1
  Received-IsStretch k p pos first out log (copying q start xs) h l c =
      (start - first, omega arith, c.4)
  Received-IsStretch k p pos first out log r h l c = (pos - first, omega arith, c.1)

  -- In every interleaving of fewer than `2 ^ 64` broadcasts with the subscription, other
  -- subscriptions and closes: all that `Recv` has returned so far is an unbroken stretch of the
  -- messages broadcast, in their order, from the one that was next when `Subscribe` read the cursor.
  pub delivered-IsStretch :
      (k : ℕ) (ms : List (Move A))
      → length (run (init {A = A} k) ms).log < u64
      → IsStretch (run (init {A = A} k) ms).first (run (init k) ms).delivered (run (init k) ms).log
  delivered-IsStretch k ms room =
      let i = run-init-Inv k ms room in
      let s = run (init {A = A} k) ms in
      Received-IsStretch k s.published s.pos s.first s.delivered s.log s.reader i.reads.behind
        (published-le k s i.writes) i.reads.received

  -- In every interleaving of fewer than `2 ^ 64` broadcasts with the subscription, other
  -- subscriptions and closes: the reader never dereferences a slot that was not written.
  pub reader-ne-panicked :
      (k : ℕ) (ms : List (Move A))
      → length (run (init {A = A} k) ms).log < u64
      → (run (init {A = A} k) ms).reader ≢ panicked
  reader-ne-panicked k ms room e =
      let i = run-init-Inv k ms room in
      let s = run (init {A = A} k) ms in
      (subst (Received k s.published s.pos s.first s.delivered s.log) e i.reads.received).1

  -- In every interleaving of fewer than `2 ^ 64` broadcasts with the subscription, other
  -- subscriptions and closes: a subscription that was dropped with `ErrLagged` is more than the
  -- ring's `2 ^ k` slots behind the messages whose broadcast has begun.
  pub lagged-behind :
      (k : ℕ) (ms : List (Move A))
      → length (run (init {A = A} k) ms).log < u64
      → (run (init {A = A} k) ms).err ≡ some lagged
      → (run (init {A = A} k) ms).pos + 2 ^ k < length (run (init {A = A} k) ms).log
  lagged-behind k ms room e = ((run-init-Inv k ms room).reads.lapped e).0
