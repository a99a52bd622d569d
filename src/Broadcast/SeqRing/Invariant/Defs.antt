-- ===== src/Broadcast/SeqRing/Invariant/Defs.antt =====
-- The invariant of seqring.go, for a ring of `2 ^ k` slots.
use ws_chat.Base.{ℕ, suc, ◌+◌, ◌-◌, ◌%◌, ◌^◌, ◌≤◌, ◌<◌, ◌≡◌, List, [], some, length, get_elem?}
use ws_chat.Broadcast.Errors.{lagged}
use ws_chat.Broadcast.Segments.{segment}
use ws_chat.Broadcast.SeqRing.{
  System, Writer, begun, stored, Reader, fresh, subscribing, idle, top, copying, panicked,
}

module _ {ℓ} {A : Type ℓ} where
  -- How many messages `published` counts, and how many slots are written.
  abbrev pub Counts : Writer A → ℕ → List A → Type ℓ
  Counts (begun m) p log = (suc p ≡ length log) × (get_elem? log p ≡ some m)
  Counts (stored m) p log = (suc p ≡ length log) × Unit
  Counts w p log = (p ≡ length log) × Unit

  abbrev pub written : Writer A → ℕ → List A → ℕ
  written (begun m) p log = p
  written w p log = length log

  -- Message number `j` is in its slot until number `j + 2 ^ k` begins to be written.
  pub record WriterInv (k : ℕ) (s : System A) : Type ℓ where
    pub masks : s.mask ≡ 2 ^ k - 1
    pub begins : s.begin ≡ length s.log
    pub counts : Counts s.writer s.published s.log
    pub slots :
        (j : ℕ)
        → j < written s.writer s.published s.log
        → length s.log ≤ j + 2 ^ k
        → s.buf (j % 2 ^ k) ≡ get_elem? s.log j
    pub filled :
        (j : ℕ) → j < written s.writer s.published s.log → (x : A) × (s.buf (j % 2 ^ k) ≡ some x)

  -- What the subscription has received, by where it stands: `p` is `published`, `pos` and `first`
  -- its own, `out` what `Recv` has returned so far.
  abbrev pub Received : ℕ → ℕ → ℕ → ℕ → List A → List A → Reader A → Type ℓ
  Received k p pos first out log fresh = (out ≡ []) × (pos ≡ 0) × (first ≡ 0)
  Received k p pos first out log subscribing = (out ≡ []) × (pos ≡ 0) × (first ≡ 0)
  Received k p pos first out log panicked = (out ≡ []) × ⊥
  Received k p pos first out log (copying q start xs) =
      (q ≤ p)
      × (start + length xs ≡ pos)
      × (pos ≤ q)
      × (first ≤ start)
      × (out ≡ segment first (start - first) log)
      × (length log ≤ start + 2 ^ k → xs ≡ segment start (length xs) log)
  Received k p pos first out log r = (first ≤ pos) × (out ≡ segment first (pos - first) log)

  -- Once the subscription is dropped it reads nothing more.
  abbrev pub Quiet : Reader A → Type 0
  Quiet idle = Unit
  Quiet top = Unit
  Quiet r = ⊥

  pub record ReaderInv (k : ℕ) (s : System A) : Type ℓ where
    pub behind : s.pos ≤ s.published
    pub received : Received k s.published s.pos s.first s.delivered s.log s.reader
    pub lapped : s.err ≡ some lagged → (s.pos + 2 ^ k < length s.log) × Quiet s.reader

  pub record Inv (k : ℕ) (s : System A) : Type ℓ where
    pub writes : WriterInv k s
    pub reads : ReaderInv k s
