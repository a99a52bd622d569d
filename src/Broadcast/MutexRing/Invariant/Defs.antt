-- ===== src/Broadcast/MutexRing/Invariant/Defs.antt =====
-- The invariant of ring.go, for a ring of `2 ^ k` slots, and one subscription replaced in it.
use ws_chat.Base.{
  ℕ, ◌+◌, ◌-◌, ◌^◌, ◌≤◌, ◌<◌, ◌≡◌, ◌⊎◌, List, Bool, true, false, not, Option, none, some, length,
  get_elem?, All, one, count, update, count-update, All-update, arith,
}
use ws_chat.Broadcast.Errors.{Err, closed, lagged}
use ws_chat.Broadcast.Segments.{segment}
use ws_chat.Broadcast.SeqRing.{failed}
use ws_chat.Broadcast.MutexRing.{
  Place, idle, top, lapped, dropped, ended, woken, parked, RingSub, Ring,
}
use ws_chat.Broadcast.MutexRing.Copying.{Stored}

-- What holds where a subscription stands: `n` messages are broadcast, `g` is in `notify`.
abbrev pub Stands : ℕ → ℕ → ℕ → Bool → ℕ → Place → Type 0
Stands k n g shut pos lapped = pos + 2 ^ k < n
Stands k n g shut pos dropped = pos + 2 ^ k < n
Stands k n g shut pos ended = shut ≡ true
Stands k n g shut pos (parked h) = (h < g) ⊎ ((h ≡ g) × (pos ≡ n) × (shut ≡ false))
Stands k n g shut pos p = Unit

-- Once the subscription is dropped it reads nothing more.
abbrev pub Resting : Place → Type 0
Resting idle = Unit
Resting top = Unit
Resting p = ⊥

-- Inside a call of `Recv` there is room in `dst`.
abbrev pub Asked : ℕ → Place → Type 0
Asked n idle = Unit
Asked n p = 0 < n

abbrev pub is_lagged : Option Err → Bool
is_lagged (some lagged) = true
is_lagged (some closed) = false
is_lagged none = false

module _ {ℓ} {A : Type ℓ} where
  pub record SubInv (k : ℕ) (log : List A) (g : ℕ) (shut : Bool) (s : RingSub A) : Type ℓ where
    pub behind : s.pos ≤ length log
    pub begun : s.first ≤ s.pos
    pub received : s.delivered ≡ segment s.first (s.pos - s.first) log
    pub overrun : s.err ≡ some lagged → (s.pos + 2 ^ k < length log) × Resting s.place
    pub stands : Stands k (length log) g shut s.pos s.place
    pub asked : Asked s.room s.place

  -- A subscription that `waiters` counts.
  abbrev pub is_waiting : RingSub A → Bool
  is_waiting s = elim s.place [ parked g ↦ true | woken ↦ true | _ ↦ false ]

  -- A subscription that `subs` counts.
  abbrev pub is_live : RingSub A → Bool
  is_live s = not (failed s.err)

  -- A subscription whose drop is counted in `drops`.
  abbrev pub is_overrun : RingSub A → Bool
  is_overrun s = elim s.place [ dropped ↦ true | _ ↦ is_lagged s.err ]

  pub record Inv (k : ℕ) (r : Ring A) : Type ℓ where
    pub stored : Stored k r
    pub each : All (SubInv k r.log r.notify r.shut) r.readers
    pub waiting : r.waiters ≡ count is_waiting r.readers
    pub live : r.subs ≡ count is_live r.readers
    pub overruns : count is_overrun r.readers ≤ r.drops

  -- One subscription and the counters with it.
  pub set_sub-Inv :
      (k i w u d : ℕ) (s t : RingSub A) (r : Ring A)
      → get_elem? r.readers i ≡ some s
      → SubInv k r.log r.notify r.shut t
      → w + one (is_waiting s) ≡ r.waiters + one (is_waiting t)
      → u + one (is_live s) ≡ r.subs + one (is_live t)
      → r.drops + one (is_overrun t) ≤ d + one (is_overrun s)
      → Inv k r
      → Inv k (record r { readers = update i t r.readers; waiters = w; subs = u; drops = d })
  set_sub-Inv k i w u d s t r at inv ew eu ed h = record {
    stored = record {
      sized = h.stored.sized;
      masks = h.stored.masks;
      counts = h.stored.counts;
      slots = h.stored.slots;
    };
    each = All-update (SubInv k r.log r.notify r.shut) i t r.readers h.each inv;
    waiting = omega (arith, h.waiting, count-update is_waiting i s t r.readers at);
    live = omega (arith, h.live, count-update is_live i s t r.readers at);
    overruns = omega (arith, h.overruns, count-update is_overrun i s t r.readers at);
  }
