-- ===== src/Broadcast/MutexRing.antt =====
-- internal/broadcast/ring.go: the ring behind a read-write lock, with any number of subscriptions.
-- A section under `mu` is one move: the write lock excludes every other section, and sections under
-- the read lock share only atomic counters. What a subscription does outside the lock is a move for
-- each access, so a run, a list of moves, is one interleaving. A channel stored in `notify` is a
-- number, the next one for each swap; `fires` is the `close(wake)` that follows a swap later.
mod Copying
mod Invariant
mod Moves
pub mod Guarantees
mod Tests
use Prim.Native.Nat.{bit_and}
use ws_chat.Base.{
  ℕ, zero, suc, ◌+◌, ◌-◌, ◌%◌, ◌^◌, Bool, true, false, ◌||◌, Option, none, some, List, [], ◌∷◌,
  ◌++◌, ltb, eqb, if◌then◌else◌, get_elem?, update,
}
use ws_chat.Broadcast.Errors.{Err, closed, lagged}
use ws_chat.Broadcast.SeqRing.{u64, sub64, failed}

-- Where a subscription stands: outside `Recv`, at the top of its loop, before the read lock, behind
-- it (lapped, with the drop counted or not, or at the end of a closed ring), in the `select` with
-- the channel it took, and before it takes itself off `waiters`.
pub data Place : Type 0 where
  top idle locking lapped dropped ended woken : Place
  parked : ℕ → Place

pub record RingSub {ℓ} (A : Type ℓ) : Type ℓ where
  pub pos : ℕ
  pub err : Option Err
  pub place : Place
  -- the length of `dst` in the call of `Recv`
  pub room : ℕ
  -- history: the number of its first message, and what `Recv` returned so far
  pub first : ℕ
  pub delivered : List A

pub record Ring {ℓ} (A : Type ℓ) : Type ℓ where
  pub buf : ℕ → A
  -- `len(buf)`
  pub capacity : ℕ
  pub mask : ℕ
  pub seq : ℕ
  pub notify : ℕ
  pub fired : ℕ → Bool
  pub shut : Bool
  pub waiters : ℕ
  pub subs : ℕ
  pub drops : ℕ
  pub readers : List (RingSub A)
  -- history: what was broadcast
  pub log : List A

pub data RingMove {ℓ} (A : Type ℓ) : Type ℓ where
  broadcasts : A → RingMove A
  closes subscribes : RingMove A
  fires reads leaves : ℕ → RingMove A
  receives : ℕ → ℕ → RingMove A

module _ {ℓ} {A : Type ℓ} where
  -- `NewRing` with `2 ^ k` slots, which hold `nil`.
  pub new_ring : A → ℕ → Ring A
  new_ring nil k = record {
    buf = λ _. nil;
    capacity = 2 ^ k;
    mask = 2 ^ k - 1;
    seq = 0;
    notify = 0;
    fired = λ _. false;
    shut = false;
    waiters = 0;
    subs = 0;
    drops = 0;
    readers = [];
    log = [];
  }

  abbrev pub store : (ℕ → A) → ℕ → A → ℕ → A
  store b i a j = if eqb i j then a else b j

  -- `Broadcast`: the channel is swapped for those who wait on it.
  pub broadcast : A → Ring A → Ring A
  broadcast m r = if r.shut then r else record r {
    buf = store r.buf (bit_and r.seq r.mask) m;
    seq = (r.seq + 1) % u64;
    notify = if ltb 0 r.waiters then r.notify + 1 else r.notify;
    log = r.log ++ m ∷ [];
  }

  pub close : Ring A → Ring A
  close r = if r.shut then r else record r { shut = true; notify = r.notify + 1 }

  pub len : Ring A → ℕ
  len r = if r.shut then 0 else r.subs

  abbrev pub set_sub : ℕ → RingSub A → Ring A → Ring A
  set_sub i s r = record r { readers = update i s r.readers }

  -- A subscription that has nothing yet, from message number `p` on.
  abbrev pub new_sub : ℕ → Option Err → RingSub A
  new_sub p e = record { pos = p; err = e; place = idle; room = 0; first = p; delivered = [] }

  -- `Subscribe`: on a closed ring the subscription is counted and finished, which nets out.
  pub subscribe : Ring A → Ring A
  subscribe r =
      if r.shut
      then record r { subs = r.subs + 1 - 1; readers = r.readers ++ new_sub 0 (some closed) ∷ [] }
      else record r { subs = r.subs + 1; readers = r.readers ++ new_sub r.seq none ∷ [] }

  -- `finish`: once only.
  pub finish : ℕ → Err → RingSub A → Ring A → Ring A
  finish i e s r =
      if failed s.err
      then set_sub i s r
      else record (set_sub i (record s { err = some e }) r) { subs = r.subs - 1 }

  -- The copying loop, with room for `n` more: what it stores in `dst`, and the position it leaves.
  pub copy : Ring A → ℕ → ℕ → List A × ℕ
  copy r zero p = ([], p)
  copy r (suc n) p =
      let rest = copy r n ((p + 1) % u64) in
      if ltb p r.seq then (r.buf (bit_and p r.mask) ∷ rest.0, rest.1) else ([], p)

  -- What follows the loop under the read lock.
  pub batch : ℕ → RingSub A → Ring A → List A × ℕ → Ring A
  batch i s r (x ∷ xs, p) =
      set_sub i (record s { pos = p; place = idle; delivered = s.delivered ++ x ∷ xs }) r
  batch i s r ([], p) =
      if r.shut
      then set_sub i (record s { place = ended }) r
      else record (set_sub i (record s { place = parked r.notify }) r) { waiters = r.waiters + 1 }

  -- The section under the read lock.
  pub read_locked : ℕ → RingSub A → Ring A → Ring A
  read_locked i s r =
      if ltb r.capacity (sub64 r.seq s.pos)
      then set_sub i (record s { place = lapped }) r
      else batch i s r (copy r s.room s.pos)

  -- The next access of a subscription in `Recv`.
  pub read : ℕ → RingSub A → Place → Ring A → Ring A
  read i s idle r = r
  read i s top r = set_sub i (record s { place = if failed s.err then idle else locking }) r
  read i s locking r = read_locked i s r
  read i s lapped r = record (set_sub i (record s { place = dropped }) r) { drops = r.drops + 1 }
  read i s dropped r = finish i lagged (record s { place = idle }) r
  read i s ended r = finish i closed (record s { place = idle }) r
  read i s (parked g) r =
      set_sub i (record s { place = if r.fired g || failed s.err then woken else parked g }) r
  read i s woken r = record (set_sub i (record s { place = top }) r) { waiters = r.waiters - 1 }

  -- A call of `Recv`; with an empty `dst` it returns at once.
  pub receive : ℕ → ℕ → RingSub A → Place → Ring A → Ring A
  receive i n s idle r = if eqb n 0 then r else set_sub i (record s { room = n; place = top }) r
  receive i n s p r = r

  -- A move of a subscription that there is.
  abbrev pub on : Option (RingSub A) → (RingSub A → Ring A) → Ring A → Ring A
  on none f r = r
  on (some s) f r = f s

  pub move : Ring A → RingMove A → Ring A
  move r (broadcasts m) = broadcast m r
  move r closes = close r
  move r subscribes = subscribe r
  move r (fires g) = if ltb g r.notify then record r { fired = λ h. eqb g h || r.fired h } else r
  move r (reads i) = on (get_elem? r.readers i) (λ s. read i s s.place r) r
  move r (leaves i) = on (get_elem? r.readers i) (λ s. finish i closed s r) r
  move r (receives i n) = on (get_elem? r.readers i) (λ s. receive i n s s.place r) r

  pub moves : Ring A → List (RingMove A) → Ring A
  moves r [] = r
  moves r (m ∷ ms) = moves (move r m) ms
