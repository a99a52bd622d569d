-- ===== src/Broadcast/SeqRing.antt =====
-- internal/broadcast/seqring.go: the lock-free ring, one atomic operation at a time.
-- `step` makes one move of the writer that holds `wmu`, of one subscription, or of the rest of the
-- program; a run is a list of moves, so every interleaving is one. Loads of what only the holder of
-- `wmu` writes are made with the writer's next store. The other subscriptions act on this one only
-- through `waiters`, so they are two moves. A channel stored in `notify` is a number, the next one
-- for each swap; `fire` is the `close(wake)` that follows a swap at some later time.
mod Invariant
mod Moves
mod Growth
pub mod Delivery
pub mod Wakeup
pub mod Guarantees
mod Tests
use Prim.Native.Nat.{bit_and}
use ws_chat.Base.{
  ℕ, zero, suc, ◌+◌, ◌-◌, ◌*◌, ◌%◌, ◌^◌, ◌<◌, Bool, true, false, not, ◌&&◌, ◌||◌, Option, none,
  some, List, [], ◌∷◌, ◌++◌, arith, ltb, leb, eqb, if◌then◌else◌, length,
}
use ws_chat.Broadcast.Errors.{Err, closed, lagged}

abbrev pub u64 : ℕ
u64 = 2 ^ 64

-- uint64 subtraction.
abbrev pub sub64 : ℕ → ℕ → ℕ
sub64 a b = (a + u64 - b) % u64

-- Where the holder of `wmu` stands: in `Broadcast` after the store to `begin`, after that to the
-- slot and after that to `published`, before a swap of `notify`; in `Close` before its swap.
pub data Writer {ℓ} (A : Type ℓ) : Type ℓ where
  free : Writer A
  begun stored : A → Writer A
  counting swapping closing : Writer A

-- Where the subscription stands: before and inside `Subscribe`, between calls of `Recv`, and in it.
pub data Reader {ℓ} (A : Type ℓ) : Type ℓ where
  fresh subscribing idle top loading empty capturing leaving panicked : Reader A
  captured registered rechecking asleep : ℕ → Reader A
  copying : ℕ → ℕ → List A → Reader A

pub record System {ℓ} (A : Type ℓ) : Type ℓ where
  pub buf : ℕ → Option A
  pub mask : ℕ
  pub shut : Bool
  pub begin : ℕ
  pub published : ℕ
  pub notify : ℕ
  pub fired : ℕ → Bool
  pub waiters : ℕ
  pub subs : ℕ
  pub drops : ℕ
  pub writer : Writer A
  -- the subscription: `seqSub`, and the length of `dst` in the call of `Recv`
  pub reader : Reader A
  pub pos : ℕ
  pub err : Option Err
  pub room : ℕ
  -- registrations of the other subscriptions
  pub others : ℕ
  -- history: what was broadcast, where the subscription began, what `Recv` returned so far
  pub log : List A
  pub first : ℕ
  pub delivered : List A

pub data Move {ℓ} (A : Type ℓ) : Type ℓ where
  broadcast : A → Move A
  close write read sub_close subscribe other_in other_out : Move A
  fire recv : ℕ → Move A

-- `s.err.Load() != nil`.
abbrev pub failed : Option Err → Bool
failed none = false
failed (some _) = true

module _ {ℓ} {A : Type ℓ} where
  -- `NewSeqRing` with `2 ^ k` slots, and a subscription that is not yet made.
  pub init : ℕ → System A
  init k = record {
    buf = λ _. none;
    mask = 2 ^ k - 1;
    shut = false;
    begin = 0;
    published = 0;
    notify = 0;
    fired = λ _. false;
    waiters = 0;
    subs = 0;
    drops = 0;
    writer = free;
    reader = fresh;
    pos = 0;
    err = none;
    room = 0;
    others = 0;
    log = [];
    first = 0;
    delivered = [];
  }

  abbrev pub put : (ℕ → Option A) → ℕ → A → ℕ → Option A
  put b i a j = if eqb i j then some a else b j

  -- `Broadcast` up to its store to `begin`.
  pub begin_broadcast : System A → A → System A
  begin_broadcast s m =
      if s.shut
      then s
      else record s { begin = (s.published + 1) % u64; log = s.log ++ m ∷ []; writer = begun m }

  pub begin_close : System A → System A
  begin_close s = if s.shut then s else record s { shut = true; writer = closing }

  -- The next store of the writer.
  pub write_step : System A → Writer A → System A
  write_step s free = s
  write_step s (begun m) = record s {
    buf = put s.buf (bit_and s.published s.mask) m;
    writer = stored m;
  }
  write_step s (stored m) = record s { published = (s.published + 1) % u64; writer = counting }
  write_step s counting = record s { writer = if ltb 0 s.waiters then swapping else free }
  write_step s swapping = record s { notify = s.notify + 1; writer = free }
  write_step s closing = record s { notify = s.notify + 1; writer = free }

  -- Only a free lock is taken.
  pub lock_for : System A → Writer A → System A → System A
  lock_for s free t = t
  lock_for s w t = s

  -- `finish`: once only.
  pub finish_once : Option Err → System A → Err → System A
  finish_once none s e = record s { err = some e; subs = s.subs - 1 }
  finish_once (some _) s e = s

  pub finish : System A → Err → System A
  unfolding finish_once
  finish s e = finish_once s.err s e

  -- `lag`: a drop, an error and nothing of what was copied.
  pub lag : System A → System A
  lag s = finish (record s { drops = s.drops + 1; reader = idle }) lagged

  -- `published.Load()` and what follows it up to the next access.
  pub load_published : System A → System A
  load_published s =
      if eqb s.published s.pos
      then record s { reader = empty }
      else (if ltb (s.mask + 1) (sub64 s.published s.pos)
          then lag s
          else record s { reader = copying s.published s.pos [] })

  -- `dst[n] = *slot`; a slot that was never written is a nil pointer.
  pub copy_slot : System A → ℕ → ℕ → List A → Option A → System A
  copy_slot s end start xs none = record s { reader = panicked }
  copy_slot s end start xs (some x) = record s {
    pos = (s.pos + 1) % u64;
    reader = copying end start (xs ++ x ∷ []);
  }

  -- The seqlock check: a batch that may be torn is copied again.
  pub validate : System A → ℕ → List A → System A
  validate s start xs =
      if ltb (s.mask + 1) (sub64 s.begin start)
      then record s { pos = start; reader = top }
      else record s { delivered = s.delivered ++ xs; reader = idle }

  -- One round of the copying loop up to `end`, or the check behind it.
  pub copy_step : System A → ℕ → ℕ → List A → System A
  copy_step s end start xs =
      if ltb s.pos end && ltb (length xs) s.room
      then copy_slot s end start xs (s.buf (bit_and s.pos s.mask))
      else validate s start xs

  pub read_step : System A → Reader A → System A
  read_step s fresh = s
  read_step s subscribing = record s { pos = s.published; first = s.published; reader = idle }
  read_step s idle = s
  read_step s top = record s { reader = if failed s.err then idle else loading }
  read_step s loading = load_published s
  read_step s empty =
      if s.shut then finish (record s { reader = idle }) closed else record s { reader = capturing }
  read_step s capturing = record s { reader = captured s.notify }
  read_step s (captured g) = record s { waiters = s.waiters + 1; reader = registered g }
  read_step s (registered g) = record s {
    reader = if eqb s.published s.pos then rechecking g else leaving;
  }
  read_step s (rechecking g) = record s { reader = if s.shut then leaving else asleep g }
  read_step s (asleep g) = record s {
    reader = if s.fired g || failed s.err then leaving else asleep g;
  }
  read_step s leaving = record s { waiters = s.waiters - 1; reader = top }
  read_step s panicked = s
  read_step s (copying p start xs) = copy_step s p start xs

  -- `Subscribe` up to its load of `published`.
  pub begin_subscribe : System A → Reader A → System A
  begin_subscribe s fresh =
      let counted = record s { subs = s.subs + 1 } in
      if s.shut
      then finish (record counted { reader = idle }) closed
      else record counted { reader = subscribing }
  begin_subscribe s r = s

  -- A call of `Recv`; with an empty `dst` it returns at once.
  pub begin_recv : System A → Reader A → ℕ → System A
  begin_recv s idle n = if eqb n 0 then s else record s { room = n; reader = top }
  begin_recv s r n = s

  -- `Close` of the subscription, once there is one.
  pub close_sub : System A → Reader A → System A
  close_sub s fresh = s
  close_sub s subscribing = s
  close_sub s r = finish s closed

  pub step : System A → Move A → System A
  step s (broadcast m) = lock_for s s.writer (begin_broadcast s m)
  step s close = lock_for s s.writer (begin_close s)
  step s write = write_step s s.writer
  step s read = read_step s s.reader
  step s sub_close = close_sub s s.reader
  step s subscribe = begin_subscribe s s.reader
  step s other_in = record s { waiters = s.waiters + 1; others = s.others + 1 }
  step s other_out =
      if ltb 0 s.others then record s { waiters = s.waiters - 1; others = s.others - 1 } else s
  step s (fire g) = if ltb g s.notify then record s { fired = λ h. eqb g h || s.fired h } else s
  step s (recv n) = begin_recv s s.reader n

  pub run : System A → List (Move A) → System A
  run s [] = s
  run s (m ∷ ms) = run (step s m) ms
