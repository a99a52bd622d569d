-- ===== src/Broadcast/MapChan.antt =====
-- internal/broadcast/broadcast.go: MapChan, a buffered channel for each subscriber.
-- A `Broadcast` is a thread: it sends to one subscriber after the other under the read lock, which
-- threads share, and then drops those that were full under the write lock. A section under the write
-- lock is one move, made only while no thread holds the read lock. A receive from a channel is one
-- move; `Recv` makes one that waits and then as many as find a message and room in `dst`.
mod Invariant
mod Sending
mod Dropping
mod Moves
pub mod Guarantees
mod Tests
use ws_chat.Base.{
  ℕ, ◌+◌, Bool, true, false, not, ◌||◌, Option, none, some, List, [], ◌∷◌, ◌++◌, ltb, eqb,
  if◌then◌else◌, length, get_elem?, update,
}
use ws_chat.Broadcast.Errors.{Err, closed, lagged, default_buffer}

-- `mapSub`: what its channel holds, whether the channel is closed, and `lagged`.
pub record MapSub {ℓ} (A : Type ℓ) : Type ℓ where
  pub queue : List A
  pub ended : Bool
  pub behind : Bool
  -- history: what was sent to the channel, what was received from it, and whether it was ever full
  pub sent : List A
  pub got : List A
  pub was_full : Bool

-- `Broadcast`: with whom it is still to send to and who was full, or behind its read lock.
pub data Thread {ℓ} (A : Type ℓ) : Type ℓ where
  sending : A → List ℕ → List ℕ → Thread A
  dropping : List ℕ → Thread A

-- The subscriptions are pointers; a `range` over `subs` meets them in one order or another.
pub record MapChan {ℓ} (A : Type ℓ) : Type ℓ where
  pub buf : ℕ
  pub subs : List ℕ
  pub sub_at : ℕ → MapSub A
  pub next : ℕ
  pub shut : Bool
  pub drops : ℕ
  pub threads : List (Thread A)
  -- a send on a closed channel
  pub panicked : Bool

pub data MapMove {ℓ} (A : Type ℓ) : Type ℓ where
  broadcasts : A → MapMove A
  subscribes closes : MapMove A
  runs leaves receives : ℕ → MapMove A

abbrev pub without : ℕ → List ℕ → List ℕ
without p [] = []
without p (q ∷ qs) = let rest = without p qs in if eqb q p then rest else q ∷ rest

abbrev pub among : ℕ → List ℕ → Bool
among p [] = false
among p (q ∷ qs) = eqb q p || among p qs

module _ {ℓ} {A : Type ℓ} where
  abbrev pub new_sub : Bool → MapSub A
  new_sub over = record {
    queue = [];
    ended = over;
    behind = false;
    sent = [];
    got = [];
    was_full = false;
  }

  -- `NewMapChan`, for an argument that is not negative.
  pub new_map_chan : ℕ → MapChan A
  new_map_chan n = record {
    buf = if ltb n 1 then default_buffer else n;
    subs = [];
    sub_at = λ _. new_sub true;
    next = 0;
    shut = false;
    drops = 0;
    threads = [];
    panicked = false;
  }

  abbrev pub set_sub : ℕ → MapSub A → MapChan A → MapChan A
  set_sub p s b = record b { sub_at = λ q. if eqb p q then s else b.sub_at q }

  -- Whether a thread holds the read lock.
  abbrev pub is_reading : List (Thread A) → Bool
  is_reading [] = false
  is_reading (sending m todo slow ∷ ts) = true
  is_reading (dropping slow ∷ ts) = is_reading ts

  abbrev pub write_locked : MapChan A → MapChan A → MapChan A
  write_locked b c = if is_reading b.threads then b else c

  pub subscribe : MapChan A → MapChan A
  subscribe b =
      let c = set_sub b.next (new_sub b.shut) (record b { next = b.next + 1 }) in
      if b.shut then c else record c { subs = b.next ∷ b.subs }

  -- `finish`: once only.
  pub finish_at : Bool → ℕ → (ℕ → MapSub A) → ℕ → MapSub A
  finish_at over p at q =
      if (at p).ended
      then at q
      else (if eqb p q then record (at p) { ended = true; behind = over } else at q)

  abbrev pub finish : Bool → ℕ → MapChan A → MapChan A
  finish over p b = record b { sub_at = finish_at over p b.sub_at }

  -- `ch <- msg`, or the `default` of the `select`; on a closed channel it panics.
  pub send_at : A → ℕ → ℕ → (ℕ → MapSub A) → ℕ → MapSub A
  send_at m p buf at q =
      let s = at p in
      if s.ended || not (eqb p q)
      then at q
      else (if ltb (length s.queue) buf
          then record s { queue = s.queue ++ m ∷ []; sent = s.sent ++ m ∷ [] }
          else record s { was_full = true })

  pub send : A → ℕ → MapChan A → MapChan A
  send m p b = record b {
    sub_at = send_at m p b.buf b.sub_at;
    panicked = b.panicked || (b.sub_at p).ended;
  }

  abbrev pub is_full : ℕ → MapChan A → Bool
  is_full p b = if ltb (length (b.sub_at p).queue) b.buf then false else true

  -- The loop of `Broadcast` over those that were full, and one round of it.
  pub drop_one : ℕ → MapChan A → MapChan A
  drop_one p b =
      if among p b.subs
      then (let c = finish true p b in record c { subs = without p b.subs; drops = b.drops + 1 })
      else b

  pub drop_all : List ℕ → MapChan A → MapChan A
  drop_all [] b = b
  drop_all (p ∷ ps) b = drop_all ps (drop_one p b)

  -- The next step of a thread.
  pub run_thread : ℕ → Thread A → MapChan A → MapChan A
  run_thread t (sending m [] slow) b = record b { threads = update t (dropping slow) b.threads }
  run_thread t (sending m (p ∷ ps) slow) b = record (send m p b) {
    threads = update t (sending m ps (if is_full p b then slow ++ p ∷ [] else slow)) b.threads;
  }
  run_thread t (dropping slow) b =
      write_locked b (record (drop_all slow b) { threads = update t (dropping []) b.threads })

  pub remove : ℕ → MapChan A → MapChan A
  remove p b =
      if among p b.subs
      then (let c = finish false p b in record c { subs = without p b.subs })
      else b

  pub finish_each : List ℕ → (ℕ → MapSub A) → ℕ → MapSub A
  finish_each [] at = at
  finish_each (p ∷ ps) at = finish_each ps (finish_at false p at)

  pub close : MapChan A → MapChan A
  close b =
      if b.shut
      then b
      else record b { sub_at = finish_each b.subs b.sub_at; subs = []; shut = true }

  pub len : MapChan A → ℕ
  len b = length b.subs

  -- `<-s.ch` of a message.
  abbrev pub received : List A → MapSub A → MapSub A
  received [] s = s
  received (m ∷ ms) s = record s { queue = ms; got = s.got ++ m ∷ [] }

  pub receive : ℕ → MapChan A → MapChan A
  receive p b = set_sub p (received (b.sub_at p).queue (b.sub_at p)) b

  -- What `Recv` reports at the end of a channel that is closed and empty.
  pub end_of : MapSub A → Err
  end_of s = if s.behind then lagged else closed

  abbrev pub thread_at : Option (Thread A) → (Thread A → MapChan A) → MapChan A → MapChan A
  thread_at none f b = b
  thread_at (some t) f b = f t

  pub move : MapChan A → MapMove A → MapChan A
  move b (broadcasts m) = record b { threads = b.threads ++ sending m b.subs [] ∷ [] }
  move b subscribes = write_locked b (subscribe b)
  move b closes = write_locked b (close b)
  move b (runs t) = thread_at (get_elem? b.threads t) (λ x. run_thread t x b) b
  move b (leaves p) = write_locked b (remove p b)
  move b (receives p) = receive p b

  pub moves : MapChan A → List (MapMove A) → MapChan A
  moves b [] = b
  moves b (m ∷ ms) = moves (move b m) ms
