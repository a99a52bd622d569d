-- ===== src/Broadcast/MutexRing/Tests.antt =====
-- Runs of the ring behind a lock, and its guarantees at them.
use ws_chat.Base.{
  ℕ, ◌+◌, ◌^◌, ◌<◌, ◌≡◌, ◌⊎◌, false, refl, List, [], ◌∷◌, some, none, length, get_elem?, arith,
}
use ws_chat.Broadcast.Errors.{closed, lagged}
use ws_chat.Broadcast.SeqRing.Guarantees.{IsStretch}
use ws_chat.Broadcast.MutexRing.{
  Ring, RingSub, idle, locking, parked, RingMove, broadcasts, closes, subscribes, reads, receives,
  fires, new_ring, broadcast, close, subscribe, finish, copy, batch, read_locked, read, receive,
  move, moves,
}
use ws_chat.Broadcast.MutexRing.Guarantees.{
  reading, delivered-in_order, parked-woken, reads-reading,
}

abbrev reached : List (RingMove ℕ) → Ring ℕ
reached ms = moves (new_ring 0 1) ms

-- Three messages for a subscription in a ring of two slots.
abbrev overrun : List (RingMove ℕ)
overrun =
    subscribes
    ∷ broadcasts 4
    ∷ broadcasts 5
    ∷ broadcasts 6
    ∷ receives 0 8
    ∷ reads 0
    ∷ reads 0
    ∷ reads 0
    ∷ reads 0
    ∷ []

-- One message before the subscription, two after it, and the reader before the lock.
abbrev two_ready : List (RingMove ℕ)
two_ready = broadcasts 4 ∷ subscribes ∷ broadcasts 5 ∷ broadcasts 6 ∷ receives 0 8 ∷ reads 0 ∷ []

abbrev sub_ready : RingSub ℕ
sub_ready = record { pos = 1; err = none; place = locking; room = 8; first = 1; delivered = [] }

abbrev sub_overrun : RingSub ℕ
sub_overrun = record {
  pos = 0;
  err = some lagged;
  place = idle;
  room = 8;
  first = 0;
  delivered = [];
}

abbrev sleeps : List (RingMove ℕ)
sleeps = subscribes ∷ receives 0 8 ∷ reads 0 ∷ reads 0 ∷ []

abbrev sub_asleep : RingSub ℕ
sub_asleep = record { pos = 0; err = none; place = parked 0; room = 8; first = 0; delivered = [] }

overrun_at : get_elem? (reached overrun).readers 0 ≡ some sub_overrun
unfolding moves move new_ring broadcast subscribe read read_locked batch copy receive finish
overrun_at = refl

overrun_small : length (reached overrun).log < 2 ^ 64
unfolding moves move new_ring broadcast subscribe read read_locked batch copy receive finish
overrun_small = omega arith

ready_at : get_elem? (reached two_ready).readers 0 ≡ some sub_ready
unfolding moves move new_ring broadcast subscribe read read_locked batch copy receive finish
ready_at = refl

ready_small : length (reached two_ready).log < 2 ^ 64
unfolding moves move new_ring broadcast subscribe read read_locked batch copy receive finish
ready_small = omega arith

asleep_at : get_elem? (reached sleeps).readers 0 ≡ some sub_asleep
unfolding moves move new_ring broadcast subscribe read read_locked batch copy receive finish
asleep_at = refl

asleep_small : length (reached sleeps).log < 2 ^ 64
unfolding moves move new_ring broadcast subscribe read read_locked batch copy receive finish
asleep_small = omega arith

-- A sleeper that is woken reads the message, and then the end of the ring.
woken_reads :
    get_elem?
      (reached (
        subscribes
        ∷ receives 0 8
        ∷ reads 0
        ∷ reads 0
        ∷ broadcasts 9
        ∷ fires 0
        ∷ closes
        ∷ reads 0
        ∷ reads 0
        ∷ reads 0
        ∷ reads 0
        ∷ receives 0 8
        ∷ reads 0
        ∷ reads 0
        ∷ reads 0
        ∷ [])).readers
      0
    ≡ some (record {
      pos = 1;
      err = some closed;
      place = idle;
      room = 8;
      first = 0;
      delivered = 9 ∷ [];
    })
unfolding moves move new_ring broadcast close subscribe read read_locked batch copy receive finish
woken_reads = refl

delivered-in_order_example :
    IsStretch 0 [] (reached overrun).log
    × (some lagged ≡ some lagged → 0 + 2 ^ 1 < length (reached overrun).log)
delivered-in_order_example = delivered-in_order 0 1 overrun 0 sub_overrun overrun_small overrun_at

parked-woken_example :
    (0 < (reached sleeps).notify)
    ⊎ ((0 ≡ (reached sleeps).notify)
        × (0 ≡ length (reached sleeps).log)
        × ((reached sleeps).shut ≡ false))
parked-woken_example = parked-woken 0 1 sleeps 0 0 sub_asleep asleep_small asleep_at refl

reads-reading_example :
    get_elem? (move (reached two_ready) (reads 0)).readers 0
    ≡ some (
        reading
          (2 ^ 1)
          (reached two_ready).log
          (reached two_ready).notify
          (reached two_ready).shut
          sub_ready)
reads-reading_example = reads-reading 0 1 two_ready 0 sub_ready ready_small ready_at refl
