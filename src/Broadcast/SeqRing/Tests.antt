-- ===== src/Broadcast/SeqRing/Tests.antt =====
-- Runs of the ring, and its guarantees at them.
use ws_chat.Base.{ℕ, ◌+◌, ◌^◌, ◌<◌, ◌≡◌, ◌≢◌, refl, inl, List, [], ◌∷◌, some, length, arith}
use ws_chat.Broadcast.Errors.{lagged}
use ws_chat.Broadcast.SeqRing.{
  Move, broadcast, write, read, subscribe, recv, panicked, init, begin_broadcast, write_step,
  lock_for, finish, lag, load_published, copy_slot, validate, copy_step, read_step, begin_subscribe,
  begin_recv, step, run,
}
use ws_chat.Broadcast.SeqRing.Guarantees.{
  IsStretch, delivered-IsStretch, reader-ne-panicked, lagged-behind,
}
use ws_chat.Broadcast.SeqRing.Wakeup.{asleep-swapped}

-- One whole `Broadcast` with nobody asleep.
abbrev sends : ℕ → List (Move ℕ) → List (Move ℕ)
sends m rest = broadcast m ∷ write ∷ write ∷ write ∷ rest

-- One message before the subscription, two after it, all in a ring of two slots.
abbrev two_read : List (Move ℕ)
two_read =
    sends 4 (subscribe ∷ read ∷ sends 5 (sends 6 (recv 8 ∷ read ∷ read ∷ read ∷ read ∷ read ∷ [])))

-- The writer laps the reader between its first copy and its check: the batch is copied again.
abbrev torn : List (Move ℕ)
torn =
    subscribe
    ∷ read
    ∷ sends 5 (recv 1 ∷ read ∷ read ∷ read ∷ sends 6 (sends 7 (read ∷ read ∷ read ∷ [])))

abbrev asleep_then_sent : List (Move ℕ)
asleep_then_sent =
    subscribe
    ∷ read
    ∷ recv 1
    ∷ read
    ∷ read
    ∷ read
    ∷ read
    ∷ read
    ∷ read
    ∷ read
    ∷ broadcast 5
    ∷ write
    ∷ write
    ∷ write
    ∷ write
    ∷ []

two_read_delivered : (run (init 1) two_read).delivered ≡ 5 ∷ 6 ∷ []
unfolding run step init begin_broadcast write_step lock_for read_step load_published copy_step
    copy_slot validate begin_subscribe begin_recv
two_read_delivered = refl

torn_lagged : (run (init 1) torn).err ≡ some lagged
unfolding run step init begin_broadcast write_step lock_for read_step load_published copy_step
    copy_slot validate begin_subscribe begin_recv lag finish
torn_lagged = refl

torn_delivered : (run (init 1) torn).delivered ≡ []
unfolding run step init begin_broadcast write_step lock_for read_step load_published copy_step
    copy_slot validate begin_subscribe begin_recv lag finish
torn_delivered = refl

delivered-IsStretch_example :
    IsStretch
      (run (init 1) two_read).first
      (run (init 1) two_read).delivered
      (run (init 1) two_read).log
unfolding run step init begin_broadcast write_step lock_for read_step load_published copy_step
    copy_slot validate begin_subscribe begin_recv
delivered-IsStretch_example = delivered-IsStretch 1 two_read (omega arith)

reader-ne-panicked_example : (run (init 1) torn).reader ≢ panicked
unfolding run step init begin_broadcast write_step lock_for read_step load_published copy_step
    copy_slot validate begin_subscribe begin_recv lag finish
reader-ne-panicked_example = reader-ne-panicked 1 torn (omega arith)

lagged-behind_example : (run (init 1) torn).pos + 2 ^ 1 < length (run (init 1) torn).log
unfolding run step init begin_broadcast write_step lock_for read_step load_published copy_step
    copy_slot validate begin_subscribe begin_recv lag finish
lagged-behind_example = lagged-behind 1 torn (omega arith) refl

asleep-swapped_example : 0 < (run (init 1) asleep_then_sent).notify
unfolding run step init begin_broadcast write_step lock_for read_step load_published copy_step
    copy_slot validate begin_subscribe begin_recv
asleep-swapped_example = asleep-swapped 1 asleep_then_sent 0 refl refl (inl (omega arith))
