-- ===== src/Broadcast/SeqRing/Growth.antt =====
-- The log of what was broadcast only grows.
use ws_chat.Base.{
  ℕ, ◌+◌, ◌≤◌, List, [], ◌∷◌, Option, none, some, length, arith, length-append, ltb, eqb, if_rule,
  ◌&&◌,
}
use ws_chat.Broadcast.Errors.{Err, lagged, closed}
use ws_chat.Broadcast.SeqRing.{
  System, Writer, free, Reader, fresh, subscribing, idle, loading, empty, copying, Move, broadcast,
  close, write, read, sub_close, subscribe, other_in, other_out, fire, recv, begin_broadcast,
  begin_close, write_step, finish_once, finish, copy_slot, validate, copy_step, lag, load_published,
  sub64, read_step, begin_subscribe, begin_recv, close_sub, step, run,
}
use ws_chat.Broadcast.SeqRing.Moves.{lock_rule}

module _ {ℓ} {A : Type ℓ} where
  -- The history only grows.
  abbrev pub Grows : System A → System A → Type 0
  Grows s t = length s.log ≤ length t.log

  pub finish_once-Grows :
      (s t : System A) (o : Option Err) (e : Err) → Grows s t → Grows s (finish_once o t e)
  unfolding finish_once
  finish_once-Grows s t none e h = h
  finish_once-Grows s t (some _) e h = h

  pub finish-Grows : (s t : System A) (e : Err) → Grows s t → Grows s (finish t e)
  unfolding finish
  finish-Grows s t e h = finish_once-Grows s t t.err e h

  pub copy_slot-Grows :
      (s : System A) (end start : ℕ) (xs : List A) (o : Option A)
      → Grows s (copy_slot s end start xs o)
  unfolding copy_slot
  copy_slot-Grows s end start xs none = omega arith
  copy_slot-Grows s end start xs (some x) = omega arith

  pub read-Grows : (s : System A) (r : Reader A) → Grows s (read_step s r)
  unfolding read_step load_published lag copy_step validate
  read-Grows s loading =
      if_rule (Grows s) (eqb s.published s.pos) (λ _. omega arith)
        λ _.
          if_rule (Grows s) (ltb (s.mask + 1) (sub64 s.published s.pos))
            (λ _. finish-Grows s _ lagged (omega arith)) (λ _. omega arith)
  read-Grows s empty =
      if_rule (Grows s) s.shut (λ _. finish-Grows s _ closed (omega arith)) (λ _. omega arith)
  read-Grows s (copying end start xs) =
      if_rule (Grows s) (ltb s.pos end && ltb (length xs) s.room)
        (λ _. copy_slot-Grows s end start xs _)
        λ _.
          if_rule (Grows s) (ltb (s.mask + 1) (sub64 s.begin start)) (λ _. omega arith)
            (λ _. omega arith)
  read-Grows s r = omega arith

  pub write-Grows : (s : System A) (w : Writer A) → Grows s (write_step s w)
  unfolding write_step
  write-Grows s free = omega arith
  write-Grows s w = omega arith

  pub begin_subscribe-Grows : (s : System A) (r : Reader A) → Grows s (begin_subscribe s r)
  unfolding begin_subscribe
  begin_subscribe-Grows s fresh =
      if_rule (Grows s) s.shut (λ _. finish-Grows s _ closed (omega arith)) (λ _. omega arith)
  begin_subscribe-Grows s idle = omega arith
  begin_subscribe-Grows s r = omega arith

  pub begin_recv-Grows : (s : System A) (r : Reader A) (n : ℕ) → Grows s (begin_recv s r n)
  unfolding begin_recv
  begin_recv-Grows s idle n = if_rule (Grows s) (eqb n 0) (λ _. omega arith) (λ _. omega arith)
  begin_recv-Grows s fresh n = omega arith
  begin_recv-Grows s r n = omega arith

  pub close_sub-Grows : (s : System A) (r : Reader A) → Grows s (close_sub s r)
  unfolding close_sub
  close_sub-Grows s fresh = omega arith
  close_sub-Grows s subscribing = omega arith
  close_sub-Grows s idle = finish-Grows s s closed (omega arith)
  close_sub-Grows s r = finish-Grows s s closed (omega arith)

  pub step-Grows : (s : System A) (m : Move A) → Grows s (step s m)
  unfolding step begin_broadcast begin_close
  step-Grows s (broadcast m) =
      lock_rule (Grows s) s _ s.writer
        (λ _.
          if_rule (Grows s) s.shut (λ _. omega arith)
            (λ _. omega (arith, length-append s.log (m ∷ []))))
        (omega arith)
  step-Grows s close =
      lock_rule (Grows s) s _ s.writer
        (λ _. if_rule (Grows s) s.shut (λ _. omega arith) (λ _. omega arith)) (omega arith)
  step-Grows s write = write-Grows s s.writer
  step-Grows s read = read-Grows s s.reader
  step-Grows s sub_close = close_sub-Grows s s.reader
  step-Grows s subscribe = begin_subscribe-Grows s s.reader
  step-Grows s other_in = omega arith
  step-Grows s other_out = if_rule (Grows s) (ltb 0 s.others) (λ _. omega arith) (λ _. omega arith)
  step-Grows s (fire g) = if_rule (Grows s) (ltb g s.notify) (λ _. omega arith) (λ _. omega arith)
  step-Grows s (recv n) = begin_recv-Grows s s.reader n

  pub run-Grows : (s : System A) (ms : List (Move A)) → Grows s (run s ms)
  unfolding run
  run-Grows s [] = omega arith
  run-Grows s (m ∷ ms) = omega (arith, step-Grows s m, run-Grows (step s m) ms)
