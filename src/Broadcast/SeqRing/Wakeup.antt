-- ===== src/Broadcast/SeqRing/Wakeup.antt =====
-- No wakeup is lost: a subscription that sleeps while there is something to read will be woken.
use ws_chat.Base.{
  ℕ, ◌+◌, ◌≤◌, ◌<◌, ◌≡◌, ◌≢◌, refl, List, [], ◌∷◌, Option, none, some, length, arith, Bool, true,
  false, ltb, eqb, if_rule, ◌⊎◌, ◌&&◌, ltb→lt,
}
use ws_chat.Broadcast.Errors.{Err, lagged, closed}
use ws_chat.Broadcast.SeqRing.{
  System, Writer, free, begun, counting, swapping, closing, Reader, fresh, subscribing, idle, top,
  loading, empty, capturing, captured, registered, rechecking, asleep, leaving, copying, panicked,
  Move, broadcast, close, write, read, sub_close, subscribe, other_in, other_out, fire, recv, init,
  begin_broadcast, begin_close, write_step, lock_for, finish_once, finish, copy_slot, validate,
  copy_step, lag, load_published, sub64, read_step, begin_subscribe, begin_recv, close_sub, step,
  run,
}

module _ {ℓ} {A : Type ℓ} where
  -- The subscription's own registration in `waiters`.
  abbrev pub own : Reader A → ℕ
  own (registered g) = 1
  own (rechecking g) = 1
  own (asleep g) = 1
  own leaving = 1
  own r = 0

  -- The writer will look at `waiters`, or swap `notify` in any case.
  abbrev pub Busy : Writer A → Type 0
  Busy counting = Unit
  Busy swapping = Unit
  Busy closing = Unit
  Busy w = ⊥

  -- `p` is `published`, `g` the channel that the subscription holds, `n` the one stored now.
  abbrev Awake : ℕ → ℕ → ℕ → Bool → Writer A → Reader A → Type 0
  Awake n p pos shut w (captured g) = g ≤ n
  Awake n p pos shut w (registered g) = g ≤ n
  Awake n p pos shut w (rechecking g) = (g ≤ n) × ((p ≡ pos) ⊎ ((g < n) ⊎ Busy w))
  Awake n p pos shut w (asleep g) = (g ≤ n) × (((p ≡ pos) × (shut ≡ false)) ⊎ ((g < n) ⊎ Busy w))
  Awake n p pos shut w r = Unit

  record Wake (s : System A) : Type 0 where
    counted : s.waiters ≡ s.others + own s.reader
    awake : Awake s.notify s.published s.pos s.shut s.writer s.reader

  write-Wake :
      (s : System A) (w : Writer A) (r : Reader A)
      → s.writer ≡ w
      → s.reader ≡ r
      → Wake s
      → Wake (write_step s w)
  unfolding write_step
  write-Wake s free r e f i = i
  write-Wake s (begun m) (asleep g) e f i = ground arith
  write-Wake s w r e f i = ground arith

  begin_broadcast-Wake :
      (s : System A) (m : A) (r : Reader A)
      → s.writer ≡ free
      → s.reader ≡ r
      → Wake s
      → Wake (begin_broadcast s m)
  unfolding begin_broadcast
  begin_broadcast-Wake s m fresh e f i = ground arith
  begin_broadcast-Wake s m r e f i = ground arith

  begin_close-Wake :
      (s : System A) (r : Reader A) → s.writer ≡ free → s.reader ≡ r → Wake s → Wake (begin_close s)
  unfolding begin_close
  begin_close-Wake s fresh e f i = ground arith
  begin_close-Wake s r e f i = ground arith

  -- `finish` touches neither the registration nor what it waits for.
  finish_once-Wake : (s : System A) (o : Option Err) (e : Err) → Wake s → Wake (finish_once o s e)
  unfolding finish_once
  finish_once-Wake s none e i = record { counted = i.counted; awake = i.awake }
  finish_once-Wake s (some _) e i = i

  finish-Wake : (s : System A) (e : Err) → Wake s → Wake (finish s e)
  unfolding finish
  finish-Wake s e i = finish_once-Wake s s.err e i

  copy_slot-Wake :
      (s : System A) (end start : ℕ) (xs : List A) (o : Option A)
      → s.reader ≡ copying end start xs
      → Wake s
      → Wake (copy_slot s end start xs o)
  unfolding copy_slot
  copy_slot-Wake s end start xs none e i = ground arith
  copy_slot-Wake s end start xs (some x) e i = ground arith

  load-Wake : (s : System A) → s.reader ≡ loading → Wake s → Wake (load_published s)
  unfolding load_published lag
  load-Wake s e i =
      if_rule Wake (eqb s.published s.pos) (λ _. ground arith)
        λ _.
          if_rule Wake (ltb (s.mask + 1) (sub64 s.published s.pos))
            (λ _. finish-Wake _ lagged (ground arith)) (λ _. ground arith)

  copy-Wake :
      (s : System A) (end start : ℕ) (xs : List A)
      → s.reader ≡ copying end start xs
      → Wake s
      → Wake (copy_step s end start xs)
  unfolding copy_step validate
  copy-Wake s end start xs e i =
      if_rule Wake (ltb s.pos end && ltb (length xs) s.room)
        (λ _. copy_slot-Wake s end start xs _ e i)
        λ _.
          if_rule Wake (ltb (s.mask + 1) (sub64 s.begin start)) (λ _. ground arith)
            (λ _. ground arith)

  read-Wake : (s : System A) (r : Reader A) → s.reader ≡ r → Wake s → Wake (read_step s r)
  unfolding read_step
  read-Wake s fresh e i = i
  read-Wake s subscribing e i = ground arith
  read-Wake s idle e i = i
  read-Wake s top e i = ground arith
  read-Wake s loading e i = load-Wake s e i
  read-Wake s empty e i =
      if_rule Wake s.shut (λ _. finish-Wake _ closed (ground arith)) (λ _. ground arith)
  read-Wake s capturing e i = ground arith
  read-Wake s (captured g) e i = ground arith
  read-Wake s (registered g) e i = ground arith
  read-Wake s (rechecking g) e i = ground arith
  read-Wake s (asleep g) e i = ground arith
  read-Wake s leaving e i = ground arith
  read-Wake s panicked e i = i
  read-Wake s (copying end start xs) e i = copy-Wake s end start xs e i

  begin_subscribe-Wake :
      (s : System A) (r : Reader A) → s.reader ≡ r → Wake s → Wake (begin_subscribe s r)
  unfolding begin_subscribe
  begin_subscribe-Wake s fresh e i =
      if_rule Wake s.shut (λ _. finish-Wake _ closed (ground arith)) (λ _. ground arith)
  begin_subscribe-Wake s idle e i = i
  begin_subscribe-Wake s r e i = i

  begin_recv-Wake :
      (s : System A) (r : Reader A) (n : ℕ) → s.reader ≡ r → Wake s → Wake (begin_recv s r n)
  unfolding begin_recv
  begin_recv-Wake s idle n e i = ground arith
  begin_recv-Wake s fresh n e i = i
  begin_recv-Wake s r n e i = i

  close_sub-Wake : (s : System A) (r : Reader A) → Wake s → Wake (close_sub s r)
  unfolding close_sub
  close_sub-Wake s fresh i = i
  close_sub-Wake s subscribing i = i
  close_sub-Wake s idle i = finish-Wake s closed i
  close_sub-Wake s r i = finish-Wake s closed i

  lock-Wake : (s t : System A) (w : Writer A) → (w ≡ free → Wake t) → Wake s → Wake (lock_for s w t)
  unfolding lock_for
  lock-Wake s t free h i = h refl
  lock-Wake s t (begun m) h i = i
  lock-Wake s t w h i = i

  step-Wake : (s : System A) (m : Move A) → Wake s → Wake (step s m)
  unfolding step
  step-Wake s (broadcast m) i =
      lock-Wake s _ s.writer (λ e. begin_broadcast-Wake s m s.reader e refl i) i
  step-Wake s close i = lock-Wake s _ s.writer (λ e. begin_close-Wake s s.reader e refl i) i
  step-Wake s write i = write-Wake s s.writer s.reader refl refl i
  step-Wake s read i = read-Wake s s.reader refl i
  step-Wake s sub_close i = close_sub-Wake s s.reader i
  step-Wake s subscribe i = begin_subscribe-Wake s s.reader refl i
  step-Wake s other_in i = record { counted = omega (arith, i.counted); awake = i.awake }
  step-Wake s other_out i =
      if_rule Wake (ltb 0 s.others)
        (λ more. record { counted = omega (arith, i.counted, ltb→lt _ _ more); awake = i.awake })
        (λ _. i)
  step-Wake s (fire g) i =
      if_rule Wake (ltb g s.notify) (λ _. record { counted = i.counted; awake = i.awake }) (λ _. i)
  step-Wake s (recv n) i = begin_recv-Wake s s.reader n refl i

  run-Wake : (s : System A) (ms : List (Move A)) → Wake s → Wake (run s ms)
  unfolding run
  run-Wake s [] i = i
  run-Wake s (m ∷ ms) i = run-Wake (step s m) ms (step-Wake s m i)

  init-Wake : (k : ℕ) → Wake (init {A = A} k)
  unfolding init
  init-Wake k = record { counted = refl; awake = tt }

  -- In every interleaving: if the subscription sleeps on channel `g` while no writer is at work, and
  -- there is a message that it has not read or the ring is closed, then a writer has swapped `g`
  -- out of `notify`.
  pub asleep-swapped :
      (k : ℕ) (ms : List (Move A)) (g : ℕ)
      → (run (init {A = A} k) ms).reader ≡ asleep g
      → (run (init {A = A} k) ms).writer ≡ free
      → ((run (init {A = A} k) ms).published ≢ (run (init {A = A} k) ms).pos)
        ⊎ ((run (init {A = A} k) ms).shut ≡ true)
      → g < (run (init {A = A} k) ms).notify
  asleep-swapped k ms g r w waiting =
      let i = run-Wake (init {A = A} k) ms (init-Wake k) in ground (arith, i.awake)
