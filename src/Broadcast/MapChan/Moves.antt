-- ===== src/Broadcast/MapChan/Moves.antt =====
-- broadcast.go: every move keeps the invariant of MapChan.
use ws_chat.Base.{
  ℕ, ◌+◌, ◌<◌, ◌≡◌, refl, ap, subst, ◌∙◌, false, Option, none, some, List, [], ◌∷◌, ◌++◌, eqb,
  if◌then◌else◌, if_rule, get_elem?, update, All, All-map, All-get, All-snoc, All-update, arith,
}
use ws_chat.Broadcast.MapChan.{
  MapSub, Thread, sending, dropping, MapChan, MapMove, broadcasts, subscribes, closes, runs, leaves,
  receives, new_sub, is_reading, subscribe, drop_all, run_thread, remove, close, thread_at, move,
  moves,
}
use ws_chat.Broadcast.MapChan.Invariant.{SubInv, ThreadInv, Member, Inv, quiet-ThreadInv}
use ws_chat.Broadcast.MapChan.Sending.{new-SubInv, write_rule, receive-Inv, sent-Inv}
use ws_chat.Broadcast.MapChan.Dropping.{remove-Inv, drop_all-Inv, close-Inv}

module _ {ℓ} {A : Type ℓ} where
  -- Another list of threads.
  threads-Inv :
      (ts : List (Thread A)) (b : MapChan A)
      → All (ThreadInv b.sub_at b.next) ts
      → Inv b
      → Inv (record b { threads = ts })
  threads-Inv ts b h i = record { each = i.each; members = i.members; running = h; calm = i.calm }

  run_thread-Inv :
      (t : ℕ) (x : Thread A) (b : MapChan A)
      → get_elem? b.threads t ≡ some x
      → Inv b
      → Inv (run_thread t x b)
  unfolding run_thread
  run_thread-Inv t (sending m [] slow) b at i =
      let h = All-get (ThreadInv b.sub_at b.next) t (sending m [] slow) b.threads i.running at in
      threads-Inv (update t (dropping slow) b.threads) b
        (All-update (ThreadInv b.sub_at b.next) t (dropping slow) b.threads i.running (h.1, tt)) i
  run_thread-Inv t (sending m (p ∷ ps) slow) b at i =
      let h =
        All-get (ThreadInv b.sub_at b.next) t (sending m (p ∷ ps) slow) b.threads i.running at in
      sent-Inv t p m ps slow b h.0 h.1 i
  run_thread-Inv t (dropping slow) b at i =
      let h = All-get (ThreadInv b.sub_at b.next) t (dropping slow) b.threads i.running at in
      write_rule b _ i (λ quiet.
        let d = drop_all-Inv slow b quiet h.0 i in
        threads-Inv (update t (dropping []) b.threads) (drop_all slow b)
          (All-update (ThreadInv (drop_all slow b).sub_at (drop_all slow b).next) t (dropping [])
            b.threads
            (subst (All (ThreadInv (drop_all slow b).sub_at (drop_all slow b).next)) d.1
              d.0.running)
            (tt, tt))
          d.0)

  subscribe-Inv : (b : MapChan A) → is_reading b.threads ≡ false → Inv b → Inv (subscribe b)
  unfolding subscribe
  subscribe-Inv b quiet i =
      let after = λ (q : ℕ). if eqb b.next q then new_sub b.shut else b.sub_at q in
      let older : (q : ℕ) → q < b.next → after q ≡ b.sub_at q = λ q h.
        if_rule (λ (x : MapSub A). x ≡ b.sub_at q) (eqb b.next q) (λ e. absurd (ground arith))
          (λ _. refl) in
      let each : (q : ℕ) → SubInv b.buf (after q) =
        λ q. if_rule (SubInv b.buf) (eqb b.next q) (λ _. new-SubInv b.buf b.shut) (λ _. i.each q) in
      let kept =
        All-map (Member b.sub_at b.next) (Member after (b.next + 1)) b.subs
          (λ q x. (ap (λ (s : MapSub A). s.ended) (older q x.1) ∙ x.0, omega (arith, x.1)))
          i.members in
      let running =
        quiet-ThreadInv b.next (b.next + 1) b.sub_at after b.threads quiet
          (λ q x. (ap (λ (s : MapSub A). s.was_full) (older q x.1) ∙ x.0, omega (arith, x.1)))
          i.running in
      if_rule Inv b.shut
        (λ _. record { each = each; members = kept; running = running; calm = i.calm })
        (λ still. record {
          each = each;
          members = ((ground (arith, still), omega arith), kept);
          running = running;
          calm = i.calm;
        })

  on-Inv :
      (o : Option (Thread A)) (f : Thread A → MapChan A) (b : MapChan A)
      → ((x : Thread A) → o ≡ some x → Inv (f x))
      → Inv b
      → Inv (thread_at o f b)
  on-Inv none f b h i = i
  on-Inv (some x) f b h i = h x refl

  move-Inv : (m : MapMove A) (b : MapChan A) → Inv b → Inv (move b m)
  unfolding move
  move-Inv (broadcasts m) b i =
      threads-Inv (b.threads ++ sending m b.subs [] ∷ []) b
        (All-snoc (ThreadInv b.sub_at b.next) b.threads (sending m b.subs []) i.running
          (i.members, tt))
        i
  move-Inv subscribes b i = write_rule b (subscribe b) i (λ quiet. subscribe-Inv b quiet i)
  move-Inv closes b i = write_rule b (close b) i (λ quiet. close-Inv b quiet i)
  move-Inv (runs t) b i =
      on-Inv (get_elem? b.threads t) (λ x. run_thread t x b) b (λ x at. run_thread-Inv t x b at i) i
  move-Inv (leaves p) b i = write_rule b (remove p b) i (λ quiet. remove-Inv p b quiet i)
  move-Inv (receives p) b i = receive-Inv p b i

  pub moves-Inv : (ms : List (MapMove A)) (b : MapChan A) → Inv b → Inv (moves b ms)
  unfolding moves
  moves-Inv [] b i = i
  moves-Inv (m ∷ ms) b i = moves-Inv ms (move b m) (move-Inv m b i)
