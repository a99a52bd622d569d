-- ===== src/Server/Pumps/Stopping.antt =====
-- A pump whose ring is closed returns, whatever becomes of its writes.
use ws_chat.Base.{
  ℕ, zero, suc, ◌*◌, ◌≤◌, ◌≡◌, refl, true, false, Option, none, some, ◌⊎◌, inl, inr, List, [], ◌∷◌,
  eqb, if_rule, length, arith, text_keyed,
}
use ws_chat.Config.{bound}
use ws_chat.Broadcast.Capacity.{ring_capacity}
use ws_chat.Server.State.{App}
use ws_chat.Server.Pumps.{
  Pump, ring_of, Received, got, too_slow, at_end, blocked, overrun, recv_ring, recv, on_received,
  pump_round,
}
use ws_chat.Server.Pumps.Progress.{behind, is_open, batch_of, batch-behind}

-- One round for each of these outcomes of its write.
abbrev pub tries : List (Option ℕ) → App → Pump → App × Pump
tries [] a pu = (a, pu)
tries (w ∷ ws) a pu = let round = pump_round w a pu in tries ws round.0 round.1

tries-stopped :
    (ws : List (Option ℕ)) (a : App) (pu : Pump)
    → pu.stopped ≡ true
    → (tries ws a pu).1.stopped ≡ true
unfolding pump_round
tries-stopped [] a pu h = h
tries-stopped (w ∷ ws) a pu h =
    if_rule (λ (r : App × Pump). (tries ws r.0 r.1).1.stopped ≡ true) pu.stopped
      (λ _. tries-stopped ws a pu h) (λ runs. absurd (ground (arith, h, runs)))

-- With a closed ring `Recv` does not block, and it has a batch only when there is one.
abbrev Moves : App → Pump → Received → Type 0
Moves a pu (got batch) = (batch ≡ batch_of a pu) × (eqb (behind a pu) 0 ≡ false)
Moves a pu too_slow = Unit
Moves a pu at_end = Unit
Moves a pu blocked = ⊥

recv-Moves : (a : App) (pu : Pump) → (ring_of a pu).shut ≡ true → Moves a pu (recv a pu)
unfolding recv recv_ring
recv-Moves a pu shut =
    let r = ring_of a pu in
    if_rule (Moves a pu) (is_open a pu)
      (λ _.
        if_rule (Moves a pu) (eqb (behind a pu) 0)
          (λ _. if_rule (Moves a pu) r.shut (λ _. tt) (λ no. absurd (ground (arith, shut, no))))
          (λ some_left.
            if_rule (Moves a pu) (overrun (ring_capacity (bound a.cfg.capacity)) (behind a pu))
              (λ _. tt) (λ _. (refl, some_left))))
      (λ _. tt)

-- A pump has returned, or there are at most `n` batches for it in a closed ring.
abbrev Nearer : ℕ → App × Pump → Type 0
Nearer n (a, pu) =
    (pu.stopped ≡ true)
    ⊎ (((ring_of a pu).shut ≡ true) × (behind a pu ≤ n * bound a.cfg.write_batch))

-- A round that does not make the pump return takes a batch off.
on_received-Nearer :
    (w : Option ℕ) (n : ℕ) (a : App) (pu : Pump) (r : Received)
    → Moves a pu r
    → (ring_of a pu).shut ≡ true
    → behind a pu ≤ suc n * bound a.cfg.write_batch
    → Nearer n (on_received w a pu r)
unfolding on_received
on_received-Nearer w n a pu blocked none_such shut le = absurd none_such
on_received-Nearer w n a pu at_end h shut le = inl refl
on_received-Nearer w n a pu too_slow h shut le = inl refl
on_received-Nearer (some k) n a pu (got batch) h shut le = inl refl
on_received-Nearer none n a pu (got batch) (e, some_left) shut le =
    rw e (inr (shut, batch-behind n a pu le))

-- With nothing left it returns.
on_received-last :
    (w : Option ℕ) (a : App) (pu : Pump) (r : Received)
    → Moves a pu r
    → behind a pu ≤ 0
    → (on_received w a pu r).1.stopped ≡ true
unfolding on_received
on_received-last w a pu blocked none_such le = absurd none_such
on_received-last w a pu at_end h le = refl
on_received-last w a pu too_slow h le = refl
on_received-last w a pu (got batch) (e, some_left) le = absurd (ground (arith, some_left, le))

round-Nearer :
    (w : Option ℕ) (n : ℕ) (a : App) (pu : Pump)
    → (ring_of a pu).shut ≡ true
    → behind a pu ≤ suc n * bound a.cfg.write_batch
    → Nearer n (pump_round w a pu)
unfolding pump_round
round-Nearer w n a pu shut le =
    if_rule (Nearer n) pu.stopped (λ e. inl e)
      (λ _. on_received-Nearer w n a pu (recv a pu) (recv-Moves a pu shut) shut le)

round-last :
    (w : Option ℕ) (a : App) (pu : Pump)
    → (ring_of a pu).shut ≡ true
    → behind a pu ≤ 0
    → (pump_round w a pu).1.stopped ≡ true
unfolding pump_round
round-last w a pu shut le =
    if_rule (λ (r : App × Pump). r.1.stopped ≡ true) pu.stopped (λ e. e)
      (λ _. on_received-last w a pu (recv a pu) (recv-Moves a pu shut) le)

pub tries-stops :
    (ws : List (Option ℕ)) (n : ℕ) (a : App) (pu : Pump)
    → length ws ≡ suc n
    → (ring_of a pu).shut ≡ true
    → behind a pu ≤ n * bound a.cfg.write_batch
    → (tries ws a pu).1.stopped ≡ true
tries-stops [] n a pu size shut le = absurd (omega (arith, size))
tries-stops (w ∷ ws) zero a pu size shut le =
    let round = pump_round w a pu in
    tries-stopped ws round.0 round.1 (round-last w a pu shut (omega (arith, le)))
tries-stops (w ∷ ws) (suc n) a pu size shut le =
    let round = pump_round w a pu in
    elim (round-Nearer w n a pu shut le) [
      | inl ended ↦ tries-stopped ws round.0 round.1 ended
      | inr (shut_still, fewer) ↦
          tries-stops ws n round.0 round.1 (omega (arith, size)) shut_still fewer
    ]
