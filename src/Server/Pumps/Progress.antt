-- ===== src/Server/Pumps/Progress.antt =====
-- A pump that is left to run writes all that is in its ring.
use ws_chat.Base.{
  ℕ, zero, suc, ◌+◌, ◌-◌, ◌*◌, ◌^◌, ◌≤◌, ◌≡◌, refl, ap, subst, sym, ◌∙◌, Bool, Bool-cases, inl, inr,
  true, false, Option, none, some, List, [], ◌∷◌, ◌++◌, append-nil, append_assoc, eqb, ltb,
  if◌then◌else◌, if_rule, length, length-take, length-drop, drop-all, take, drop, Text, text_keyed,
  arith,
}
use ws_chat.Base.Dict.{lookup}
use native.Mathlib.Nat.{add-mul}
use ws_chat.Config.{Config, bound}
use ws_chat.Broadcast.Capacity.{ring_capacity, ring_capacity-power}
use ws_chat.Broadcast.Errors.{default_buffer}
use ws_chat.Server.State.{Conn, App, set_at}
use ws_chat.Server.Membership.{is_mine}
use ws_chat.Server.Pumps.{
  Pump, ring_of, Received, got, too_slow, at_end, blocked, overrun, recv_ring, recv, stop,
  write_out, on_received, pump_round,
}

-- Rounds without a failing write, while nothing else happens.
abbrev pub pump_rounds : ℕ → App → Pump → App × Pump
pump_rounds zero a pu = (a, pu)
pump_rounds (suc n) a pu = let round = pump_round none a pu in pump_rounds n round.0 round.1

-- What is in the ring and not written.
abbrev pub pending : App → Pump → List Text
pending a pu = drop pu.pos (ring_of a pu).log

module _ {A : Type 0} where
  take-append-drop : (n : ℕ) (xs : List A) → take n xs ++ drop n xs ≡ xs
  take-append-drop zero xs = refl
  take-append-drop (suc n) [] = refl
  take-append-drop (suc n) (x ∷ xs) = ap (λ l. x ∷ l) (take-append-drop n xs)

  drop-drop : (n s : ℕ) (xs : List A) → drop n (drop s xs) ≡ drop (s + n) xs
  drop-drop n zero xs = let same : 0 + n ≡ n = omega arith in rw same refl
  drop-drop n (suc s) [] =
      let same : suc s + n ≡ suc (s + n) = omega arith in rw same (drop-all {0} n [] (omega arith))
  drop-drop n (suc s) (x ∷ xs) =
      let same : suc s + n ≡ suc (s + n) = omega arith in rw same (drop-drop n s xs)

  drop-length-take : (n : ℕ) (xs : List A) → drop (length (take n xs)) xs ≡ drop n xs
  drop-length-take zero xs = refl
  drop-length-take (suc n) [] = refl
  drop-length-take (suc n) (x ∷ xs) = drop-length-take n xs

-- Whether the subscription of a pump is still open.
abbrev pub is_open : App → Pump → Bool
is_open a pu = is_mine pu.member.stamp (lookup pu.name (a.conn_at pu.who).memberships)

abbrev pub behind : App → Pump → ℕ
behind a pu = length (ring_of a pu).log - pu.pos

abbrev pub slots_of : App → Option ℕ
slots_of a = ring_capacity (bound a.cfg.capacity)

overrun-le :
    (slots : Option ℕ) (n m : ℕ) → overrun slots m ≡ false → n ≤ m → overrun slots n ≡ false
overrun-le none n m h le = refl
overrun-le (some k) n m h le = ground arith

set_at-here : {A : Type 0} (p : ℕ) (v : A) (at : ℕ → A) → set_at p v at p ≡ v
set_at-here p v at = if_rule (λ x. x ≡ v) (eqb p p) (λ _. refl) (λ no. absurd (ground arith))

-- With nothing in the ring a round writes nothing.
abbrev Still : Received → Type 0
Still (got batch) = ⊥
Still too_slow = ⊥
Still at_end = Unit
Still blocked = Unit

recv-Still : (a : App) (pu : Pump) → behind a pu ≡ 0 → Still (recv a pu)
unfolding recv recv_ring
recv-Still a pu h =
    let r = ring_of a pu in
    if_rule Still (is_open a pu)
      (λ _.
        if_rule Still (eqb (length r.log - pu.pos) 0)
          (λ _. if_rule Still r.shut (λ _. tt) (λ _. tt)) (λ no. absurd (ground (arith, h, no))))
      (λ _. tt)

-- What was written, and what the connection was sent.
abbrev pub Wrote : ℕ → List Text → List Text → App × Pump → Type 0
Wrote c wrote sent end = (end.1.wrote ≡ wrote) × ((end.0.conn_at c).sent ≡ sent)

after-Still :
    (n : ℕ) (a : App) (pu : Pump) (r : Received)
    → Still r
    → Wrote pu.who pu.wrote (a.conn_at pu.who).sent (pump_rounds n a pu)
    → Wrote pu.who pu.wrote (a.conn_at pu.who).sent (pump_rounds n a (stop pu))
    → Wrote pu.who pu.wrote
        (a.conn_at pu.who).sent
        (pump_rounds n (on_received none a pu r).0 (on_received none a pu r).1)
unfolding on_received
after-Still n a pu (got batch) none_such on off = absurd none_such
after-Still n a pu too_slow none_such on off = absurd none_such
after-Still n a pu at_end still on off = off
after-Still n a pu blocked still on off = on

pump_rounds-still :
    (n : ℕ) (a : App) (pu : Pump)
    → behind a pu ≡ 0
    → Wrote pu.who pu.wrote (a.conn_at pu.who).sent (pump_rounds n a pu)
unfolding pump_round
pump_rounds-still zero a pu h = (refl, refl)
pump_rounds-still (suc n) a pu h =
    let on = pump_rounds-still n a pu h in
    let off = pump_rounds-still n a (stop pu) h in
    if_rule
      (λ (r : App × Pump). Wrote pu.who pu.wrote (a.conn_at pu.who).sent (pump_rounds n r.0 r.1))
      pu.stopped (λ _. on) (λ _. after-Still n a pu (recv a pu) (recv-Still a pu h) on off)

pub round-got :
    (a : App) (pu : Pump)
    → pu.stopped ≡ false
    → is_open a pu ≡ true
    → overrun (slots_of a) (behind a pu) ≡ false
    → eqb (behind a pu) 0 ≡ false
    → pump_round none a pu ≡ (
      write_out pu.who (take (bound a.cfg.write_batch) (pending a pu)) a,
      record pu {
        wrote = pu.wrote ++ take (bound a.cfg.write_batch) (pending a pu);
        pos = pu.pos + length (take (bound a.cfg.write_batch) (pending a pu));
        stopped = false;
      },
    )
unfolding pump_round recv recv_ring on_received
round-got a pu runs opened kept some_left = rw (runs, opened, some_left, kept) refl

-- What is left after a round.
pending-got :
    (a : App) (pu : Pump) (k : ℕ)
    → drop (pu.pos + length (take k (pending a pu))) (ring_of a pu).log ≡ drop k (pending a pu)
pending-got a pu k =
    let out = take k (pending a pu) in
    sym (drop-drop (length out) (pu.pos) (ring_of a pu).log) ∙ drop-length-take k (pending a pu)

nothing_pending : (a : App) (pu : Pump) (xs : List Text) → behind a pu ≡ 0 → xs ≡ xs ++ pending a pu
nothing_pending a pu xs h =
    let empty = drop-all {0} (pu.pos) (ring_of a pu).log (omega (arith, h)) in
    rw empty (sym (append-nil xs))

-- The first part of what is pending, and then the rest.
in_two : (xs l rest : List Text) (k : ℕ) → rest ≡ drop k l → (xs ++ take k l) ++ rest ≡ xs ++ l
in_two xs l rest k e =
    ap (λ r. (xs ++ take k l) ++ r) e
    ∙ append_assoc xs (take k l) (drop k l)
    ∙ ap (λ r. xs ++ r) (take-append-drop k l)

-- What a pump writes in one round, and where that leaves it.
abbrev pub batch_of : App → Pump → List Text
batch_of a pu = take (bound a.cfg.write_batch) (pending a pu)

abbrev pub app_after : App → Pump → App
app_after a pu = write_out pu.who (batch_of a pu) a

abbrev pub pump_after : App → Pump → Pump
pump_after a pu = record pu {
  wrote = pu.wrote ++ batch_of a pu;
  pos = pu.pos + length (batch_of a pu);
  stopped = false;
}

conn_after :
    (a : App) (pu : Pump)
    → (app_after a pu).conn_at pu.who
      ≡ record (a.conn_at pu.who) { sent = (a.conn_at pu.who).sent ++ batch_of a pu }
conn_after a pu =
    set_at-here pu.who
      (record (a.conn_at pu.who) { sent = (a.conn_at pu.who).sent ++ batch_of a pu }) a.conn_at

pub batch-behind :
    (n : ℕ) (a : App) (pu : Pump)
    → behind a pu ≤ suc n * bound a.cfg.write_batch
    → behind (app_after a pu) (pump_after a pu) ≤ n * bound a.cfg.write_batch
batch-behind n a pu le =
    let k = bound a.cfg.write_batch in
    let most = length-take {0} k (pending a pu) in
    let all = length-drop {0} (pu.pos) (ring_of a pu).log in
    omega (arith, most, all, le, add-mul n 1 k)

batch-leaves :
    (a : App) (pu : Pump)
    → is_open a pu ≡ true
    → overrun (slots_of a) (behind a pu) ≡ false
    → (is_open (app_after a pu) (pump_after a pu) ≡ true)
      × (overrun (slots_of a) (behind (app_after a pu) (pump_after a pu)) ≡ false)
batch-leaves a pu opened kept =
    let fewer : behind (app_after a pu) (pump_after a pu) ≤ behind a pu = omega arith in
    (
      ap (λ (s : Conn). is_mine pu.member.stamp (lookup pu.name s.memberships)) (conn_after a pu)
          ∙ opened,
      overrun-le (slots_of a) _ _ kept fewer,
    )

pump_rounds-kept :
    (n : ℕ) (a : App) (pu : Pump)
    → pu.stopped ≡ false
    → is_open a pu ≡ true
    → overrun (slots_of a) (behind a pu) ≡ false
    → behind a pu ≤ n * bound a.cfg.write_batch
    → Wrote pu.who
        (pu.wrote ++ pending a pu)
        ((a.conn_at pu.who).sent ++ pending a pu)
        (pump_rounds n a pu)
pump_rounds-kept zero a pu runs opened kept le = (
  nothing_pending a pu pu.wrote (omega (arith, le)),
  nothing_pending a pu (a.conn_at pu.who).sent (omega (arith, le)),
)
pump_rounds-kept (suc n) a pu runs opened kept le =
    let k = bound a.cfg.write_batch in
    let b = app_after a pu in
    let q = pump_after a pu in
    let sent = ap (λ (s : Conn). s.sent) (conn_after a pu) in
    let left = pending-got a pu k in
    let (open_still, kept_still) = batch-leaves a pu opened kept in
    let rest = pump_rounds-kept n b q refl open_still kept_still (batch-behind n a pu le) in
    elim (Bool-cases (eqb (behind a pu) 0)) [
      | inl empty ↦
          let still = pump_rounds-still (suc n) a pu (ground (arith, empty)) in
          (
            still.0 ∙ nothing_pending a pu pu.wrote (ground (arith, empty)),
            still.1 ∙ nothing_pending a pu (a.conn_at pu.who).sent (ground (arith, empty)),
          )
      | inr some_left ↦
          subst
            (λ r.
              Wrote pu.who (pu.wrote ++ pending a pu) ((a.conn_at pu.who).sent ++ pending a pu)
                (pump_rounds n r.0 r.1))
            (sym (round-got a pu runs opened kept some_left))
            (
              rest.0 ∙ in_two pu.wrote (pending a pu) (pending b q) k left,
              rest.1
                  ∙ ap (λ l. l ++ pending b q) sent
                  ∙ in_two (a.conn_at pu.who).sent (pending a pu) (pending b q) k left,
            )
    ]

-- The capacity that is set for a ring.
abbrev pub allowance : Config → ℕ
allowance cfg = if ltb (bound cfg.capacity) 1 then default_buffer else bound cfg.capacity

-- A ring of a capacity up to `2 ^ 62` has that many slots, or the default's.
pub enough_slots :
    (n m : ℕ)
    → n ≤ 2 ^ 62
    → m ≤ (if ltb n 1 then default_buffer else n)
    → overrun (ring_capacity n) m ≡ false
enough_slots n m small le =
    let (k, e, low, high) = ring_capacity-power n small in rw e (ground (arith, low, le))

-- A pump that runs, whose subscription is open, and that is behind by no more than the capacity set
-- for its ring (at most 2 ^ 62; 256 if none is set), with writes that all succeed: `n` rounds in a
-- row write to its connection, in order, all that is in its ring and was not written, and no more,
-- if `n` batches are enough for it.
pub pump_rounds-all :
    (n : ℕ) (a : App) (pu : Pump)
    → pu.stopped ≡ false
    → is_open a pu ≡ true
    → bound a.cfg.capacity ≤ 2 ^ 62
    → behind a pu ≤ allowance a.cfg
    → behind a pu ≤ n * bound a.cfg.write_batch
    → Wrote pu.who
        (pu.wrote ++ pending a pu)
        ((a.conn_at pu.who).sent ++ pending a pu)
        (pump_rounds n a pu)
pump_rounds-all n a pu runs opened small kept le =
    pump_rounds-kept n a pu runs opened
      (enough_slots (bound a.cfg.capacity) (behind a pu) small kept) le
