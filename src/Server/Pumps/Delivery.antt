-- ===== src/Server/Pumps/Delivery.antt =====
-- What the pumps write, over every interleaving with the server.
use ws_chat.Base.{
  ℕ, zero, suc, ◌+◌, ◌-◌, ◌≤◌, ◌≡◌, refl, ap, subst, sym, ◌∙◌, Bool, true, false, Option, none,
  some, ◌⊎◌, inl, inr, List, [], ◌∷◌, ◌++◌, eqb, if_rule, length, length-append, length-take,
  length-drop, take, drop, min, get_elem?, All, All-get, All-snoc, All-update, Text, text_keyed,
  arith,
}
use ws_chat.Base.Dict.{lookup}
use ws_chat.Config.{Config, bound}
use ws_chat.Broadcast.Capacity.{ring_capacity}
use ws_chat.Server.State.{Membership, Conn, App, set_conn}
use ws_chat.Server.Env.{Env}
use ws_chat.Server.Membership.{is_mine}
use ws_chat.Server.Run.{new_app}
use ws_chat.Server.Keeping.Commands.{on_event-P}
use ws_chat.Server.Pumps.{
  Pump, ring_of, Received, got, too_slow, at_end, blocked, overrun, recv_ring, recv, write_out,
  on_received, pump_round, priv_out, priv_round, IsStretchOf, Turn, serves, starts, pumps, privs,
  Floor, new_pump, started, pumped, on_turn, on_turns,
}
use ws_chat.Server.Pumps.Onward.{Onward, same-Fewer, same-Onward, Onward-trans, set_conn-Onward}
use ws_chat.Server.Pumps.Standing.{Standing, Onward-Standing, standing-Keeps}

module _ {A : Type 0} where
  -- The next part of a list makes its stretch longer.
  take-drop-more :
      (n s k : ℕ) (xs : List A)
      → s + n ≤ length xs
      → take (n + k) (drop s xs) ≡ take n (drop s xs) ++ take k (drop (s + n) xs)
  take-drop-more n (suc s) k [] h = absurd (omega arith)
  take-drop-more n (suc s) k (x ∷ xs) h =
      let there : suc s + n ≡ suc (s + n) = omega arith in
      rw there (take-drop-more n s k xs (omega arith))
  take-drop-more zero zero k xs h = let none_more : 0 + k ≡ k = omega arith in rw none_more refl
  take-drop-more (suc n) zero k [] h = absurd (omega arith)
  take-drop-more (suc n) zero k (x ∷ xs) h =
      let there : 0 + suc n ≡ suc (0 + n) = omega arith in
      let more : suc n + k ≡ suc (n + k) = omega arith in
      rw (there, more) (ap (λ l. x ∷ l) (take-drop-more n zero k xs (omega arith)))

  take-length-take : (k : ℕ) (xs : List A) → take (length (take k xs)) xs ≡ take k xs
  take-length-take zero xs = refl
  take-length-take (suc k) [] = refl
  take-length-take (suc k) (x ∷ xs) = ap (λ l. x ∷ l) (take-length-take k xs)

  take-take : (n k : ℕ) (xs : List A) → take n (take k xs) ≡ take (min n k) xs
  take-take zero k xs = let least : min 0 k ≡ 0 = omega arith in rw least refl
  take-take (suc n) zero xs = let least : min (suc n) 0 ≡ 0 = omega arith in rw least refl
  take-take (suc n) (suc k) [] =
      let least : min (suc n) (suc k) ≡ suc (min n k) = omega arith in rw least refl
  take-take (suc n) (suc k) (x ∷ xs) =
      let least : min (suc n) (suc k) ≡ suc (min n k) = omega arith in
      rw least (ap (λ l. x ∷ l) (take-take n k xs))

abbrev next_frames : App → Pump → ℕ → List Text
next_frames a pu k = take k (drop pu.pos (ring_of a pu).log)

-- What is received, of which some first part is written, goes on where the pump is.
received-stretch :
    (a : App) (pu : Pump) (k all : ℕ) (halt : Bool)
    → IsStretchOf a pu
    → pu.stopped ≡ false
    → length (next_frames a pu k) ≤ all
    → pu.pos + all ≤ length (ring_of a pu).log
    → (halt ≡ true) ⊎ (length (next_frames a pu k) ≡ all)
    → IsStretchOf a
        (record pu { wrote = pu.wrote ++ next_frames a pu k; pos = pu.pos + all; stopped = halt })
received-stretch a pu k all halt (lt, within, le, e, caught_up) runs part room done =
    let log = (ring_of a pu).log in
    let n = length pu.wrote in
    let s = pu.member.start in
    let out = next_frames a pu k in
    let size = length-append {0} pu.wrote out in
    let here : pu.pos ≡ s + n = ground (arith, caught_up, runs) in
    (
      lt,
      omega (arith, size, here, part),
      room,
      ap (λ l. l ++ out) e
          ∙ ap (λ l. take n (drop s log) ++ l)
              (sym (take-length-take k (drop pu.pos log))
                ∙ ap (λ p. take (length out) (drop p log)) here)
          ∙ sym (take-drop-more n s (length out) log (omega (arith, here, le)))
          ∙ ap (λ m. take m (drop s log)) (sym size),
      ground (arith, done, size, here),
    )

-- A batch is the next frames.
abbrev Fits : App → Pump → Received → Type 0
Fits a pu (got batch) = batch ≡ next_frames a pu (bound a.cfg.write_batch)
Fits a pu too_slow = Unit
Fits a pu at_end = Unit
Fits a pu blocked = Unit

recv-Fits : (a : App) (pu : Pump) → Fits a pu (recv a pu)
unfolding recv recv_ring
recv-Fits a pu =
    let r = ring_of a pu in
    if_rule (Fits a pu) (is_mine pu.member.stamp (lookup pu.name (a.conn_at pu.who).memberships))
      (λ _.
        if_rule (Fits a pu) (eqb (length r.log - pu.pos) 0)
          (λ _. if_rule (Fits a pu) r.shut (λ _. tt) (λ _. tt))
          (λ _.
            if_rule (Fits a pu)
              (overrun (ring_capacity (bound a.cfg.capacity)) (length r.log - pu.pos)) (λ _. tt)
              (λ _. refl)))
      (λ _. tt)

-- A round keeps the pump's stretch, and the server what it has.
abbrev Goes : App → Pump → App × Pump → Type 0
Goes a pu round = Onward a round.0 × IsStretchOf round.0 round.1

-- A batch is no longer than what is left.
next_frames-room :
    (a : App) (pu : Pump) (k : ℕ)
    → pu.pos ≤ length (ring_of a pu).log
    → pu.pos + length (next_frames a pu k) ≤ length (ring_of a pu).log
next_frames-room a pu k le =
    let log = (ring_of a pu).log in
    omega (arith, le, length-take {0} k (drop pu.pos log), length-drop {0} pu.pos log)

on_received-Goes :
    (writes : Option ℕ) (a : App) (pu : Pump) (r : Received)
    → Fits a pu r
    → pu.stopped ≡ false
    → IsStretchOf a pu
    → Goes a pu (on_received writes a pu r)
unfolding on_received
on_received-Goes writes a pu blocked f runs h = (same-Onward a, h)
on_received-Goes writes a pu at_end f runs (lt, within, le, e, caught_up) =
    (same-Onward a, (lt, within, le, e, inl refl))
on_received-Goes writes a pu too_slow f runs (lt, within, le, e, caught_up) =
    (set_conn-Onward pu.who _ a (same-Fewer _ _ refl refl), (lt, within, le, e, inl refl))
on_received-Goes none a pu (got batch) f runs h =
    let k = bound a.cfg.write_batch in
    let room = next_frames-room a pu k h.2 in
    (
      set_conn-Onward pu.who _ a (same-Fewer _ _ refl refl),
      subst
          (λ l.
            IsStretchOf a
              (record pu { wrote = pu.wrote ++ l; pos = pu.pos + length l; stopped = false }))
          (sym f)
          (received-stretch a pu k (length (next_frames a pu k)) false h runs (omega arith) room
            (inr refl)),
    )
on_received-Goes (some n) a pu (got batch) f runs h =
    let k = bound a.cfg.write_batch in
    let b = write_out pu.who (take n batch) a in
    let some_out : take n batch ≡ next_frames a pu (min n k) =
      ap (take n) f ∙ take-take n k (drop pu.pos (ring_of a pu).log) in
    let room = next_frames-room a pu k h.2 in
    let size = length-take {0} n batch in
    let fewer = ap length some_out in
    (
      Onward-trans a b _ (set_conn-Onward pu.who _ a (same-Fewer _ _ refl refl))
          (set_conn-Onward pu.who _ b (same-Fewer _ _ refl refl)),
      subst
          (λ l.
            IsStretchOf a
              (record pu { wrote = pu.wrote ++ l; pos = pu.pos + length batch; stopped = true }))
          (sym some_out)
          (received-stretch a pu (min n k) (length batch) true h runs (omega (arith, size, fewer))
            (omega (arith, ap length f, room)) (inl refl)),
    )

pump_round-Goes :
    (writes : Option ℕ) (a : App) (pu : Pump)
    → IsStretchOf a pu
    → Goes a pu (pump_round writes a pu)
unfolding pump_round
pump_round-Goes writes a pu h =
    if_rule (Goes a pu) pu.stopped (λ _. (same-Onward a, h))
      (λ runs. on_received-Goes writes a pu (recv a pu) (recv-Fits a pu) runs h)

module _ (env : Env) where
  abbrev Fine : Floor → Type 0
  Fine f = Standing f.running f.app

  started-Fine :
      (a : App) (c : ℕ) (name : Text) (o : Option Membership) (ps : List Pump)
      → lookup name (a.conn_at c).memberships ≡ o
      → Standing ps a
      → Standing (started a c name o ps) a
  started-Fine a c name none ps e h = h
  started-Fine a c name (some m) ps e h =
      let (lt, le) = h.anchored c name m e in
      record {
        anchored = h.anchored;
        rooms = h.rooms;
        stretches =
            All-snoc (IsStretchOf a) ps (new_pump a c name m) h.stretches
              (lt, omega arith, le, refl, inr (omega arith));
      }

  pumped-Fine :
      (i : ℕ) (writes : Option ℕ) (f : Floor) (o : Option Pump)
      → get_elem? f.running i ≡ o
      → Fine f
      → Fine (pumped i writes f o)
  pumped-Fine i writes f none e h = h
  pumped-Fine i writes f (some pu) e h =
      let (o, now) =
        pump_round-Goes writes f.app pu
          (All-get (IsStretchOf f.app) i pu f.running h.stretches e) in
      let all = Onward-Standing env f.running f.app (pump_round writes f.app pu).0 o h in
      record {
        anchored = all.anchored;
        rooms = all.rooms;
        stretches =
            All-update (IsStretchOf (pump_round writes f.app pu).0) i (pump_round writes f.app pu).1
              f.running all.stretches now;
      }

  priv_round-Onward :
      (c : ℕ) (ok : Bool) (a : App) (queue : List Text) → Onward a (priv_out c ok a queue)
  priv_round-Onward c ok a [] = same-Onward a
  priv_round-Onward c ok a (frame ∷ rest) =
      let taken = set_conn c (record (a.conn_at c) { priv = rest }) a in
      let first =
        set_conn-Onward c (record (a.conn_at c) { priv = rest }) a (same-Fewer _ _ refl refl) in
      if_rule (Onward a) ok
        (λ _. Onward-trans a taken _ first (set_conn-Onward c _ taken (same-Fewer _ _ refl refl)))
        (λ _. Onward-trans a taken _ first (set_conn-Onward c _ taken (same-Fewer _ _ refl refl)))

  on_turn-Fine : (t : Turn) (f : Floor) → Fine f → Fine (on_turn env t f)
  unfolding on_turn priv_round
  on_turn-Fine (serves now e) f h =
      on_event-P env (Standing f.running) (standing-Keeps env f.running) now e f.app h
  on_turn-Fine (starts c name) f h =
      started-Fine f.app c name (lookup name (f.app.conn_at c).memberships) f.running refl h
  on_turn-Fine (pumps i writes) f h = pumped-Fine i writes f (get_elem? f.running i) refl h
  on_turn-Fine (privs c ok) f h =
      Onward-Standing env f.running f.app _ (priv_round-Onward c ok f.app (f.app.conn_at c).priv) h

  on_turns-Fine : (ts : List Turn) (f : Floor) → Fine f → Fine (on_turns env ts f)
  unfolding on_turns
  on_turns-Fine [] f h = h
  on_turns-Fine (t ∷ ts) f h = on_turns-Fine ts (on_turn env t f) (on_turn-Fine t f h)

  -- In every interleaving of the server, from a new one whose connections have no memberships, with
  -- the pumps of its members and of private messages, with whatever writes fail: all that a pump has
  -- written is an unbroken stretch of what was broadcast to its ring, in its order, from the frame
  -- that was next when the member subscribed; and a pump that has not returned has written all that
  -- its subscription has received.
  pub on_turns-stretches :
      (cfg : Config) (blank : Conn) (ts : List Turn)
      → blank.memberships ≡ []
      → let end = on_turns env ts (record { app = new_app cfg blank; running = [] }) in
        All (IsStretchOf end.app) end.running
  unfolding new_app lookup
  on_turns-stretches cfg blank ts none_yet =
      (on_turns-Fine ts (record { app = new_app cfg blank; running = [] })
        (record { anchored = λ c name m there. absurd (cc); rooms = tt; stretches = tt })).stretches
