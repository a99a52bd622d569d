-- ===== src/Cork/Batches.antt =====
-- cork.go: what reaches the socket, and when.
use ws_chat.Base.{
  ℕ, ◌+◌, ◌-◌, ◌≤◌, ◌<◌, ◌≡◌, refl, sym, ap, ◌∙◌, Option, none, some, List, [], ◌∷◌, ◌++◌, ltb, eqb,
  if◌then◌else◌, if_rule, Text, append-nil, append_assoc, arith,
}
use ws_chat.Cork.{
  CorkConn, CorkMove, writes, corks, uncorks, new_cork, held_bytes, write, cork, flush, uncork,
  on_move, on_moves,
}

-- All that is written, in order.
abbrev pub written : List CorkMove → Text
written [] = []
written (writes p ∷ ms) = p ++ written ms
written (corks t ∷ ms) = written ms
written (uncorks ∷ ms) = written ms

-- How many have the socket corked after the moves, where `n` had it before.
abbrev pub depth : ℕ → List CorkMove → ℕ
depth n [] = n
depth n (writes p ∷ ms) = depth n ms
depth n (corks t ∷ ms) = depth (n + 1) ms
depth n (uncorks ∷ ms) = depth (n - 1) ms

-- Every `uncork` follows a `cork` of its own.
abbrev pub IsPaired : ℕ → List CorkMove → Type 0
IsPaired n [] = Unit
IsPaired n (writes p ∷ ms) = IsPaired n ms
IsPaired n (corks t ∷ ms) = IsPaired (n + 1) ms
IsPaired n (uncorks ∷ ms) = (0 < n) × IsPaired (n - 1) ms

depth-step :
    (m : CorkMove) (ms : List CorkMove) (n : ℕ) → depth (depth n (m ∷ [])) ms ≡ depth n (m ∷ ms)
depth-step (writes p) ms n = refl
depth-step (corks t) ms n = refl
depth-step uncorks ms n = refl

-- Nothing is held, and there is no deadline, while nobody has the socket corked.
record Inv (s : CorkConn) : Type 0 where
  nothing_held : s.writers ≡ 0 → s.held ≡ none
  no_deadline : s.writers ≡ 0 → s.deadline ≡ none

flush-held : (o : Option Text) (s : CorkConn) → s.held ≡ o → (flush o s).held ≡ none
flush-held none s e = e
flush-held (some b) s e = refl

flush-writers : (o : Option Text) (s : CorkConn) → (flush o s).writers ≡ s.writers
flush-writers none s = refl
flush-writers (some b) s = refl

on_move-Inv : (m : CorkMove) (s : CorkConn) → Inv s → Inv (on_move m s)
unfolding on_move write cork uncork
on_move-Inv (writes p) s i =
    if_rule Inv (eqb s.writers 0)
      (λ e. record { nothing_held = i.nothing_held; no_deadline = i.no_deadline })
      (λ e. record { nothing_held = λ z. absurd (ground arith); no_deadline = i.no_deadline })
on_move-Inv (corks t) s i = record {
  nothing_held = λ z. absurd (omega arith);
  no_deadline = λ z. absurd (omega arith);
}
on_move-Inv uncorks s i =
    let out = record s { writers = s.writers - 1 } in
    if_rule Inv (ltb 0 (s.writers - 1))
      (λ e. record {
        nothing_held = λ z. absurd (ground arith);
        no_deadline = λ z. absurd (ground arith);
      })
      (λ e. record { nothing_held = λ z. flush-held s.held out refl; no_deadline = λ z. refl })

-- What was given to the socket, with what is held, is what was written.
abbrev total : CorkConn → Text
total s = s.wire ++ held_bytes s.held

flush-total : (o : Option Text) (s : CorkConn) → s.held ≡ o → total (flush o s) ≡ total s
flush-total none s e = refl
flush-total (some b) s e = append-nil (s.wire ++ b) ∙ sym (ap (λ h. s.wire ++ held_bytes h) e)

on_move-total :
    (m : CorkMove) (ms : List CorkMove) (s : CorkConn)
    → Inv s
    → total (on_move m s) ++ written ms ≡ total s ++ written (m ∷ ms)
unfolding on_move write cork uncork
on_move-total (writes p) ms s i =
    if_rule (λ (x : CorkConn). total x ++ written ms ≡ total s ++ (p ++ written ms))
      (eqb s.writers 0)
      (λ e.
        let empty = i.nothing_held (ground arith) in
        rw empty (
          ap (λ l. l ++ written ms) (append-nil (s.wire ++ p))
          ∙ append_assoc s.wire p (written ms)
          ∙ sym (ap (λ l. l ++ (p ++ written ms)) (append-nil s.wire))))
      (λ e.
        ap (λ l. l ++ written ms) (sym (append_assoc s.wire (held_bytes s.held) p))
        ∙ append_assoc (s.wire ++ held_bytes s.held) p (written ms))
on_move-total (corks t) ms s i = refl
on_move-total uncorks ms s i =
    let out = record s { writers = s.writers - 1 } in
    if_rule (λ (x : CorkConn). total x ++ written ms ≡ total s ++ written ms)
      (ltb 0 (s.writers - 1)) (λ e. refl)
      (λ e. ap (λ l. l ++ written ms) (flush-total s.held out refl))

on_move-writers : (m : CorkMove) (s : CorkConn) → (on_move m s).writers ≡ depth s.writers (m ∷ [])
unfolding on_move write cork uncork
on_move-writers (writes p) s =
    if_rule (λ (x : CorkConn). x.writers ≡ s.writers) (eqb s.writers 0) (λ e. refl) (λ e. refl)
on_move-writers (corks t) s = refl
on_move-writers uncorks s =
    if_rule (λ (x : CorkConn). x.writers ≡ s.writers - 1) (ltb 0 (s.writers - 1)) (λ e. refl)
      (λ e. flush-writers s.held (record s { writers = s.writers - 1 }))

-- How often the socket is written to at most: by each write that nobody holds back, and where the
-- last one out flushes.
abbrev pub flushes : ℕ → List CorkMove → ℕ
flushes n [] = 0
flushes n (writes p ∷ ms) = (if eqb n 0 then 1 else 0) + flushes n ms
flushes n (corks t ∷ ms) = flushes (n + 1) ms
flushes n (uncorks ∷ ms) = (if ltb 0 (n - 1) then 0 else 1) + flushes (n - 1) ms

flushes-step :
    (m : CorkMove) (ms : List CorkMove) (n : ℕ)
    → flushes n (m ∷ ms) ≡ flushes n (m ∷ []) + flushes (depth n (m ∷ [])) ms
flushes-step (writes p) ms n = omega arith
flushes-step (corks t) ms n = omega arith
flushes-step uncorks ms n = omega arith

flush-calls : (o : Option Text) (s : CorkConn) → (flush o s).calls ≤ s.calls + 1
flush-calls none s = omega arith
flush-calls (some b) s = omega arith

on_move-calls :
    (m : CorkMove) (s : CorkConn) → (on_move m s).calls ≤ s.calls + flushes s.writers (m ∷ [])
unfolding on_move write cork uncork
on_move-calls (writes p) s = ground arith
on_move-calls (corks t) s = omega arith
on_move-calls uncorks s =
    let out = record s { writers = s.writers - 1 } in ground (arith, flush-calls s.held out)

-- The same for the moves one after the other.
on_moves-all :
    (ms : List CorkMove) (s : CorkConn)
    → Inv s
    → Inv (on_moves ms s)
      × (total (on_moves ms s) ≡ total s ++ written ms)
      × ((on_moves ms s).writers ≡ depth s.writers ms)
      × ((on_moves ms s).calls ≤ s.calls + flushes s.writers ms)
unfolding on_moves
on_moves-all [] s i = (i, sym (append-nil (total s)), refl, omega arith)
on_moves-all (m ∷ ms) s i =
    let rest = on_moves-all ms (on_move m s) (on_move-Inv m s i) in
    let w = on_move-writers m s in
    (
      rest.0,
      rest.1 ∙ on_move-total m ms s i,
      rest.2 ∙ ap (λ n. depth n ms) w ∙ depth-step m ms s.writers,
      omega
          (arith, rest.3, on_move-calls m s, ap (λ n. flushes n ms) w, flushes-step m ms s.writers),
    )

-- Whatever frames are written to a new socket, and however many cork it, where each `uncork` follows
-- a `cork` of its own: the bytes that the socket was given are a beginning of what was written, in
-- that order, the rest is held; once all have uncorked it the socket has everything and no deadline;
-- and it is written to at most once for each write that nobody holds back and for each last `uncork`.
pub on_moves-written :
    (ms : List CorkMove)
    → IsPaired 0 ms
    → ((on_moves ms new_cork).wire ++ held_bytes (on_moves ms new_cork).held ≡ written ms)
      × (depth 0 ms ≡ 0
          → ((on_moves ms new_cork).wire ≡ written ms) × ((on_moves ms new_cork).deadline ≡ none))
      × ((on_moves ms new_cork).calls ≤ flushes 0 ms)
unfolding new_cork
on_moves-written ms paired =
    let start : Inv new_cork = record { nothing_held = λ z. refl; no_deadline = λ z. refl } in
    let s = on_moves ms new_cork in
    let all = on_moves-all ms new_cork start in
    (
      all.1,
      λ z.
          let idle : s.writers ≡ 0 = all.2 ∙ z in
          let empty = all.0.nothing_held idle in
          (
            sym (append-nil s.wire) ∙ sym (ap (λ h. s.wire ++ held_bytes h) empty) ∙ all.1,
            all.0.no_deadline idle,
          ),
      omega (arith, all.3),
    )
