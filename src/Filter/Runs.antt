-- ===== src/Filter/Runs.antt =====
-- What `Zalgo` refuses: too many marks in a row.
use ws_chat.Base.{
  ℕ, zero, suc, ◌+◌, ◌≤◌, ◌<◌, ◌≡◌, ◌↔◌, ◌⊎◌, inl, inr, Bool, true, false, List, [], ◌∷◌, arith,
  Text, map,
}
use ws_chat.Utf8.{runes, rune}
use ws_chat.Hook.{Identity}
use ws_chat.Filter.{zalgo_loop, zalgo_allow}

module _ (is_mark : ℕ → Bool) where
  -- The list starts with `n` marks.
  abbrev pub Starts : ℕ → List ℕ → Type 0
  Starts zero rs = Unit
  Starts (suc n) [] = ⊥
  Starts (suc n) (r ∷ rs) = (is_mark r ≡ true) × Starts n rs

  -- Somewhere in the list there are `n` marks in a row.
  abbrev pub Stacked : ℕ → List ℕ → Type 0
  Stacked n [] = Starts n []
  Stacked n (r ∷ rs) = Starts n (r ∷ rs) ⊎ Stacked n rs

  Starts-Stacked : (n : ℕ) (rs : List ℕ) → Starts n rs → Stacked n rs
  Starts-Stacked n [] h = h
  Starts-Stacked n (r ∷ rs) h = inl h

  Starts-fewer : (m n : ℕ) (rs : List ℕ) → m ≤ n → Starts n rs → Starts m rs
  Starts-fewer zero n rs le h = tt
  Starts-fewer (suc m) zero rs le h = absurd (omega arith)
  Starts-fewer (suc m) (suc n) [] le h = h
  Starts-fewer (suc m) (suc n) (r ∷ rs) le h = (h.0, Starts-fewer m n rs (omega arith) h.1)

  -- `left` is the number of marks that may still follow.
  zalgo_loop_sound :
      (limit run left : ℕ) (rs : List ℕ)
      → run + left ≡ limit
      → zalgo_loop is_mark limit run rs ≡ false
      → Starts (suc left) rs ⊎ Stacked (suc limit) rs
  unfolding zalgo_loop
  zalgo_loop_sound limit run left [] e h = ground arith
  zalgo_loop_sound limit run zero (r ∷ rs) e h =
      ground (arith, zalgo_loop_sound limit 0 limit rs (omega arith), Starts-Stacked (suc limit) rs)
  zalgo_loop_sound limit run (suc left) (r ∷ rs) e h = ground (
    arith,
    zalgo_loop_sound limit 0 limit rs (omega arith),
    zalgo_loop_sound limit (run + 1) left rs (omega arith),
    Starts-Stacked (suc limit) rs,
  )

  zalgo_loop_complete :
      (limit run left : ℕ) (rs : List ℕ)
      → run + left ≡ limit
      → Starts (suc left) rs ⊎ Stacked (suc limit) rs
      → zalgo_loop is_mark limit run rs ≡ false
  unfolding zalgo_loop
  zalgo_loop_complete limit run left [] e h = ground arith
  zalgo_loop_complete limit run zero (r ∷ rs) e h =
      ground (arith, zalgo_loop_complete limit 0 limit rs (omega arith))
  zalgo_loop_complete limit run (suc left) (r ∷ rs) e h = ground (
    arith,
    zalgo_loop_complete limit 0 limit rs (omega arith),
    zalgo_loop_complete limit (run + 1) left rs (omega arith),
    Starts-fewer (suc left) limit rs (omega arith),
  )

  -- With a positive `Max`, a message is refused exactly when more than `Max` of its runes in a row
  -- are combining marks.
  pub zalgo_allow_iff :
      (limit : ℕ) (from : Identity) (body : Text)
      → 0 < limit
      → ((zalgo_allow is_mark limit from body).0 ≡ false)
        ↔ Stacked (suc limit) (map rune (runes body))
  unfolding zalgo_allow
  zalgo_allow_iff limit from body pos =
      let rs = map rune (runes body) in
      (
        λ h.
            ground (
              arith,
              zalgo_loop_sound limit 0 limit rs (omega arith),
              Starts-Stacked (suc limit) rs,
            ),
        λ h. ground (arith, zalgo_loop_complete limit 0 limit rs (omega arith) (inr h)),
      )
