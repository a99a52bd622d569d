-- ===== src/Metrics/Counting.antt =====
-- metrics.go: what the counters of a `CounterVec` count.
use ws_chat.Base.{
  ℕ, ◌+◌, ◌%◌, ◌^◌, ◌<◌, ◌≡◌, ◌≢◌, refl, subst, ap, sym, ◌∙◌, Option, none, some, List, [], ◌∷◌,
  count, if◌then◌else◌, Text, ◌==◌, text_keyed, same_text_iff, arith,
}
use ws_chat.Base.Dict.{lookup, lookup-insert}
use ws_chat.Metrics.{Memory, set_cell, set_vec, add, inc, create, with_value}

-- `v.With(value).Inc()`.
abbrev pub bump : ℕ → Text → Memory → Memory
bump v value m = let d = with_value v value m in inc d.1 d.0

abbrev pub bumps : ℕ → List Text → Memory → Memory
bumps v [] m = m
bumps v (x ∷ xs) m = bumps v xs (bump v x m)

-- The count of a value, zero for one that was never counted.
abbrev pub cell_value : Memory → Option ℕ → ℕ
cell_value m none = 0
cell_value m (some c) = m.cell_at c

abbrev pub reading : ℕ → Text → Memory → ℕ
reading v w m = cell_value m (lookup w (m.vec_at v).cells)

-- Different values have different counters, and all are allocated.
record Apart (v : ℕ) (m : Memory) : Type 0 where
  allocated : (a : Text) (c : ℕ) → lookup a (m.vec_at v).cells ≡ some c → c < m.next
  apart :
      (a b : Text) (c : ℕ)
      → lookup a (m.vec_at v).cells ≡ some c
      → lookup b (m.vec_at v).cells ≡ some c
      → a ≡ b

some-ne : {c : ℕ} → some c ≢ none
some-ne e = absurd (cc)

-- Counted once more, at the counter that `With` gives.
counted : ℕ → Text → Memory → Option ℕ → Memory
counted v value m o = let d = create v value m o in inc d.1 d.0

counted-reading :
    (v : ℕ) (value w : Text) (m : Memory) (o p : Option ℕ)
    → Apart v m
    → lookup value (m.vec_at v).cells ≡ o
    → lookup w (m.vec_at v).cells ≡ p
    → reading v w (counted v value m o)
      ≡ (if value == w then (cell_value m p + 1) % 2 ^ 64 else cell_value m p)
unfolding counted create inc add set_cell set_vec
counted-reading v value w m none none i e f =
    let l = lookup-insert value w m.next (m.vec_at v).cells in
    ground (arith, l, same_text_iff value w)
counted-reading v value w m none (some d) i e f =
    let l = lookup-insert value w m.next (m.vec_at v).cells in
    ground (arith, l, i.allocated w d f, same_text_iff value w)
counted-reading v value w m (some c) none i e f = ground (arith, same_text_iff value w)
counted-reading v value w m (some c) (some d) i e f =
    ground (arith, same_text_iff value w, i.apart value w d)

counted-Apart :
    (v : ℕ) (value : Text) (m : Memory) (o : Option ℕ)
    → Apart v m
    → lookup value (m.vec_at v).cells ≡ o
    → Apart v (counted v value m o)
unfolding counted create inc add set_cell set_vec
counted-Apart v value m (some c) i e = record { allocated = i.allocated; apart = i.apart }
counted-Apart v value m none i e = record {
  allocated =
      λ a c h. ground (arith, lookup-insert value a m.next (m.vec_at v).cells, i.allocated a c);
  apart = λ a b c h k. ground (
    arith,
    lookup-insert value a m.next (m.vec_at v).cells,
    lookup-insert value b m.next (m.vec_at v).cells,
    i.allocated a c,
    i.allocated b c,
    i.apart a b c,
    same_text_iff value a,
    same_text_iff value b,
  );
}

bump-counted :
    (v : ℕ) (value : Text) (m : Memory)
    → bump v value m ≡ counted v value m (lookup value (m.vec_at v).cells)
unfolding counted with_value lookup
bump-counted v value m = refl

bumps-reading :
    (v : ℕ) (w : Text) (xs : List Text) (m : Memory)
    → Apart v m
    → reading v w m < 2 ^ 64
    → reading v w (bumps v xs m) ≡ (reading v w m + count (λ x. x == w) xs) % 2 ^ 64
bumps-reading v w [] m i small = omega arith
bumps-reading v w (x ∷ xs) m i small =
    let e : reading v w (bump v x m)
        ≡ (if x == w then (reading v w m + 1) % 2 ^ 64 else reading v w m) =
      ap (reading v w) (bump-counted v x m)
      ∙ counted-reading v x w m (lookup x (m.vec_at v).cells) (lookup w (m.vec_at v).cells) i refl
          refl in
    let j : Apart v (bump v x m) =
      subst (Apart v) (sym (bump-counted v x m))
        (counted-Apart v x m (lookup x (m.vec_at v).cells) i refl) in
    let rest = bumps-reading v w xs (bump v x m) j (ground (arith, e)) in ground (arith, e, rest)

-- A `CounterVec` that is new, and any values that are counted with it one after the other: the count
-- of a value is how often it was among them, modulo `2 ^ 64`, whatever the other values are.
bumps-count :
    (v : ℕ) (w : Text) (xs : List Text) (m : Memory)
    → (m.vec_at v).cells ≡ []
    → reading v w (bumps v xs m) ≡ count (λ x. x == w) xs % 2 ^ 64
unfolding lookup
bumps-count v w xs m new =
    let none_yet = λ (a : Text). ap (lookup a) new in
    let zero_yet : reading v w m ≡ 0 = ap (λ d. cell_value m (lookup w d)) new in
    let i : Apart v m = record {
      allocated = λ a c h. absurd (some-ne (sym h ∙ none_yet a));
      apart = λ a b c h k. absurd (some-ne (sym h ∙ none_yet a));
    } in
    bumps-reading v w xs m i (omega arith)
    ∙ ap (λ n. (n + count (λ x. x == w) xs) % 2 ^ 64) zero_yet
    ∙ omega arith
