-- ===== src/Broadcast/Segments.antt =====
-- A stretch of the history of a ring.
use ws_chat.Base.{
  ℕ, zero, suc, ◌+◌, ◌≤◌, ◌≡◌, refl, ap, sym, ◌∙◌, List, [], ◌∷◌, ◌++◌, some, arith, length, take,
  drop, get_elem?, take-drop-snoc, drop-append_le, length-drop,
}

module _ {ℓ} {A : Type ℓ} where
  -- The `n` entries from number `s` on.
  unfoldable pub segment : ℕ → ℕ → List A → List A
  segment s n xs = take n (drop s xs)

  take-append_le : (n : ℕ) (xs ys : List A) → n ≤ length xs → take n (xs ++ ys) ≡ take n xs
  take-append_le zero xs ys h = refl
  take-append_le (suc n) [] ys h = absurd (omega arith)
  take-append_le (suc n) (x ∷ xs) ys h = ap (λ l. x ∷ l) (take-append_le n xs ys (omega arith))

  pub segment-append :
      (s n : ℕ) (xs ys : List A) → s + n ≤ length xs → segment s n (xs ++ ys) ≡ segment s n xs
  unfolding segment
  segment-append s n xs ys h =
      ap (take n) (drop-append_le s xs ys (omega arith))
      ∙ take-append_le n (drop s xs) ys (omega (arith, length-drop s xs))

  pub segment-snoc :
      (s n i : ℕ) (xs : List A) (x : A)
      → s + n ≡ i
      → get_elem? xs i ≡ some x
      → segment s n xs ++ x ∷ [] ≡ segment s (suc n) xs
  unfolding segment
  segment-snoc s n i xs x e h = sym (take-drop-snoc n s i xs x e h)

  take-drop_add : (a b : ℕ) (xs : List A) → take a xs ++ take b (drop a xs) ≡ take (a + b) xs
  take-drop_add zero b xs = let e : 0 + b ≡ b = omega arith in rw e
  take-drop_add (suc a) zero [] = let e : suc a + 0 ≡ suc a = omega arith in rw e
  take-drop_add (suc a) b (x ∷ xs) =
      let e : suc a + b ≡ suc (a + b) = omega arith in rw e (ap (λ l. x ∷ l) (take-drop_add a b xs))
  take-drop_add (suc a) (suc b) [] = let e : suc a + suc b ≡ suc (suc (a + b)) = omega arith in rw e

  drop-drop : (a b c : ℕ) (xs : List A) → a + b ≡ c → drop b (drop a xs) ≡ drop c xs
  drop-drop zero b c xs e = let e' : b ≡ c = omega arith in rw e'
  drop-drop (suc a) zero zero xs e = absurd (omega arith)
  drop-drop (suc a) (suc b) zero xs e = absurd (omega arith)
  drop-drop (suc a) zero (suc c) [] e = refl
  drop-drop (suc a) (suc b) (suc c) [] e = refl
  drop-drop (suc a) b (suc c) (x ∷ xs) e = drop-drop a b c xs (omega arith)

  pub segment-join :
      (s a t b n : ℕ) (xs : List A)
      → s + a ≡ t
      → a + b ≡ n
      → segment s a xs ++ segment t b xs ≡ segment s n xs
  unfolding segment
  segment-join s a t b n xs e f = rw (← f, ← drop-drop s a t xs e) (take-drop_add a b (drop s xs))

  pub segment-zero : (s : ℕ) (xs : List A) → segment s 0 xs ≡ []
  unfolding segment
  segment-zero s xs = refl
