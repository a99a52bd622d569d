-- ===== src/Base/Sorting.antt =====
-- Go's `sort.Slice` and `sort.Strings` as insertion sort, which leaves one order only.
use ws_chat.Base.Tests.{ltb, eqb, if◌then◌else◌}
use ws_chat.Base.Keys.{Text}
use mathlib.Core.Path.{◌≡◌, refl, ◌∙◌}
use mathlib.Core.Bool.{Bool, true, false, ◌&&◌, ◌||◌}
use mathlib.Core.List.{List, [], ◌∷◌, Permᴰ}
use native.Mathlib.Omega.{arith}

-- A total order by a Boolean test.
pub record IsOrder {ℓ} {A : Type ℓ} (le : A → A → Bool) : Type ℓ where
  pub total : (a b : A) → le a b ≡ false → le b a ≡ true
  pub antisym : (a b : A) → le a b ≡ true → le b a ≡ true → a ≡ b
  pub transits : (a b c : A) → le a b ≡ true → le b c ≡ true → le a c ≡ true

module _ {ℓ} {A : Type ℓ} (le : A → A → Bool) where
  unfoldable pub place : A → List A → List A
  place x [] = x ∷ []
  place x (y ∷ ys) = let rest = place x ys in if le x y then x ∷ y ∷ ys else y ∷ rest

  unfoldable pub sort_by : List A → List A
  sort_by [] = []
  sort_by (x ∷ xs) = place x (sort_by xs)

module _ {ℓ} {A : Type ℓ} (le : A → A → Bool) (o : IsOrder le) where
  place-place : (x y : A) (l : List A) → place le x (place le y l) ≡ place le y (place le x l)
  unfolding place
  place-place x y [] = ground (arith, o.total x y, o.antisym x y)
  place-place x y (z ∷ l) = ground (
    arith,
    o.total x y,
    o.antisym x y,
    o.total x z,
    o.total y z,
    o.transits x y z,
    o.transits y x z,
    place-place x y l,
  )

  -- The order of the input does not matter.
  pub sort_by-Perm : (xs ys : List A) → Permᴰ xs ys → sort_by le xs ≡ sort_by le ys
  unfolding sort_by
  sort_by-Perm xs ys Permᴰ.nil = refl
  sort_by-Perm (a ∷ l) (b ∷ m) (Permᴰ.cons e p) = rw (e, sort_by-Perm l m p) refl
  sort_by-Perm (a ∷ b ∷ l) (c ∷ d ∷ _) (Permᴰ.swap e f) = rw (e, f) (place-place d c (sort_by le l))
  sort_by-Perm xs ys (Permᴰ.trans {l₂ = m} p q) = sort_by-Perm xs m p ∙ sort_by-Perm m ys q

-- Strings byte by byte.
unfoldable pub text_le : Text → Text → Bool
text_le [] t = true
text_le (c ∷ s) [] = false
text_le (c ∷ s) (d ∷ t) = ltb c d || (eqb c d && text_le s t)

text_total : (s t : Text) → text_le s t ≡ false → text_le t s ≡ true
unfolding text_le
text_total [] t h = absurd cc
text_total (c ∷ s) [] h = refl
text_total (c ∷ s) (d ∷ t) h = ground (arith, text_total s t)

text_antisym : (s t : Text) → text_le s t ≡ true → text_le t s ≡ true → s ≡ t
unfolding text_le
text_antisym [] [] h k = refl
text_antisym [] (d ∷ t) h k = absurd cc
text_antisym (c ∷ s) [] h k = absurd cc
text_antisym (c ∷ s) (d ∷ t) h k = ground (arith, text_antisym s t)

text_transits : (s t u : Text) → text_le s t ≡ true → text_le t u ≡ true → text_le s u ≡ true
unfolding text_le
text_transits [] t u h k = refl
text_transits (c ∷ s) [] u h k = absurd cc
text_transits (c ∷ s) (d ∷ t) [] h k = absurd cc
text_transits (c ∷ s) (d ∷ t) (e ∷ u) h k = ground (arith, text_transits s t u)

pub text_le-IsOrder : IsOrder text_le
text_le-IsOrder = record { total = text_total; antisym = text_antisym; transits = text_transits }
