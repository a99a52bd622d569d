-- ===== src/Base/Lists.antt =====
-- Lists measured and indexed by native numbers, under the library's names.
use Prim.Native.Nat.{ℕ, zero, suc, ◌+◌, ◌-◌, ◌≤◌, ◌<◌, min}
use mathlib.Core.Path.{◌≡◌, refl, ap, subst}
use mathlib.Core.Bool.{Bool, true, false}
use mathlib.Core.List.{List, [], ◌∷◌, ◌++◌}
use mathlib.Core.Option.{Option, none, some}
use native.Mathlib.Omega.{arith}

module _ {ℓ} {A : Type ℓ} where
  abbrev pub length : List A → ℕ
  length [] = 0
  length (x ∷ xs) = suc (length xs)

  abbrev pub get_elem? : List A → ℕ → Option A
  get_elem? [] i = none
  get_elem? (x ∷ xs) zero = some x
  get_elem? (x ∷ xs) (suc i) = get_elem? xs i

  abbrev pub take : ℕ → List A → List A
  take zero xs = []
  take (suc n) [] = []
  take (suc n) (x ∷ xs) = x ∷ take n xs

  abbrev pub drop : ℕ → List A → List A
  drop zero xs = xs
  drop (suc n) [] = []
  drop (suc n) (x ∷ xs) = drop n xs

  -- A predicate by recursion computes to tuples, which the tactics read and build.
  abbrev pub All {κ} : (A → Type κ) → List A → Type κ
  All P [] = Unit
  All P (x ∷ xs) = P x × All P xs

module _ {ℓ} {A : Type ℓ} where
  pub length-append : (xs ys : List A) → length (xs ++ ys) ≡ length xs + length ys
  length-append [] ys = omega arith
  length-append (x ∷ xs) ys = omega (arith, length-append xs ys)

  pub length-take : (n : ℕ) (xs : List A) → length (take n xs) ≡ min n (length xs)
  length-take zero xs = omega arith
  length-take (suc n) [] = omega arith
  length-take (suc n) (x ∷ xs) = omega (arith, length-take n xs)

  pub length-drop : (n : ℕ) (xs : List A) → length (drop n xs) ≡ length xs - n
  length-drop zero xs = omega arith
  length-drop (suc n) [] = omega arith
  length-drop (suc n) (x ∷ xs) = omega (arith, length-drop n xs)

  pub drop-all : (n : ℕ) (xs : List A) → length xs ≤ n → drop n xs ≡ []
  drop-all zero [] h = refl
  drop-all zero (x ∷ xs) h = absurd (omega arith)
  drop-all (suc n) [] h = refl
  drop-all (suc n) (x ∷ xs) h = drop-all n xs (omega arith)

  pub drop-append_le :
      (n : ℕ) (xs ys : List A) → n ≤ length xs → drop n (xs ++ ys) ≡ drop n xs ++ ys
  drop-append_le zero xs ys h = refl
  drop-append_le (suc n) [] ys h = absurd (omega arith)
  drop-append_le (suc n) (x ∷ xs) ys h = drop-append_le n xs ys (omega arith)

  pub get_elem?-append_lt :
      (xs ys : List A) (i : ℕ) → i < length xs → get_elem? (xs ++ ys) i ≡ get_elem? xs i
  get_elem?-append_lt [] ys i h = absurd (omega arith)
  get_elem?-append_lt (x ∷ xs) ys zero h = refl
  get_elem?-append_lt (x ∷ xs) ys (suc i) h = get_elem?-append_lt xs ys i (omega arith)

  pub get_elem?-append_last : (xs : List A) (x : A) → get_elem? (xs ++ x ∷ []) (length xs) ≡ some x
  get_elem?-append_last [] x = refl
  get_elem?-append_last (y ∷ xs) x = get_elem?-append_last xs x

  -- One more element of a segment of the list.
  pub take-drop-snoc :
      (n s i : ℕ) (xs : List A) (x : A)
      → s + n ≡ i
      → get_elem? xs i ≡ some x
      → take (suc n) (drop s xs) ≡ take n (drop s xs) ++ x ∷ []
  take-drop-snoc n s i [] x e h = cc
  take-drop-snoc zero zero zero (y ∷ ys) x e h = ground arith
  take-drop-snoc zero zero (suc i) (y ∷ ys) x e h = absurd (omega arith)
  take-drop-snoc (suc n) zero zero (y ∷ ys) x e h = absurd (omega arith)
  take-drop-snoc (suc n) zero (suc i) (y ∷ ys) x e h =
      ap (λ l. y ∷ l) (take-drop-snoc n zero i ys x (omega arith) h)
  take-drop-snoc n (suc s) zero (y ∷ ys) x e h = absurd (omega arith)
  take-drop-snoc n (suc s) (suc i) (y ∷ ys) x e h = take-drop-snoc n s i ys x (omega arith) h

abbrev pub one : Bool → ℕ
one true = 1
one false = 0

pub one-le : (b : Bool) → one b ≤ 1
one-le true = omega arith
one-le false = omega arith

-- One element replaced, and how many satisfy a test.
module _ {ℓ} {A : Type ℓ} where
  abbrev pub update : ℕ → A → List A → List A
  update i y [] = []
  update zero y (x ∷ xs) = y ∷ xs
  update (suc i) y (x ∷ xs) = x ∷ update i y xs

  abbrev pub count : (A → Bool) → List A → ℕ
  count p [] = 0
  count p (x ∷ xs) = one (p x) + count p xs

module _ {ℓ} {A : Type ℓ} where
  pub count-append : (p : A → Bool) (xs ys : List A) → count p (xs ++ ys) ≡ count p xs + count p ys
  count-append p [] ys = omega arith
  count-append p (x ∷ xs) ys = omega (arith, count-append p xs ys)

  pub count-update :
      (p : A → Bool) (i : ℕ) (x y : A) (xs : List A)
      → get_elem? xs i ≡ some x
      → count p (update i y xs) + one (p x) ≡ count p xs + one (p y)
  count-update p i x y [] h = absurd cc
  count-update p zero x y (z ∷ xs) h = let e : one (p z) ≡ one (p x) = cc in omega arith
  count-update p (suc i) x y (z ∷ xs) h = omega (arith, count-update p i x y xs h)

module _ {ℓ κ} {A : Type ℓ} (P : A → Type κ) where
  pub All-get : (i : ℕ) (x : A) (xs : List A) → All P xs → get_elem? xs i ≡ some x → P x
  All-get i x [] a h = absurd cc
  All-get zero x (z ∷ xs) a h = let e : z ≡ x = cc in subst P e a.0
  All-get (suc i) x (z ∷ xs) a h = All-get i x xs a.1 h

  pub All-snoc : (xs : List A) (x : A) → All P xs → P x → All P (xs ++ x ∷ [])
  All-snoc [] x a h = (h, tt)
  All-snoc (z ∷ xs) x a h = (a.0, All-snoc xs x a.1 h)

  pub All-update : (i : ℕ) (y : A) (xs : List A) → All P xs → P y → All P (update i y xs)
  All-update i y [] a h = a
  All-update zero y (z ∷ xs) a h = (h, a.1)
  All-update (suc i) y (z ∷ xs) a h = (a.0, All-update i y xs a.1 h)

-- Each element is counted, so that a change may use that the count is not zero.
module _ {ℓ κ} {A : Type ℓ} (P Q : A → Type κ) (p : A → Bool) (n : ℕ) where
  pub All-change :
      (xs : List A) → count p xs ≤ n → ((x : A) → one (p x) ≤ n → P x → Q x) → All P xs → All Q xs
  All-change [] le f a = a
  All-change (x ∷ xs) le f a = (f x (omega arith) a.0, All-change xs (omega arith) f a.1)

pub All-map {ℓ κ} :
    {A : Type ℓ} (P Q : A → Type κ) (xs : List A) → ((x : A) → P x → Q x) → All P xs → All Q xs
All-map P Q [] f a = a
All-map P Q (x ∷ xs) f a = (f x a.0, All-map P Q xs f a.1)
