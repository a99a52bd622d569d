-- ===== src/Base/Keys.antt =====
-- Decidable equality as an interface, and byte strings, which are the program's `string`.
use Prim.Native.Nat.{ℕ}
use Prim.Native.Char.{code}
use Prim.Native.String.{String}
use mathlib.Core.Path.{◌≡◌, refl}
use mathlib.Core.Logic.{◌↔◌}
use mathlib.Core.Bool.{Bool, true, false, ◌&&◌}
use mathlib.Core.List.{List, [], ◌∷◌}
use native.Mathlib.Omega.{arith}
use ws_chat.Base.Tests.{eqb, eqb_iff}

pub record Keyed {ℓ} (K : Type ℓ) : Type ℓ where
  pub same : K → K → Bool
  pub same_iff : (j k : K) → (same j k ≡ true) ↔ (j ≡ k)

infix 50 ◌==◌
abbrev pub ◌==◌ {ℓ} : {K : Type ℓ} ⦃key : Keyed K⦄ → K → K → Bool
◌==◌ ⦃key⦄ = key.same

instance abbrev pub nat_keyed : Keyed ℕ
nat_keyed = record { same = eqb; same_iff = eqb_iff }

-- The bytes of a string.
abbrev pub Text : Type 0
Text = List ℕ

-- A literal; all the program's are ASCII.
abbrev pub bytes : String → Text
bytes String.[] = []
bytes (String.◌∷◌ c s) = code c ∷ bytes s

-- Byte for byte.
unfoldable pub same_text : Text → Text → Bool
same_text (c ∷ s) (d ∷ t) = eqb c d && same_text s t
same_text (c ∷ s) [] = false
same_text [] (d ∷ t) = false
same_text [] [] = true

pub same_text_iff : (s t : Text) → (same_text s t ≡ true) ↔ (s ≡ t)
unfolding same_text
same_text_iff (c ∷ s) (d ∷ t) = ground (arith, same_text_iff s t)
same_text_iff (c ∷ s) [] = ground arith
same_text_iff [] (d ∷ t) = ground arith
same_text_iff [] [] = ground arith

instance abbrev pub text_keyed : Keyed Text
text_keyed = record { same = same_text; same_iff = same_text_iff }

module _ {ℓ} {A : Type ℓ} ⦃e : Keyed A⦄ where
  pub same_refl : (a : A) → (a == a) ≡ true
  same_refl a = (e.same_iff a a).1 refl

  pub same_sym : (a b : A) → (a == b) ≡ (b == a)
  same_sym a b = ground (arith, e.same_iff a b, e.same_iff b a)
