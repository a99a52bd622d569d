-- ===== src/Base/Ranges.antt =====
-- Two orders of one map, which a `range` over it may meet.
use ws_chat.Base.Keys.{Keyed}
use ws_chat.Base.Dict.{Dict, keys, lookup, Distinct}
use mathlib.Core.Path.{◌≡◌, refl, ap, ◌∙◌}
use mathlib.Core.Option.{none}
use mathlib.Core.List.{◌∷◌, Permᴰ}
use native.Mathlib.Omega.{arith}

pub keys-Perm {ℓ κ} :
    {K : Type ℓ} {V : Type κ} (m n : Dict K V) → Permᴰ m n → Permᴰ (keys m) (keys n)
keys-Perm m n Permᴰ.nil = Permᴰ.nil
keys-Perm (a ∷ m) (b ∷ n) (Permᴰ.cons q p) = Permᴰ.cons (ap (λ x. x.0) q) (keys-Perm m n p)
keys-Perm (a ∷ b ∷ m) (c ∷ d ∷ _) (Permᴰ.swap q r) = Permᴰ.swap (ap (λ x. x.0) q) (ap (λ x. x.0) r)
keys-Perm m n (Permᴰ.trans {l₂ = l} p q) = Permᴰ.trans (keys-Perm m l p) (keys-Perm l n q)

module _ {ℓ κ} {K : Type ℓ} {V : Type κ} ⦃e : Keyed K⦄ where
  -- Two orders of one map.
  Perm-absent : (k : K) (m n : Dict K V) → Permᴰ m n → lookup k m ≡ none → lookup k n ≡ none
  unfolding lookup
  Perm-absent k m n Permᴰ.nil h = h
  Perm-absent k (a ∷ m) (b ∷ n) (Permᴰ.cons q p) h =
      ground (arith, ap (λ x. x.0) q, Perm-absent k m n p)
  Perm-absent k (a ∷ b ∷ m) (c ∷ d ∷ _) (Permᴰ.swap q r) h =
      ground (arith, ap (λ x. x.0) q, ap (λ x. x.0) r)
  Perm-absent k m n (Permᴰ.trans {l₂ = l} p q) h = Perm-absent k l n q (Perm-absent k m l p h)

  pub Perm-Distinct : (m n : Dict K V) → Permᴰ m n → Distinct m → Distinct n
  unfolding lookup
  Perm-Distinct m n Permᴰ.nil d = d
  Perm-Distinct (a ∷ m) (b ∷ n) (Permᴰ.cons q p) d =
      ground (arith, ap (λ x. x.0) q, Perm-absent b.0 m n p, Perm-Distinct m n p)
  Perm-Distinct (a ∷ b ∷ m) (c ∷ x ∷ _) (Permᴰ.swap q r) d =
      ground (arith, ap (λ x. x.0) q, ap (λ x. x.0) r, e.same_iff a.0 b.0, e.same_iff b.0 a.0)
  Perm-Distinct m n (Permᴰ.trans {l₂ = l} p q) d = Perm-Distinct l n q (Perm-Distinct m l p d)

  pub lookup-Perm : (k : K) (m n : Dict K V) → Permᴰ m n → Distinct m → lookup k m ≡ lookup k n
  unfolding lookup
  lookup-Perm k m n Permᴰ.nil d = refl
  lookup-Perm k (a ∷ m) (b ∷ n) (Permᴰ.cons q p) d =
      ground (arith, ap (λ x. x.0) q, ap (λ x. x.1) q, lookup-Perm k m n p)
  lookup-Perm k (a ∷ b ∷ m) (c ∷ x ∷ _) (Permᴰ.swap q r) d = ground (
    arith,
    ap (λ x. x.0) q,
    ap (λ x. x.0) r,
    ap (λ x. x.1) q,
    ap (λ x. x.1) r,
    e.same_iff a.0 k,
    e.same_iff b.0 k,
    e.same_iff a.0 b.0,
    e.same_iff b.0 a.0,
  )
  lookup-Perm k m n (Permᴰ.trans {l₂ = l} p q) d =
      lookup-Perm k m l p d ∙ lookup-Perm k l n q (Perm-Distinct m l p d)
