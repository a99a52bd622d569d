-- ===== src/Filter/Chains.antt =====
-- What a chain of filters answers.
use ws_chat.Base.{
  ◌≡◌, ◌⊎◌, inl, inr, refl, Bool, true, false, Option, none, some, List, [], ◌∷◌, ◌++◌, arith, Text,
  All, ap, subst, sym, Bool-cases,
}
use ws_chat.Hook.{Identity}
use ws_chat.Filter.{Filter, kept, some_filters, chain, first_refusal, chain_allow, allow}

-- A nil filter counts as one that lets the message pass.
abbrev pub Passes : Identity → Text → Option Filter → Type 0
Passes from body none = Unit
Passes from body (some f) = (f from body).0 ≡ true

first_refusal-passed : (p rest : Bool × Text) → p.0 ≡ true → first_refusal p rest ≡ rest
first_refusal-passed (true, reason) rest h = refl
first_refusal-passed (false, reason) rest h = absurd (ground arith)

first_refusal-refused : (p rest : Bool × Text) → p.0 ≡ false → first_refusal p rest ≡ p
first_refusal-refused (true, reason) rest h = absurd (ground arith)
first_refusal-refused (false, reason) rest h = refl

-- Every filter passes the message, or one refuses it after all before it passed it.
abbrev pub Outcome : Identity → Text → List (Option Filter) → Bool × Text → Type 0
Outcome from body fs answer =
    (All (Passes from body) fs × (answer ≡ (true, [])))
    ⊎ ((before : List (Option Filter)) × (f : Filter) × (after : List (Option Filter)) × (fs
          ≡ before ++ some f ∷ after)
        × All (Passes from body) before
        × ((f from body).0 ≡ false)
        × (answer ≡ f from body))

Outcome-passed :
    (from : Identity) (body : Text) (f : Option Filter) (fs : List (Option Filter))
    (answer : Bool × Text)
    → Passes from body f
    → Outcome from body fs answer
    → Outcome from body (f ∷ fs) answer
Outcome-passed from body f fs answer p (inl (all, e)) = inl ((p, all), e)
Outcome-passed from body f fs answer p (inr (before, g, after, e, all, refused, same)) =
    inr (f ∷ before, g, after, ap (λ l. f ∷ l) e, (p, all), refused, same)

kept-Outcome :
    (fs : List (Option Filter)) (from : Identity) (body : Text)
    → Outcome from body fs (chain_allow (kept fs) from body)
unfolding chain_allow
kept-Outcome [] from body = inl (tt, refl)
kept-Outcome (none ∷ fs) from body =
    Outcome-passed from body none fs _ tt (kept-Outcome fs from body)
kept-Outcome (some f ∷ fs) from body =
    let rest = chain_allow (kept fs) from body in
    elim (Bool-cases (f from body).0) [
      | inl passed ↦
          subst (Outcome from body (some f ∷ fs))
            (sym (first_refusal-passed (f from body) rest passed))
            (Outcome-passed from body (some f) fs rest passed (kept-Outcome fs from body))
      | inr refused ↦
          inr ([], f, fs, refl, tt, refused, first_refusal-refused (f from body) rest refused)
    ]

allow-some_filters :
    (fs : List Filter) (from : Identity) (body : Text)
    → allow (some_filters fs) from body ≡ chain_allow fs from body
unfolding allow chain_allow
allow-some_filters [] from body = refl
allow-some_filters (f ∷ fs) from body = refl

-- A chain, nil filters among it or not: a message passes if every filter that is not nil passes it,
-- and otherwise the answer is that of the first filter that refuses it.
allow-chain :
    (fs : List (Option Filter)) (from : Identity) (body : Text)
    → Outcome from body fs (allow (chain fs) from body)
unfolding chain
allow-chain fs from body =
    subst (Outcome from body fs) (sym (allow-some_filters (kept fs) from body))
      (kept-Outcome fs from body)
