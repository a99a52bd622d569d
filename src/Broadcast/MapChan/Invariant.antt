-- ===== src/Broadcast/MapChan/Invariant.antt =====
-- broadcast.go: the invariant of MapChan, and what `finish` keeps of it.
use ws_chat.Base.{
  ℕ, ◌≤◌, ◌<◌, ◌≡◌, Bool, true, false, List, [], ◌∷◌, ◌++◌, eqb, if_rule, length, All, All-map,
  arith,
}
use ws_chat.Broadcast.MapChan.{
  MapSub, Thread, sending, dropping, MapChan, without, is_reading, finish_at, finish_each,
}

pub All-without :
    (P Q : ℕ → Type 0) (p : ℕ) (qs : List ℕ)
    → ((q : ℕ) → eqb q p ≡ false → P q → Q q)
    → All P qs
    → All Q (without p qs)
All-without P Q p [] f a = tt
All-without P Q p (q ∷ qs) f a =
    if_rule (All Q) (eqb q p) (λ _. All-without P Q p qs f a.1)
      (λ other. (f q other a.0, All-without P Q p qs f a.1))

module _ {ℓ} {A : Type ℓ} where
  abbrev pub Open : (ℕ → MapSub A) → ℕ → Type 0
  Open at p = (at p).ended ≡ false

  abbrev pub Full : (ℕ → MapSub A) → ℕ → Type 0
  Full at p = (at p).was_full ≡ true

  -- Nobody that was full is so no longer, and nobody that was open is closed.
  abbrev pub Fulls : (ℕ → MapSub A) → (ℕ → MapSub A) → Type 0
  Fulls at after = (q : ℕ) → Full at q → Full after q

  abbrev pub Opens : (ℕ → MapSub A) → (ℕ → MapSub A) → Type 0
  Opens at after = (q : ℕ) → Open at q → Open after q

  pub record SubInv (buf : ℕ) (s : MapSub A) : Type ℓ where
    pub fits : length s.queue ≤ buf
    pub in_order : s.got ++ s.queue ≡ s.sent
    pub lags : s.behind ≡ true → s.was_full ≡ true

  -- A pointer that was given out, to one that is open or to one that was full.
  abbrev pub Member : (ℕ → MapSub A) → ℕ → ℕ → Type 0
  Member at n p = Open at p × (p < n)

  abbrev pub Noted : (ℕ → MapSub A) → ℕ → ℕ → Type 0
  Noted at n p = Full at p × (p < n)

  abbrev pub ThreadInv : (ℕ → MapSub A) → ℕ → Thread A → Type 0
  ThreadInv at n (sending m todo slow) = All (Member at n) todo × All (Noted at n) slow
  ThreadInv at n (dropping slow) = All (Noted at n) slow × Unit

  pub record Inv (b : MapChan A) : Type ℓ where
    pub each : (p : ℕ) → SubInv b.buf (b.sub_at p)
    pub members : All (Member b.sub_at b.next) b.subs
    pub running : All (ThreadInv b.sub_at b.next) b.threads
    pub calm : b.panicked ≡ false

  pub later-ThreadInv :
      (n : ℕ) (at after : ℕ → MapSub A) (t : Thread A)
      → Opens at after
      → Fulls at after
      → ThreadInv at n t
      → ThreadInv after n t
  later-ThreadInv n at after (sending m todo slow) o f i = (
    All-map (Member at n) (Member after n) todo (λ q x. (o q x.0, x.1)) i.0,
    All-map (Noted at n) (Noted after n) slow (λ q x. (f q x.0, x.1)) i.1,
  )
  later-ThreadInv n at after (dropping slow) o f i =
      (All-map (Noted at n) (Noted after n) slow (λ q x. (f q x.0, x.1)) i.0, tt)

  -- Where nobody sends, a subscription may be closed.
  pub quiet-ThreadInv :
      (n k : ℕ) (at after : ℕ → MapSub A) (ts : List (Thread A))
      → is_reading ts ≡ false
      → ((q : ℕ) → Noted at n q → Noted after k q)
      → All (ThreadInv at n) ts
      → All (ThreadInv after k) ts
  quiet-ThreadInv n k at after [] q f i = i
  quiet-ThreadInv n k at after (sending m todo slow ∷ ts) q f i = absurd cc
  quiet-ThreadInv n k at after (dropping slow ∷ ts) q f i = (
    (All-map (Noted at n) (Noted after k) slow f i.0.0, tt),
    quiet-ThreadInv n k at after ts q f i.1,
  )

  -- `finish`.
  pub finish-Fulls : (over : Bool) (p : ℕ) (at : ℕ → MapSub A) → Fulls at (finish_at over p at)
  unfolding finish_at
  finish-Fulls over p at q h = ground arith

  pub finish-Open :
      (over : Bool) (p q : ℕ) (at : ℕ → MapSub A)
      → eqb q p ≡ false
      → Open at q
      → Open (finish_at over p at) q
  unfolding finish_at
  finish-Open over p q at other h = ground arith

  pub finish-SubInv :
      (over : Bool) (buf p q : ℕ) (at : ℕ → MapSub A)
      → (over ≡ true → Full at p)
      → ((r : ℕ) → SubInv buf (at r))
      → SubInv buf (finish_at over p at q)
  unfolding finish_at
  finish-SubInv over buf p q at full i =
      if_rule (SubInv buf) (at p).ended (λ _. i q)
        (λ _.
          if_rule (SubInv buf) (eqb p q)
            (λ _. record { fits = (i p).fits; in_order = (i p).in_order; lags = full }) (λ _. i q))

  pub finish_each-Fulls : (ps : List ℕ) (at : ℕ → MapSub A) → Fulls at (finish_each ps at)
  unfolding finish_each
  finish_each-Fulls [] at q h = h
  finish_each-Fulls (p ∷ ps) at q h =
      finish_each-Fulls ps (finish_at false p at) q (finish-Fulls false p at q h)

  pub finish_each-SubInv :
      (buf q : ℕ) (ps : List ℕ) (at : ℕ → MapSub A)
      → ((r : ℕ) → SubInv buf (at r))
      → SubInv buf (finish_each ps at q)
  unfolding finish_each
  finish_each-SubInv buf q [] at i = i q
  finish_each-SubInv buf q (p ∷ ps) at i =
      finish_each-SubInv buf q ps (finish_at false p at)
        (λ r. finish-SubInv false buf p r at (λ e. absurd (cc)) i)
