-- ===== src/Broadcast/MapChan/Dropping.antt =====
-- broadcast.go: the sections that take subscribers out keep the invariant of MapChan.
use ws_chat.Base.{
  ℕ, ◌+◌, ◌≡◌, refl, ap, ◌∙◌, Bool, true, false, List, [], ◌∷◌, if_rule, All, All-map,
}
use ws_chat.Broadcast.MapChan.{
  MapChan, without, among, is_reading, finish_at, drop_one, drop_all, remove, finish_each, close,
}
use ws_chat.Broadcast.MapChan.Invariant.{
  All-without, Full, Fulls, Member, Noted, Inv, quiet-ThreadInv, finish-Fulls, finish-Open,
  finish-SubInv, finish_each-Fulls, finish_each-SubInv,
}

module _ {ℓ} {A : Type ℓ} where
  -- A subscription finished and taken out, where nobody sends.
  taken_out-Inv :
      (over : Bool) (p drops : ℕ) (b : MapChan A)
      → is_reading b.threads ≡ false
      → (over ≡ true → Full b.sub_at p)
      → Inv b
      → Inv
          (record b { sub_at = finish_at over p b.sub_at; subs = without p b.subs; drops = drops })
  taken_out-Inv over p drops b quiet f i = record {
    each = λ q. finish-SubInv over b.buf p q b.sub_at f i.each;
    members =
        All-without (Member b.sub_at b.next) (Member (finish_at over p b.sub_at) b.next) p b.subs
          (λ q other x. (finish-Open over p q b.sub_at other x.0, x.1)) i.members;
    running =
        quiet-ThreadInv b.next b.next b.sub_at (finish_at over p b.sub_at) b.threads quiet
          (λ q x. (finish-Fulls over p b.sub_at q x.0, x.1)) i.running;
    calm = i.calm;
  }

  pub remove-Inv : (p : ℕ) (b : MapChan A) → is_reading b.threads ≡ false → Inv b → Inv (remove p b)
  unfolding remove
  remove-Inv p b quiet i =
      if_rule Inv (among p b.subs) (λ _. taken_out-Inv false p b.drops b quiet (λ e. absurd (cc)) i)
        (λ _. i)

  drop_one-Inv :
      (p : ℕ) (b : MapChan A)
      → is_reading b.threads ≡ false
      → Full b.sub_at p
      → Inv b
      → Inv (drop_one p b)
  unfolding drop_one
  drop_one-Inv p b quiet f i =
      if_rule Inv (among p b.subs) (λ _. taken_out-Inv true p (b.drops + 1) b quiet (λ _. f) i)
        (λ _. i)

  drop_one-Fulls : (p : ℕ) (b : MapChan A) → Fulls b.sub_at (drop_one p b).sub_at
  unfolding drop_one
  drop_one-Fulls p b =
      if_rule (λ (x : MapChan A). Fulls b.sub_at x.sub_at) (among p b.subs)
        (λ _. finish-Fulls true p b.sub_at) (λ _ q h. h)

  drop_one-threads : (p : ℕ) (b : MapChan A) → (drop_one p b).threads ≡ b.threads
  unfolding drop_one
  drop_one-threads p b =
      if_rule (λ (x : MapChan A). x.threads ≡ b.threads) (among p b.subs) (λ _. refl) (λ _. refl)

  drop_one-next : (p : ℕ) (b : MapChan A) → (drop_one p b).next ≡ b.next
  unfolding drop_one
  drop_one-next p b =
      if_rule (λ (x : MapChan A). x.next ≡ b.next) (among p b.subs) (λ _. refl) (λ _. refl)

  pub drop_all-Inv :
      (ps : List ℕ) (b : MapChan A)
      → is_reading b.threads ≡ false
      → All (Noted b.sub_at b.next) ps
      → Inv b
      → Inv (drop_all ps b) × ((drop_all ps b).threads ≡ b.threads)
  unfolding drop_all
  drop_all-Inv [] b quiet f i = (i, refl)
  drop_all-Inv (p ∷ ps) b quiet f i =
      let same = drop_one-threads p b in
      let rest =
        drop_all-Inv ps (drop_one p b) (ap is_reading same ∙ quiet)
          (rw (drop_one-next p b) (
            All-map (Noted b.sub_at b.next) (Noted (drop_one p b).sub_at b.next) ps
              (λ q x. (drop_one-Fulls p b q x.0, x.1)) f.1))
          (drop_one-Inv p b quiet f.0.0 i) in
      (rest.0, rest.1 ∙ same)

  pub close-Inv : (b : MapChan A) → is_reading b.threads ≡ false → Inv b → Inv (close b)
  unfolding close
  close-Inv b quiet i =
      if_rule Inv b.shut (λ _. i)
        (λ _. record {
          each = λ q. finish_each-SubInv b.buf q b.subs b.sub_at i.each;
          members = tt;
          running =
              quiet-ThreadInv b.next b.next b.sub_at (finish_each b.subs b.sub_at) b.threads quiet
                (λ q x. (finish_each-Fulls b.subs b.sub_at q x.0, x.1)) i.running;
          calm = i.calm;
        })
