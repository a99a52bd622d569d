-- ===== src/Broadcast/MutexRing/Copying.antt =====
-- ring.go: what a slot of the ring holds, and what the copying loop of `Recv` takes.
use Prim.Native.Nat.{bit_and}
use ws_chat.Base.{
  ℕ, zero, suc, ◌+◌, ◌-◌, ◌%◌, ◌^◌, ◌≤◌, ◌<◌, ◌≡◌, refl, ap, ◌∙◌, List, [], ◌∷◌, ◌++◌, Bool-cases,
  inl, inr, some, arith, ltb, eqb, length, length-append, get_elem?, get_elem?-append_lt,
  get_elem?-append_last, take, drop, drop-all, if_rule,
}
use ws_chat.Base.Mask.{bit_and-mask}
use ws_chat.Base.Arith.{pow2-pos}
use ws_chat.Broadcast.SeqRing.{u64}
use ws_chat.Broadcast.Slots.{slot_ne}
use ws_chat.Broadcast.MutexRing.{Ring, new_ring, store, broadcast, copy}

module _ {ℓ} {A : Type ℓ} where
  -- Message number `j` is in its slot until number `j + 2 ^ k` is written.
  pub record Stored (k : ℕ) (r : Ring A) : Type ℓ where
    pub sized : r.capacity ≡ 2 ^ k
    pub masks : r.mask ≡ 2 ^ k - 1
    pub counts : r.seq ≡ length r.log
    pub slots :
        (j : ℕ)
        → j < length r.log
        → length r.log ≤ j + 2 ^ k
        → get_elem? r.log j ≡ some (r.buf (j % 2 ^ k))

  pub new_ring-Stored : (nil : A) (k : ℕ) → Stored k (new_ring nil k)
  unfolding new_ring
  new_ring-Stored nil k = record {
    sized = refl;
    masks = refl;
    counts = refl;
    slots = λ j h near. absurd (omega arith);
  }

  -- The slots after message `m` is stored.
  store-slots :
      (k : ℕ) (r : Ring A) (m : A)
      → Stored k r
      → (j : ℕ) → j < suc (length r.log)
      → suc (length r.log) ≤ j + 2 ^ k
      → get_elem? (r.log ++ m ∷ []) j ≡ some (store r.buf (length r.log % 2 ^ k) m (j % 2 ^ k))
  store-slots k r m i j h near = elim (Bool-cases (ltb j (length r.log))) [
    | inl old ↦
        let other = slot_ne j (length r.log) (2 ^ k) (pow2-pos k) (ground arith) (omega arith) in
        get_elem?-append_lt r.log (m ∷ []) j (ground arith)
        ∙ i.slots j (ground arith) (omega arith)
        ∙ if_rule (λ x. some (r.buf (j % 2 ^ k)) ≡ some x) (eqb (length r.log % 2 ^ k) (j % 2 ^ k))
            (λ e. absurd (other (ground arith))) (λ _. refl)
    | inr new ↦
        let last : j ≡ length r.log = ground arith in
        rw last (
          get_elem?-append_last r.log m
          ∙ if_rule (λ x. some m ≡ some x) (eqb (length r.log % 2 ^ k) (length r.log % 2 ^ k))
              (λ _. refl) (λ e. absurd (ground arith)))
  ]

  pub broadcast-Stored :
      (k : ℕ) (m : A) (r : Ring A)
      → length (broadcast m r).log < u64
      → Stored k r
      → Stored k (broadcast m r)
  unfolding broadcast
  broadcast-Stored k m r small i =
      if_rule (λ (x : Ring A). length x.log < u64 → Stored k x) r.shut (λ _ _. i)
        (λ _ room.
          let slot : bit_and r.seq r.mask ≡ length r.log % 2 ^ k =
            rw (i.masks, i.counts) (bit_and-mask (length r.log) k) in
          record {
            sized = i.sized;
            masks = i.masks;
            counts = omega (arith, i.counts, length-append r.log (m ∷ []));
            slots = λ j h near. rw slot (
                store-slots k r m i j (omega (arith, length-append r.log (m ∷ [])))
                  (omega (arith, length-append r.log (m ∷ []))));
          })
        small

  drop-cons :
      (p : ℕ) (x : A) (xs : List A) → get_elem? xs p ≡ some x → drop p xs ≡ x ∷ drop (suc p) xs
  drop-cons p x [] h = absurd cc
  drop-cons zero x (y ∷ xs) h = let e : y ≡ x = cc in ap (λ z. z ∷ xs) e
  drop-cons (suc p) x (y ∷ xs) h = drop-cons p x xs h

  -- A subscription that is not lapped takes the next messages, as many as there are and room for.
  pub copy-take :
      (k : ℕ) (r : Ring A) (n p : ℕ)
      → length r.log < u64
      → p ≤ length r.log
      → length r.log ≤ p + 2 ^ k
      → Stored k r
      → (copy r n p).0 ≡ take n (drop p r.log)
  unfolding copy
  copy-take k r zero p small le near i = refl
  copy-take k r (suc n) p small le near i =
      if_rule (λ (c : List A × ℕ). c.0 ≡ take (suc n) (drop p r.log)) (ltb p r.seq)
        (λ more.
          let next : (p + 1) % u64 ≡ suc p = ground (arith, i.counts) in
          let slot : bit_and p r.mask ≡ p % 2 ^ k = rw i.masks (bit_and-mask p k) in
          let here =
            drop-cons p (r.buf (p % 2 ^ k)) r.log (i.slots p (ground (arith, i.counts)) near) in
          let rest = copy-take k r n (suc p) small (ground (arith, i.counts)) (omega arith) i in
          rw (next, slot, here) (ap (λ l. r.buf (p % 2 ^ k) ∷ l) rest))
        (λ done. let none_left = drop-all p r.log (ground (arith, i.counts)) in rw none_left refl)

  pub copy-pos :
      (k : ℕ) (r : Ring A) (n p : ℕ)
      → length r.log < u64
      → p ≤ length r.log
      → Stored k r
      → ((copy r n p).1 ≡ p + length (copy r n p).0) × ((copy r n p).1 ≤ length r.log)
  unfolding copy
  copy-pos k r zero p small le i = ground arith
  copy-pos k r (suc n) p small le i =
      if_rule (λ (c : List A × ℕ). (c.1 ≡ p + length c.0) × (c.1 ≤ length r.log)) (ltb p r.seq)
        (λ more.
          let next : (p + 1) % u64 ≡ suc p = ground (arith, i.counts) in
          let rest = copy-pos k r n (suc p) small (ground (arith, i.counts)) i in
          rw next (omega arith, rest.1))
        (λ done. ground arith)
