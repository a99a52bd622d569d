-- ===== src/Server/Pumps/Standing.antt =====
-- Memberships and pumps over any writes of the server.
use ws_chat.Base.{
  ℕ, zero, suc, ◌+◌, ◌≤◌, ◌<◌, ◌≡◌, refl, ◌⊎◌, inl, inr, ap, subst, sym, ◌∙◌, Bool, Option, none,
  some, List, [], ◌∷◌, ◌++◌, eqb, ltb, leb, if_rule, length, length-append, take, drop, All,
  All-map, Text, text_keyed, arith,
}
use ws_chat.Base.Dict.{Dict, lookup, insert, lookup-insert}
use ws_chat.Config.{bound}
use ws_chat.Proto.Codec.{Codec}
use ws_chat.Server.State.{Membership, Conn, App}
use ws_chat.Server.Env.{Env}
use ws_chat.Server.Channels.{nick, is_at, enter, channel_for, sweep_channels, close_channels}
use ws_chat.Server.Messages.{write_frame, broadcast_msg}
use ws_chat.Server.Membership.{
  quiet, leave, store_membership, drop_membership, subscribed, new_membership, join_enter,
}
use ws_chat.Server.Handlers.{
  record_queue, enqueue, spend_at, spend_conn, spend_chan, deliver, register, unregister,
}
use ws_chat.Server.Keeping.{Keeps}
use ws_chat.Server.Pumps.{Pump, ring_of, IsStretchOf}
use ws_chat.Server.Pumps.Onward.{
  Longer-refl, same-Fewer, drop-Fewer, Onward, Tabled, lookup-Tabled, sweep_list-Tabled,
  same-Onward, set_conn-Onward, set_chan-Onward, remove_member-Longer, sweep_list-Longer,
  close_list-Longer, broadcast_to-Onward, enter-Onward,
}

-- A stretch of a list is one of a longer list.
take-drop-append_le :
    {A : Type 0} (n s : ℕ) (xs ys : List A)
    → s + n ≤ length xs
    → take n (drop s (xs ++ ys)) ≡ take n (drop s xs)
take-drop-append_le zero s xs ys h = refl
take-drop-append_le (suc n) zero [] ys h = absurd (omega arith)
take-drop-append_le (suc n) zero (x ∷ xs) ys h =
    ap (λ l. x ∷ l) (take-drop-append_le n zero xs ys (omega arith))
take-drop-append_le (suc n) (suc s) [] ys h = absurd (omega arith)
take-drop-append_le (suc n) (suc s) (x ∷ xs) ys h =
    take-drop-append_le (suc n) s xs ys (omega arith)

-- A subscription to a channel that is there, from a frame that was next.
abbrev pub Anchored : App → Codec → Membership → Type 0
Anchored a codec m = (m.chan < a.next) × (m.start ≤ length ((a.chan_at m.chan).rings codec).log)

-- All memberships are anchored, and the pumps have written stretches.
pub record Standing (ps : List Pump) (a : App) : Type 0 where
  pub anchored :
      (c : ℕ) (name : Text) (m : Membership)
      → lookup name (a.conn_at c).memberships ≡ some m
      → Anchored a (a.conn_at c).codec m
  pub rooms : Tabled a.next a.channels
  pub stretches : All (IsStretchOf a) ps

Onward-Anchored :
    (a b : App) (codec : Codec) (m : Membership)
    → Onward a b
    → Anchored a codec m
    → Anchored b codec m
Onward-Anchored a b codec m o (lt, le) =
    let longer = (o.logs m.chan lt) codec in
    (
      omega (arith, o.more, lt),
      omega (
        arith,
        le,
        ap length longer.1,
        length-append {0} ((a.chan_at m.chan).rings codec).log longer.0,
      ),
    )

pub Onward-IsStretchOf : (a b : App) (pu : Pump) → Onward a b → IsStretchOf a pu → IsStretchOf b pu
Onward-IsStretchOf a b pu o (lt, within, le, e, caught_up) =
    let longer = (o.logs pu.member.chan lt) pu.codec in
    let n = length pu.wrote in
    (
      omega (arith, o.more, lt),
      within,
      omega (arith, le, ap length longer.1, length-append {0} (ring_of a pu).log longer.0),
      e
          ∙ sym (
              take-drop-append_le n pu.member.start (ring_of a pu).log longer.0
                (omega (arith, within, le)))
          ∙ ap (λ l. take n (drop pu.member.start l)) (sym longer.1),
      caught_up,
    )

module _ (env : Env) (ps : List Pump) where
  abbrev P : App → Type 0
  P a = Standing ps a

  pub Onward-Standing : (a b : App) → Onward a b → P a → P b
  Onward-Standing a b o h = record {
    anchored = λ c name m there.
        let (e, old) = (o.conns c).kept name m there in
        subst (λ k. Anchored b k m) (sym e)
          (Onward-Anchored a b (a.conn_at c).codec m o (h.anchored c name m old));
    rooms = o.tables h.rooms;
    stretches =
        All-map (IsStretchOf a) (IsStretchOf b) ps (λ pu. Onward-IsStretchOf a b pu o) h.stretches;
  }

  write_frame-Standing :
      (c : ℕ) (a : App) (frame : Option Text) → P a → P (write_frame env c a frame)
  write_frame-Standing c a none h = h
  write_frame-Standing c a (some frame) h =
      Onward-Standing a _ (set_conn-Onward c _ a (same-Fewer _ _ refl refl)) h

  inserted :
      (name other : Text) (m n : Membership) (ms : Dict Text Membership)
      → lookup other (insert name m ms) ≡ some n
      → (m ≡ n) ⊎ (lookup other ms ≡ some n)
  inserted name other m n ms there = ground (arith, lookup-insert name other m ms, there)

  store-Standing :
      (c : ℕ) (name : Text) (m : Membership) (a : App)
      → Anchored a (a.conn_at c).codec m
      → P a
      → P (store_membership c name m a)
  unfolding store_membership
  store-Standing c name m a new h = record {
    anchored = λ d.
        if_rule
          (λ (t : Conn).
            (other : Text) (n : Membership)
            → lookup other t.memberships ≡ some n
            → Anchored a t.codec n)
          (eqb c d)
          (λ _ other n there. elim (inserted name other m n (a.conn_at c).memberships there) [
            | inl e ↦ subst (Anchored a (a.conn_at c).codec) e new
            | inr old ↦ h.anchored c other n old
          ])
          (λ _. h.anchored d);
    rooms = h.rooms;
    stretches = h.stretches;
  }

  -- One more number in use.
  next-Onward : (a : App) → Onward a (record a { next = a.next + 1 })
  next-Onward a = record {
    more = omega arith;
    logs = λ p lt. Longer-refl (a.chan_at p);
    conns = λ d. same-Fewer _ _ refl refl;
    tables = λ t. All-map _ _ a.channels (λ r lt. omega (arith, lt)) t;
  }

  -- A new subscription begins at the end of its ring.
  subscribed-Standing :
      (c : ℕ) (name : Text) (a : App) (p : Option ℕ)
      → ((q : ℕ) → p ≡ some q → q < a.next)
      → P a
      → P (subscribed env c name a p).0
  unfolding new_membership
  subscribed-Standing c name a none lt h = h
  subscribed-Standing c name a (some p) lt h =
      let there = lt p refl in
      store-Standing c name (new_membership env a c p) (record a { next = a.next + 1 })
        (omega (arith, there), omega arith)
        (Onward-Standing a (record a { next = a.next + 1 }) (next-Onward a) h)

  entered-lt :
      (a : App) (name : Text) (c : ℕ) (found : Option ℕ)
      → ((q : ℕ) → found ≡ some q → q < a.next)
      → (q : ℕ) → (enter env.channel_limits a name c found).1 ≡ some q
      → q < (enter env.channel_limits a name c found).0.next
  unfolding enter
  entered-lt a name c (some p) lt q e = lt q e
  entered-lt a name c none lt q e =
      if_rule (λ (d : App × Option ℕ). d.1 ≡ some q → q < d.0.next)
        (leb (bound a.cfg.max_channels) (length a.channels)) (λ _ f. cc) (λ _ f. ground (arith, f))
        e

  join_enter-Standing : (c : ℕ) (name : Text) (a : App) → P a → P (join_enter env a c name).0
  unfolding join_enter channel_for
  join_enter-Standing c name a h =
      let found = lookup name a.channels in
      let entered = enter env.channel_limits a name c found in
      subscribed-Standing c name entered.0 entered.1
        (entered-lt a name c found (λ q e. lookup-Tabled a.next name a.channels q h.rooms e))
        (Onward-Standing a entered.0 (enter-Onward env.channel_limits a name c found) h)

  spend_at-Standing : (b : Option ℕ) (now : ℕ) (a : App) → P a → P (spend_at b a now).0
  spend_at-Standing none now a h = h
  spend_at-Standing (some b) now a h = record {
    anchored = h.anchored;
    rooms = h.rooms;
    stretches = h.stretches;
  }

  pub standing-Keeps : Keeps env P
  unfolding drop_membership spend_conn spend_chan broadcast_msg register unregister leave
      sweep_channels close_channels enqueue deliver lookup
  standing-Keeps = record {
    sends = write_frame-Standing;
    tells = λ a p build.
        Onward-Standing a _
          (broadcast_to-Onward env.encode a p build quiet (λ id b. same-Onward b));
    says = λ p from body at a. Onward-Standing a _ (
        broadcast_to-Onward env.encode a p _ _ (λ id b. record {
          more = omega arith;
          logs = λ p lt. Longer-refl (b.chan_at p);
          conns = λ d. same-Fewer _ _ refl refl;
          tables = λ t. t;
        }));
    enters = λ now c name force a ok. join_enter-Standing c name a;
    drops = λ c name a. Onward-Standing a _ (set_conn-Onward c _ a (drop-Fewer name (a.conn_at c)));
    leaves = λ c m a.
        Onward-Standing a _
          (set_chan-Onward m.chan _ a (remove_member-Longer (nick a c) c (a.chan_at m.chan)));
    clears =
        λ c a. Onward-Standing a _ (set_conn-Onward c _ a (record { kept = λ name m there. cc }));
    shuts = λ t reason a. Onward-Standing a _ (set_conn-Onward t _ a (same-Fewer _ _ refl refl));
    queues = λ r a h.
        if_rule P (ltb (length a.records) record_queue)
          (λ _. record { anchored = h.anchored; rooms = h.rooms; stretches = h.stretches })
          (λ _. record { anchored = h.anchored; rooms = h.rooms; stretches = h.stretches });
    pays = λ now c a. spend_at-Standing (a.conn_at c).limit now a;
    drains = λ now p a. Onward-Standing a _ (set_chan-Onward p _ a (Longer-refl (a.chan_at p)));
    delivers = λ t frame a h.
        if_rule (λ (d : App × Bool). P d.0)
          (ltb (length (a.conn_at t).priv) (bound a.cfg.priv_buffer))
          (λ _. Onward-Standing a _ (set_conn-Onward t _ a (same-Fewer _ _ refl refl)) h) (λ _. h);
    counts = λ a h. record { anchored = h.anchored; rooms = h.rooms; stretches = h.stretches };
    moderates = λ s a h. record { anchored = h.anchored; rooms = h.rooms; stretches = h.stretches };
    accepts = λ who codec limit a h.
        let b : App = record a { next = a.next + 1 } in
        Onward-Standing b _ (set_conn-Onward a.next _ b (record { kept = λ name m there. cc }))
          (Onward-Standing a b (next-Onward a) h);
    registers = λ c a h. record { anchored = h.anchored; rooms = h.rooms; stretches = h.stretches };
    unregisters = λ c a h.
        if_rule P (is_at c (lookup (nick a c) a.conns))
          (λ _. record { anchored = h.anchored; rooms = h.rooms; stretches = h.stretches })
          (λ _. h);
    sweeps = λ a. Onward-Standing a _ (record {
      more = omega arith;
      logs = λ p lt. sweep_list-Longer a.channels a.chan_at p;
      conns = λ d. same-Fewer _ _ refl refl;
      tables = sweep_list-Tabled a.next a.channels a.chan_at;
    });
    closes = λ a. Onward-Standing a _ (record {
      more = omega arith;
      logs = λ p lt. close_list-Longer a.channels a.chan_at p;
      conns = λ d. same-Fewer _ _ refl refl;
      tables = λ t. t;
    });
  }
