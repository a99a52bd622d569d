-- ===== src/Server/Pumps/Onward.antt =====
-- What the server writes only adds to the rings, and a membership that it does not store is an old one.
use ws_chat.Base.{
  ℕ, ◌+◌, ◌≤◌, ◌<◌, ◌≡◌, refl, ap, subst, sym, ◌∙◌, Option, none, some, List, [], ◌∷◌, ◌++◌,
  append-nil, append_assoc, eqb, ltb, leb, if_rule, length, All, All-map, ◌==◌, Text, text_keyed,
  arith,
}
use ws_chat.Base.Dict.{Dict, lookup, insert, delete, lookup-delete}
use ws_chat.Hook.{Limits}
use ws_chat.Config.{bound}
use ws_chat.Proto.Codec.{Codec}
use ws_chat.Proto.Frame.{Outbound}
use ws_chat.Server.State.{
  Ring, send_ring, Membership, Channel, Conn, App, set_at, set_conn, set_chan,
}
use ws_chat.Server.Channels.{
  nick, is_at, add_member, remove_member, close_all, sweep_list, close_list, enter, fan_out,
  send_frames, next_seq, encode_all, broadcast_to,
}

-- The frames of the one ring are the first of the other.
abbrev pub Grown : Ring → Ring → Type 0
Grown r s = (rest : List Text) × (s.log ≡ r.log ++ rest)

abbrev pub Longer : Channel → Channel → Type 0
Longer ch dh = (c : Codec) → Grown (ch.rings c) (dh.rings c)

pub Longer-refl : (ch : Channel) → Longer ch ch
Longer-refl ch c = ([], sym (append-nil (ch.rings c).log))

pub Longer-trans : (x y z : Channel) → Longer x y → Longer y z → Longer x z
Longer-trans x y z f g c =
    let (r, e) = f c in
    let (s, d) = g c in (r ++ s, d ∙ ap (λ l. l ++ s) e ∙ append_assoc (x.rings c).log r s)

-- One write through a pointer, of what is related to the old value.
set_at-related :
    {A : Type 0} (R : A → A → Type 0) (p q : ℕ) (v : A) (at : ℕ → A)
    → ((x : A) → R x x)
    → R (at p) v
    → R (at q) (set_at p v at q)
set_at-related R p q v at same h =
    if_rule (R (at q)) (eqb p q) (λ e. subst (λ k. R (at k) v) (ground arith) h) (λ _. same (at q))

pub set_at-Longer :
    (p q : ℕ) (ch : Channel) (at : ℕ → Channel)
    → Longer (at p) ch
    → Longer (at q) (set_at p ch at q)
set_at-Longer p q ch at h = set_at-related Longer p q ch at Longer-refl h

-- A connection with no membership that it did not have.
pub record Fewer (s t : Conn) : Type 0 where
  pub kept :
      (name : Text) (m : Membership)
      → lookup name t.memberships ≡ some m
      → (t.codec ≡ s.codec) × (lookup name s.memberships ≡ some m)

-- The table of channels points to channels that are there.
abbrev pub Tabled : ℕ → Dict Text ℕ → Type 0
Tabled next table = All (λ (r : Text × ℕ). r.1 < next) table

pub record Onward (a b : App) : Type 0 where
  pub more : a.next ≤ b.next
  pub logs : (p : ℕ) → p < a.next → Longer (a.chan_at p) (b.chan_at p)
  pub conns : (c : ℕ) → Fewer (a.conn_at c) (b.conn_at c)
  pub tables : Tabled a.next a.channels → Tabled b.next b.channels

pub same-Fewer : (s t : Conn) → t.codec ≡ s.codec → t.memberships ≡ s.memberships → Fewer s t
same-Fewer s t e d = record { kept = λ name m h. (e, sym (ap (lookup name) d) ∙ h) }

-- Nothing of it is written.
pub same-Onward : (a : App) → Onward a a
same-Onward a = record {
  more = omega arith;
  logs = λ p lt. Longer-refl (a.chan_at p);
  conns = λ c. same-Fewer _ _ refl refl;
  tables = λ t. t;
}

pub Onward-trans : (a b c : App) → Onward a b → Onward b c → Onward a c
Onward-trans a b c f g = record {
  more = omega (arith, f.more, g.more);
  logs = λ p lt.
      Longer-trans (a.chan_at p) (b.chan_at p) (c.chan_at p) (f.logs p lt)
        (g.logs p (omega (arith, f.more, lt)));
  conns = λ d. record {
    kept = λ name m h.
        let (e, l) = (g.conns d).kept name m h in
        let (e', l') = (f.conns d).kept name m l in (e ∙ e', l');
  };
  tables = λ t. g.tables (f.tables t);
}

-- A write to one connection.
pub set_conn-Onward :
    (c : ℕ) (s : Conn) (a : App) → Fewer (a.conn_at c) s → Onward a (set_conn c s a)
set_conn-Onward c s a h = record {
  more = omega arith;
  logs = λ p lt. Longer-refl (a.chan_at p);
  conns = λ d. set_at-related Fewer c d s a.conn_at (λ t. same-Fewer t t refl refl) h;
  tables = λ t. t;
}

pub set_chan-Onward :
    (p : ℕ) (ch : Channel) (a : App) → Longer (a.chan_at p) ch → Onward a (set_chan p ch a)
set_chan-Onward p ch a h = record {
  more = omega arith;
  logs = λ q lt. set_at-Longer p q ch a.chan_at h;
  conns = λ d. same-Fewer _ _ refl refl;
  tables = λ t. t;
}

send_ring-Grown : (frame : Text) (r : Ring) → Grown r (send_ring frame r)
send_ring-Grown frame r =
    if_rule (Grown r) r.shut (λ _. ([], sym (append-nil r.log))) (λ _. (frame ∷ [], refl))

pub fan_out-Longer : (frames : Codec → Text) (ch : Channel) → Longer ch (fan_out frames ch)
unfolding fan_out
fan_out-Longer frames ch c = send_ring-Grown (frames c) (ch.rings c)

pub remove_member-Longer : (who : Text) (c : ℕ) (ch : Channel) → Longer ch (remove_member who c ch)
unfolding remove_member
remove_member-Longer who c ch =
    if_rule (Longer ch) (is_at c (lookup who ch.members)) (λ _. Longer-refl ch)
      (λ _. Longer-refl ch)

pub sweep_list-Longer :
    (table : Dict Text ℕ) (at : ℕ → Channel) (p : ℕ) → Longer (at p) ((sweep_list table at).1 p)
unfolding sweep_list
sweep_list-Longer [] at p = Longer-refl (at p)
sweep_list-Longer ((name, r) ∷ table) at p =
    let memory = (sweep_list table at).1 in
    let rest = sweep_list-Longer table at p in
    if_rule (λ (d : Dict Text ℕ × (ℕ → Channel) × ℕ). Longer (at p) (d.1 p))
      (ltb 0 (length (at r).members)) (λ _. rest)
      (λ _.
        Longer-trans (at p) (memory p) (set_at r (close_all (memory r)) memory p) rest
          (set_at-Longer r p (close_all (memory r)) memory (Longer-refl (memory r))))

pub close_list-Longer :
    (table : Dict Text ℕ) (at : ℕ → Channel) (p : ℕ) → Longer (at p) (close_list table at p)
unfolding close_list
close_list-Longer [] at p = Longer-refl (at p)
close_list-Longer ((name, r) ∷ table) at p =
    let memory = close_list table at in
    Longer-trans (at p) (memory p) (set_at r (close_all (memory r)) memory p)
      (close_list-Longer table at p)
      (set_at-Longer r p (close_all (memory r)) memory (Longer-refl (memory r)))

pub drop-Fewer :
    (name : Text) (s : Conn) → Fewer s (record s { memberships = delete name s.memberships })
drop-Fewer name s = record {
  kept = λ other m h. (refl, ground (arith, lookup-delete name other s.memberships, h));
}

pub send_frames-Onward :
    (a : App) (p : ℕ) (after : ℕ → App → App) (frames : Option (Codec → Text))
    → ((id : ℕ) (b : App) → Onward b (after id b))
    → Onward a (send_frames a p after frames).0
unfolding send_frames
send_frames-Onward a p after none keep = same-Onward a
send_frames-Onward a p after (some frames) keep =
    let told = after a.seq a in
    Onward-trans a told _ (keep a.seq a)
      (set_chan-Onward p _ told (fan_out-Longer frames (told.chan_at p)))

pub broadcast_to-Onward :
    (encode : Codec → Outbound → Option Text) (a : App) (p : ℕ) (build : ℕ → Outbound)
    (after : ℕ → App → App)
    → ((id : ℕ) (b : App) → Onward b (after id b))
    → Onward a (broadcast_to encode a p build after).0
unfolding broadcast_to
broadcast_to-Onward encode a p build after keep =
    let h =
      send_frames-Onward (record a { seq = next_seq a }) p after
        (encode_all encode (build (next_seq a))) keep in
    record { more = h.more; logs = h.logs; conns = h.conns; tables = h.tables }

insert-Tabled :
    (next : ℕ) (name : Text) (table : Dict Text ℕ)
    → Tabled next table
    → Tabled (next + 1) (insert name next table)
unfolding insert
insert-Tabled next name [] t = (omega arith, tt)
insert-Tabled next name ((other, p) ∷ table) t =
    if_rule (Tabled (next + 1)) (other == name)
      (λ _. (omega arith, All-map _ _ table (λ r lt. omega (arith, lt)) t.1))
      (λ _. (omega (arith, t.0), insert-Tabled next name table t.1))

pub lookup-Tabled :
    (next : ℕ) (name : Text) (table : Dict Text ℕ) (p : ℕ)
    → Tabled next table
    → lookup name table ≡ some p
    → p < next
unfolding lookup
lookup-Tabled next name [] p t e = cc
lookup-Tabled next name ((other, q) ∷ table) p t e =
    ground (arith, lookup-Tabled next name table p t.1, e, t.0)

pub sweep_list-Tabled :
    (next : ℕ) (table : Dict Text ℕ) (at : ℕ → Channel)
    → Tabled next table
    → Tabled next (sweep_list table at).0
unfolding sweep_list
sweep_list-Tabled next [] at t = t
sweep_list-Tabled next ((name, p) ∷ table) at t =
    let rest = sweep_list-Tabled next table at t.1 in
    if_rule (λ (d : Dict Text ℕ × (ℕ → Channel) × ℕ). Tabled next d.0)
      (ltb 0 (length (at p).members)) (λ _. (t.0, rest)) (λ _. rest)

-- A new channel is where no pointer pointed to.
pub enter-Onward :
    (limits : Option (Text → Limits)) (a : App) (name : Text) (c : ℕ) (found : Option ℕ)
    → Onward a (enter limits a name c found).0
unfolding enter add_member
enter-Onward limits a name c (some p) =
    set_chan-Onward p (add_member (nick a c) c (a.chan_at p)) a (Longer-refl (a.chan_at p))
enter-Onward limits a name c none =
    if_rule (λ (d : App × Option ℕ). Onward a d.0)
      (leb (bound a.cfg.max_channels) (length a.channels)) (λ _. same-Onward a)
      (λ _. record {
        more = omega arith;
        logs = λ p lt.
            if_rule (Longer (a.chan_at p)) (eqb a.next p) (λ e. absurd (ground (arith, e, lt)))
              (λ _. Longer-refl (a.chan_at p));
        conns = λ d. same-Fewer _ _ refl refl;
        tables = λ t. insert-Tabled a.next name a.channels t;
      })
