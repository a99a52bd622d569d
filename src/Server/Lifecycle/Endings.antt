-- ===== src/Server/Lifecycle/Endings.antt =====
-- shutdown.go: what members and connections see of the end.
use ws_chat.Base.{
  ℕ, ◌≡◌, ◌≢◌, refl, ap, ◌∙◌, subst, Bool-cases, inl, inr, true, some, [], ◌∷◌, eqb, if_rule, Text,
  bytes, text_keyed, arith,
}
use ws_chat.Base.Dict.{Dict, lookup}
use ws_chat.Proto.Codec.{Codec}
use ws_chat.Server.State.{
  Channel, Socket, live, cut_off, closing, close_socket, cut, Conn, App, close_conn,
}
use ws_chat.Server.Channels.{close_list}
use ws_chat.Server.Lifecycle.{close_conns}

-- The loop over the table of channels: it adds nothing to a ring, and shuts each that is listed.
pub close_list-log :
    (table : Dict Text ℕ) (at : ℕ → Channel) (p : ℕ) (c : Codec)
    → (((close_list table at) p).rings c).log ≡ ((at p).rings c).log
unfolding close_list
close_list-log [] at p c = refl
close_list-log ((name, r) ∷ table) at p c =
    let memory = close_list table at in
    if_rule (λ (ch : Channel). (ch.rings c).log ≡ ((at p).rings c).log) (eqb r p)
      (λ e.
        subst (λ q. ((memory r).rings c).log ≡ ((at q).rings c).log) (ground (arith, e))
          (close_list-log table at r c))
      (λ _. close_list-log table at p c)

pub close_list-shut :
    (table : Dict Text ℕ) (at : ℕ → Channel) (name : Text) (p : ℕ) (c : Codec)
    → lookup name table ≡ some p
    → (((close_list table at) p).rings c).shut ≡ true
unfolding close_list lookup
close_list-shut [] at name p c there = absurd (cc)
close_list-shut ((other, r) ∷ table) at name p c there =
    let memory = close_list table at in
    if_rule (λ (ch : Channel). (ch.rings c).shut ≡ true) (eqb r p) (λ _. refl)
      (λ apart. close_list-shut table at name p c (ground (arith, there, apart)))

abbrev pub goodbye : Text
goodbye = bytes "server shutting down"

-- A socket that was closed once stays so.
close_socket-twice :
    (reason : Text) (s : Socket)
    → close_socket reason (close_socket reason s) ≡ close_socket reason s
close_socket-twice reason live = refl
close_socket-twice reason cut_off = refl
close_socket-twice reason (closing first) = refl

-- What a socket is after the loop, if it was `s` or was closed in the loop already.
close_conns-stays :
    (table : Dict Text ℕ) (a : App) (c : ℕ) (s : Socket)
    → (a.conn_at c).socket ≡ close_socket goodbye s
    → ((close_conns table a).conn_at c).socket ≡ close_socket goodbye s
unfolding close_conns
close_conns-stays [] a c s h = h
close_conns-stays ((nick, d) ∷ table) a c s h =
    close_conns-stays table (close_conn goodbye d a) c s (
      if_rule (λ (t : Conn). t.socket ≡ close_socket goodbye s) (eqb d c)
        (λ e.
          ap (λ k. close_socket goodbye (a.conn_at k).socket) (ground (arith, e))
          ∙ ap (close_socket goodbye) h
          ∙ close_socket-twice goodbye s)
        (λ _. h))

pub close_conns-closed :
    (table : Dict Text ℕ) (a : App) (nick : Text) (c : ℕ) (s : Socket)
    → lookup nick table ≡ some c
    → (a.conn_at c).socket ≡ s
    → ((close_conns table a).conn_at c).socket ≡ close_socket goodbye s
unfolding close_conns lookup
close_conns-closed [] a nick c s there h = absurd (cc)
close_conns-closed ((other, d) ∷ table) a nick c s there h =
    let b = close_conn goodbye d a in
    elim (Bool-cases (eqb d c)) [
      | inl e ↦ close_conns-stays table b c s (
          if_rule (λ (t : Conn). t.socket ≡ close_socket goodbye s) (eqb d c)
            (λ _.
              ap (λ k. close_socket goodbye (a.conn_at k).socket) (ground (arith, e))
              ∙ ap (close_socket goodbye) h)
            (λ no. absurd (ground (arith, e, no))))
      | inr apart ↦ close_conns-closed table b nick c s (ground (arith, there, apart)) (
          if_rule (λ (t : Conn). t.socket ≡ s) (eqb d c) (λ e. absurd (ground (arith, e, apart)))
            (λ _. h))
    ]

-- A reason that was given before is not given again.
pub close_conns-first :
    (table : Dict Text ℕ) (a : App) (c : ℕ) (first : Text)
    → (a.conn_at c).socket ≡ closing first
    → ((close_conns table a).conn_at c).socket ≡ closing first
close_conns-first table a c first h = close_conns-stays table a c (closing first) h

pub cut-ne-live : (s : Socket) → cut s ≢ live
cut-ne-live live = λ e. cc
cut-ne-live cut_off = λ e. cc
cut-ne-live (closing first) = λ e. cc

-- It writes to nothing else.
pub close_conns-rest :
    (table : Dict Text ℕ) (a : App)
    → ((close_conns table a).cfg ≡ a.cfg)
      × ((close_conns table a).channels ≡ a.channels)
      × ((close_conns table a).chan_at ≡ a.chan_at)
unfolding close_conns
close_conns-rest [] a = (refl, refl, refl)
close_conns-rest ((nick, d) ∷ table) a = close_conns-rest table (close_conn goodbye d a)
