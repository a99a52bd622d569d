-- ===== src/Server/Alike.antt =====
-- conn.go: what spending the tokens of a message leaves as it was.
use ws_chat.Base.{ℕ, ◌≡◌, refl, subst, Option, none, some, arith, eqb, if_rule}
use ws_chat.Proto.Codec.{Codec}
use ws_chat.Server.State.{Channel, App}
use ws_chat.Server.Handlers.{spend_at, spend_chan}

-- No ring and no history has changed.
pub record Unheard (a b : App) : Type 0 where
  pub rings : (p : ℕ) (c : Codec) → (b.chan_at p).rings c ≡ (a.chan_at p).rings c
  pub hist : b.hist ≡ a.hist

-- What the later checks look at.
pub record Alike (a b : App) : Type 0 where
  pub unheard : Unheard a b
  pub store : b.store ≡ a.store
  pub cfg : b.cfg ≡ a.cfg
  pub conn_at : (c : ℕ) → b.conn_at c ≡ a.conn_at c
  pub named : (p : ℕ) → (b.chan_at p).name ≡ (a.chan_at p).name
  pub seq : b.seq ≡ a.seq

pub spend_at-Alike : (b : Option ℕ) (now : ℕ) (a : App) → Alike a (spend_at b a now).0
spend_at-Alike none now a = record {
  unheard = record { rings = λ p c. refl; hist = refl };
  store = refl;
  cfg = refl;
  conn_at = λ c. refl;
  named = λ p. refl;
  seq = refl;
}
spend_at-Alike (some b) now a = record {
  unheard = record { rings = λ p c. refl; hist = refl };
  store = refl;
  cfg = refl;
  conn_at = λ c. refl;
  named = λ p. refl;
  seq = refl;
}

pub spend_chan-Alike : (now p : ℕ) (a b : App) → Alike a b → Alike a (spend_chan b now p).0
unfolding spend_chan
spend_chan-Alike now p a b h = record {
  unheard = record {
    rings = λ q c.
        if_rule (λ (ch : Channel). ch.rings c ≡ (a.chan_at q).rings c) (eqb p q)
          (λ e.
            let same : p ≡ q = ground arith in
            subst (λ r. (b.chan_at p).rings c ≡ (a.chan_at r).rings c) same (h.unheard.rings p c))
          (λ _. h.unheard.rings q c);
    hist = h.unheard.hist;
  };
  store = h.store;
  cfg = h.cfg;
  conn_at = h.conn_at;
  named = λ q.
      if_rule (λ (ch : Channel). ch.name ≡ (a.chan_at q).name) (eqb p q)
        (λ e.
          let same : p ≡ q = ground arith in
          subst (λ r. (b.chan_at p).name ≡ (a.chan_at r).name) same (h.named p))
        (λ _. h.named q);
  seq = h.seq;
}
