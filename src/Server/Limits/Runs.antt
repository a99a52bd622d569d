-- ===== src/Server/Limits/Runs.antt =====
-- Every write of the handlers keeps the limits, and so does a run.
use ws_chat.Base.{
  ℕ, suc, ◌+◌, ◌≤◌, ◌<◌, ◌≡◌, refl, ap, Bool, Option, none, some, List, [], ◌∷◌, ltb, if_rule, Text,
  text_keyed, length, length-append, arith,
}
use ws_chat.Base.Dict.{Dict, lookup, insert, length-insert, length-delete-le}
use ws_chat.Config.{Config, bound}
use ws_chat.Server.State.{Membership, Channel, Record, Conn, App}
use ws_chat.Server.Env.{Env}
use ws_chat.Server.Channels.{
  nick, is_at, enter, channel_for, sweep_list, sweep_channels, close_channels,
}
use ws_chat.Server.Messages.{broadcast_msg}
use ws_chat.Server.Membership.{
  quiet, leave, store_membership, drop_membership, subscribed, new_membership, join_refused,
  join_enter,
}
use ws_chat.Server.Handlers.{
  record_queue, enqueue, spend_at, spend_conn, spend_chan, deliver, register, unregister,
}
use ws_chat.Server.Run.{Event, new_app, run_events}
use ws_chat.Server.Keeping.{Keeps}
use ws_chat.Server.Keeping.Commands.{run_events-P}
use ws_chat.Server.Limits.{
  Small, Bounded, set_conn-B, write_frame-B, broadcast_to-B, enter-B, not_refused,
}

module _ (env : Env) (cfg : Config) where
  abbrev B : App → Type 0
  B a = Bounded cfg a

  -- One more membership, below the limit.
  store-Small :
      (name : Text) (m : Membership) (s : Conn)
      → length s.memberships < bound cfg.max_channels_per_conn
      → Small cfg s
      → Small cfg (record s { memberships = insert name m s.memberships })
  store-Small name m s room ok = (ground (arith, length-insert name m s.memberships), ok.1)

  subscribed-B :
      (c : ℕ) (name : Text) (a : App) (p : Option ℕ)
      → length (a.conn_at c).memberships < bound cfg.max_channels_per_conn
      → B a
      → B (subscribed env c name a p).0
  unfolding store_membership
  subscribed-B c name a none room h = h
  subscribed-B c name a (some p) room h =
      set_conn-B env cfg c _ (record a { next = a.next + 1 })
        (store-Small name (new_membership env a c p) (a.conn_at c) room (h.each c))
        (record { same = h.same; rooms = h.rooms; each = h.each; waiting = h.waiting })

  join_enter-B :
      (now c : ℕ) (name : Text) (force : Bool) (a : App)
      → join_refused env a now c name force ≡ none
      → B a
      → B (join_enter env a c name).0
  unfolding join_enter channel_for
  join_enter-B now c name force a ok h =
      let found = enter env.channel_limits a name c (lookup name a.channels) in
      let entered = enter-B env cfg a name c (lookup name a.channels) h in
      let mine = ap (λ (s : Conn). length s.memberships) (entered.1 c) in
      let same = ap (λ (x : Config). bound x.max_channels_per_conn) h.same in
      subscribed-B c name found.0 found.1
        (ground (arith, mine, same, not_refused env cfg now c name force a ok)) entered.0

  spend_at-B : (b : Option ℕ) (now : ℕ) (a : App) → B a → B (spend_at b a now).0
  spend_at-B none now a h = h
  spend_at-B (some b) now a h = record {
    same = h.same;
    rooms = h.rooms;
    each = h.each;
    waiting = h.waiting;
  }

  -- A full queue drops the record.
  enqueue-B : (r : Record) (a : App) → B a → B (enqueue r a)
  unfolding enqueue
  enqueue-B r a h =
      if_rule B (ltb (length a.records) record_queue)
        (λ room. record {
          same = h.same;
          rooms = h.rooms;
          each = h.each;
          waiting = ground (arith, length-append a.records (r ∷ []), room);
        })
        (λ _. record { same = h.same; rooms = h.rooms; each = h.each; waiting = h.waiting })

  -- A full private queue refuses the frame.
  deliver-B : (t : ℕ) (frame : Text) (a : App) → B a → B (deliver env t frame a).0
  unfolding deliver
  deliver-B t frame a h =
      if_rule (λ (d : App × Bool). B d.0)
        (ltb (length (a.conn_at t).priv) (bound a.cfg.priv_buffer))
        (λ room.
          set_conn-B env cfg t _ a
            (
              (h.each t).0,
              ground (
                arith,
                length-append (a.conn_at t).priv (frame ∷ []),
                room,
                ap (λ (x : Config). bound x.priv_buffer) h.same,
              ),
            )
            h)
        (λ _. h)

  length-sweep_list-le :
      (table : Dict Text ℕ) (at : ℕ → Channel) → length (sweep_list table at).0 ≤ length table
  unfolding sweep_list
  length-sweep_list-le [] at = omega arith
  length-sweep_list-le ((name, p) ∷ table) at =
      let rest = length-sweep_list-le table at in
      if_rule (λ (d : Dict Text ℕ × (ℕ → Channel) × ℕ). length d.0 ≤ suc (length table))
        (ltb 0 (length (at p).members)) (λ _. omega (arith, rest)) (λ _. omega (arith, rest))

  -- What the handlers write keeps the limits.
  limits-Keeps : Keeps env B
  unfolding drop_membership spend_conn spend_chan broadcast_msg register unregister leave
      sweep_channels close_channels
  limits-Keeps = record {
    sends = write_frame-B env cfg;
    tells = λ a p build h. broadcast_to-B env cfg a p build quiet (λ id b g. g) h;
    says = λ p from body at a h.
        broadcast_to-B env cfg a p _ _
          (λ id b g. record { same = g.same; rooms = g.rooms; each = g.each; waiting = g.waiting })
          h;
    enters = join_enter-B;
    drops = λ c name a h.
        set_conn-B env cfg c _ a
          (
            omega (arith, (h.each c).0, length-delete-le name (a.conn_at c).memberships),
            (h.each c).1,
          )
          h;
    leaves =
        λ c m a h. record { same = h.same; rooms = h.rooms; each = h.each; waiting = h.waiting };
    clears = λ c a h. set_conn-B env cfg c _ a (omega arith, (h.each c).1) h;
    shuts = λ t reason a h. set_conn-B env cfg t _ a (h.each t) h;
    queues = enqueue-B;
    pays = λ now c a h. spend_at-B (a.conn_at c).limit now a h;
    drains =
        λ now p a h. record { same = h.same; rooms = h.rooms; each = h.each; waiting = h.waiting };
    delivers = deliver-B;
    counts = λ a h. record { same = h.same; rooms = h.rooms; each = h.each; waiting = h.waiting };
    moderates =
        λ s a h. record { same = h.same; rooms = h.rooms; each = h.each; waiting = h.waiting };
    accepts = λ who codec limit a h.
        set_conn-B env cfg a.next _ (record a { next = a.next + 1 }) (omega arith, omega arith)
          (record { same = h.same; rooms = h.rooms; each = h.each; waiting = h.waiting });
    registers =
        λ c a h. record { same = h.same; rooms = h.rooms; each = h.each; waiting = h.waiting };
    unregisters = λ c a h.
        if_rule B (is_at c (lookup (nick a c) a.conns))
          (λ _. record { same = h.same; rooms = h.rooms; each = h.each; waiting = h.waiting })
          (λ _. h);
    sweeps = λ a h. record {
      same = h.same;
      rooms = omega (arith, h.rooms, length-sweep_list-le a.channels a.chan_at);
      each = h.each;
      waiting = h.waiting;
    };
    closes = λ a h. record { same = h.same; rooms = h.rooms; each = h.each; waiting = h.waiting };
  }

-- In every run of a new server, whatever is sent to it: there are never more channels than
-- `max_channels`, no connection is ever in more than `max_channels_per_conn` channels or has more
-- than `priv_buffer` private frames waiting, and at most 1024 records wait for the Recorder and the
-- Sanctions hook. The connections that are not there yet have to be within the limits.
pub run_events-Bounded :
    (env : Env) (cfg : Config) (blank : Conn) (es : List (ℕ × Event))
    → Small cfg blank
    → Bounded cfg (run_events env es (new_app cfg blank))
unfolding new_app
run_events-Bounded env cfg blank es ok =
    run_events-P env (Bounded cfg) (limits-Keeps env cfg) es (new_app cfg blank)
      (record { same = refl; rooms = omega arith; each = λ c. ok; waiting = omega arith })
