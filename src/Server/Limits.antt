-- ===== src/Server/Limits.antt =====
-- The limits of the configuration, over every run of the server.
pub mod Runs
use ws_chat.Base.{
  ℕ, suc, ◌+◌, ◌≤◌, ◌<◌, ◌≡◌, refl, sym, ap, ◌∙◌, Bool, true, false, not, Option, none, some, List,
  [], ◌∷◌, ◌++◌, ltb, leb, eqb, if◌then◌else◌, if_rule, Text, text_keyed, length, length-append,
  arith,
}
use ws_chat.Base.Dict.{Dict, lookup, insert, delete, has, length-insert, length-delete-le}
use ws_chat.Hook.{Identity}
use ws_chat.Config.{Config, bound}
use ws_chat.Proto.Codec.{Codec}
use ws_chat.Proto.Frame.{Outbound}
use ws_chat.Server.State.{Membership, Channel, Record, Conn, App, set_conn, set_chan}
use ws_chat.Server.Env.{Env}
use ws_chat.Server.Names.{valid_channel}
use ws_chat.Server.Channels.{
  nick, is_at, enter, channel_for, fan_out, send_frames, next_seq, encode_all, broadcast_to,
  sweep_list, sweep_channels, close_channels,
}
use ws_chat.Server.Messages.{write_frame, broadcast_msg}
use ws_chat.Server.Membership.{
  quiet, leave, store_membership, drop_membership, subscribed, new_membership, join_refused,
  join_enter,
}
use ws_chat.Server.Handlers.{
  record_queue, enqueue, spend_at, spend_conn, spend_chan, deliver, register, unregister,
}
use ws_chat.Server.Run.{Event, blank_conn, new_app, run_events}
use ws_chat.Server.Keeping.{Keeps}
use ws_chat.Server.Keeping.Commands.{run_events-P}

-- The state of one connection within the limits.
abbrev pub Small : Config → Conn → Type 0
Small cfg s =
    (length s.memberships ≤ bound cfg.max_channels_per_conn)
    × (length s.priv ≤ bound cfg.priv_buffer)

-- The tables and queues of the server within the limits of its configuration.
pub record Bounded (cfg : Config) (a : App) : Type 0 where
  pub same : a.cfg ≡ cfg
  pub rooms : length a.channels ≤ bound cfg.max_channels
  pub each : (c : ℕ) → Small cfg (a.conn_at c)
  pub waiting : length a.records ≤ record_queue

module _ (env : Env) (cfg : Config) where
  abbrev pub B : App → Type 0
  B a = Bounded cfg a

  -- A write through the pointer of one connection.
  pub set_conn-B : (c : ℕ) (s : Conn) (a : App) → Small cfg s → B a → B (set_conn c s a)
  set_conn-B c s a ok h = record {
    same = h.same;
    rooms = h.rooms;
    each = λ d. if_rule (Small cfg) (eqb c d) (λ _. ok) (λ _. h.each d);
    waiting = h.waiting;
  }

  pub write_frame-B : (c : ℕ) (a : App) (frame : Option Text) → B a → B (write_frame env c a frame)
  write_frame-B c a none h = h
  write_frame-B c a (some frame) h = set_conn-B c _ a (h.each c) h

  -- The counter, the history and the channels' memory are not limited here.
  send_frames-B :
      (a : App) (p : ℕ) (after : ℕ → App → App) (frames : Option (Codec → Text))
      → ((id : ℕ) (b : App) → B b → B (after id b))
      → B a
      → B (send_frames a p after frames).0
  unfolding send_frames
  send_frames-B a p after none keep h = h
  send_frames-B a p after (some frames) keep h =
      let t = keep a.seq a h in
      record { same = t.same; rooms = t.rooms; each = t.each; waiting = t.waiting }

  pub broadcast_to-B :
      (a : App) (p : ℕ) (build : ℕ → Outbound) (after : ℕ → App → App)
      → ((id : ℕ) (b : App) → B b → B (after id b))
      → B a
      → B (broadcast_to env.encode a p build after).0
  unfolding broadcast_to
  broadcast_to-B a p build after keep h =
      send_frames-B (record a { seq = next_seq a }) p after
        (encode_all env.encode (build (next_seq a))) keep
        (record { same = h.same; rooms = h.rooms; each = h.each; waiting = h.waiting })

  -- A channel is made only while there are fewer than the limit.
  pub enter-B :
      (a : App) (name : Text) (c : ℕ) (found : Option ℕ)
      → B a
      → B (enter env.channel_limits a name c found).0
        × ((d : ℕ) → (enter env.channel_limits a name c found).0.conn_at d ≡ a.conn_at d)
  unfolding enter
  enter-B a name c (some p) h =
      (record { same = h.same; rooms = h.rooms; each = h.each; waiting = h.waiting }, λ d. refl)
  enter-B a name c none h =
      if_rule (λ (d : App × Option ℕ). B d.0 × ((e : ℕ) → d.0.conn_at e ≡ a.conn_at e))
        (leb (bound a.cfg.max_channels) (length a.channels)) (λ _. (h, λ d. refl))
        (λ room. (
          record {
            same = h.same;
            rooms = ground (
              arith,
              length-insert name a.next a.channels,
              ap (λ (x : Config). bound x.max_channels) h.same,
            );
            each = h.each;
            waiting = h.waiting;
          },
          λ d. refl,
        ))

  -- A join is refused at the limit of the connection.
  pub not_refused :
      (now c : ℕ) (name : Text) (force : Bool) (a : App)
      → join_refused env a now c name force ≡ none
      → length (a.conn_at c).memberships < bound a.cfg.max_channels_per_conn
  unfolding join_refused
  not_refused now c name force a ok = ground arith
