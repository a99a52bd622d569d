-- ===== src/Server/Run.antt =====
-- The server as a sequence of what its connections and its janitor do, one after the other. Each of them
-- is one step here; FanOut and Race take apart those that are written to meet halfway.
use ws_chat.Base.{ℕ, ◌+◌, Option, none, List, [], ◌∷◌}
use ws_chat.Proto.Command.{Command}
use ws_chat.Proto.Codec.{Codec}
use ws_chat.Config.{Config, bound}
use ws_chat.Hook.{Identity}
use ws_chat.Server.State.{Channel, Conn, live, App, new_ring, set_conn}
use ws_chat.Server.Env.{Env}
use ws_chat.Server.Channels.{sweep_channels, close_channels}
use ws_chat.Server.Dispatch.{dispatch, connect, disconnect}
use ws_chat.Moderation.{new, sweep}
use ws_chat.History.{new_memory}

-- A connection that was accepted, a command of one, its end, a round of the janitor, the shutdown.
pub data Event : Type 0 where
  accepted : Identity → Codec → Option ℕ → Event
  command : ℕ → Command → Event
  gone : ℕ → Event
  sweeping shutting : Event

-- What no pointer points to yet.
abbrev pub blank_conn : Codec → Identity → Option ℕ → Conn
blank_conn codec who limit = record {
  identity = who;
  codec = codec;
  memberships = [];
  limit = limit;
  priv = [];
  sent = [];
  socket = live;
}

abbrev pub blank_chan : Channel
blank_chan = record { name = []; rings = λ c. new_ring; limit = none; members = [] }

-- `newAppWithConfig`, without the sanctions it loads.
unfoldable pub new_app : Config → Conn → App
new_app cfg blank = record {
  cfg = cfg;
  conns = [];
  channels = [];
  conn_at = λ p. blank;
  chan_at = λ p. blank_chan;
  bucket_at = λ p. none;
  next = 0;
  seq = 0;
  store = new;
  hist = new_memory (bound cfg.backlog);
  records = [];
  dropped = 0;
}

module _ (env : Env) where
  unfoldable pub on_event : ℕ → Event → App → App
  on_event now (accepted who codec limit) a =
      connect env (set_conn a.next (blank_conn codec who limit) (record a { next = a.next + 1 }))
        now a.next
  on_event now (command c cmd) a = dispatch env a now c cmd
  on_event now (gone c) a = disconnect env a c
  on_event now sweeping a = (sweep_channels (record a { store = (sweep a.store now).0 })).0
  on_event now shutting a = close_channels a

  unfoldable pub run_events : List (ℕ × Event) → App → App
  run_events [] a = a
  run_events ((now, e) ∷ es) a = run_events es (on_event now e a)
