-- ===== src/Server/Lifecycle.antt =====
-- init.go, main.go, shutdown.go and debug.go: how the server starts and how it ends. What the operating
-- system and net/http answer are parameters, and so is whether slog knows a level.
pub mod Endings
pub mod Returning
mod Tests
use ws_chat.Base.{
  ℕ, Bool, true, false, not, Option, none, some, List, [], ◌∷◌, if◌then◌else◌, Text, bytes, ◌==◌,
  text_keyed,
}
use ws_chat.Base.Dict.{Dict}
use ws_chat.Hook.{Sanction}
use ws_chat.Config.{Config, File, Loaded, loaded, failed, load}
use ws_chat.Moderation.{Store}
use ws_chat.Server.State.{Conn, App, cut, close_conn}
use ws_chat.Server.Channels.{close_channels}
use ws_chat.Server.Run.{new_app}
use ws_chat.Server.Sanctions.{load_sanctions}

-- The store that was loaded, or the error that stops the server.
abbrev pub with_store : App → Option (Store × ℕ) → Option App
with_store a none = none
with_store a (some (s, n)) = some (record a { store = s })

-- `newAppWithConfig`, with what the Sanctions hook answers.
unfoldable pub new_app_with :
    (Text → Bool) → Option (Option (List Sanction)) → Config → Conn → Option App
new_app_with is_level sanctions cfg blank =
    let a = new_app cfg blank in
    let ready = with_store a (load_sanctions sanctions a.store) in
    if is_level cfg.log_level then ready else none

-- `serveDebug`, with the error of `net.Listen`, if it has one.
abbrev pub serve_debug : Option Text → Config → Option Text
serve_debug listen cfg = if cfg.debug_addr == [] then none else listen

-- How `ListenAndServe` ends.
pub data Served : Type 0 where
  server_closed : Served
  broke : Text → Served

-- What `run` sees first: the listener ends, or a signal comes, after which `Shutdown` may fail.
pub data First : Type 0 where
  listener : Served → First
  signal : Option Text → First

-- The loop of `close` over the connections.
unfoldable pub close_conns : Dict Text ℕ → App → App
close_conns [] a = a
close_conns ((nick, c) ∷ rest) a = close_conns rest (close_conn (bytes "server shutting down") c a)

-- `stopConn`: a read whose context is cancelled cuts the socket off.
abbrev pub stop_conn : App → App
stop_conn a = record a { conn_at = λ c. record (a.conn_at c) { socket = cut (a.conn_at c).socket } }

-- `close`; the worker of the records drains its queue meanwhile.
unfoldable pub close_app : App → App
close_app a = close_channels (stop_conn (close_conns a.conns a))

abbrev pub served_error : Served → Option Text
served_error server_closed = none
served_error (broke e) = some e

abbrev pub until_end : First → App → App × Option Text
until_end (listener end) a = (a, served_error end)
until_end (signal err) a = (close_app a, err)

-- `run`: the state it leaves, and its error.
unfoldable pub run : Option Text → First → App → App × Option Text
run listen first a =
    let ended = until_end first a in
    elim (serve_debug listen a.cfg) [ none ↦ ended | some e ↦ (a, some e) ]
