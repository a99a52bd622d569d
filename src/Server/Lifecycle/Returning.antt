-- ===== src/Server/Lifecycle/Returning.antt =====
-- shutdown.go with membership.go: after `close` the pumps return.
use ws_chat.Base.{text_keyed}
use ws_chat.Config.{Config}
