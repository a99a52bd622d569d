-- ===== src/Broadcast/Errors.antt =====
-- internal/broadcast/broadcast.go: the errors of a subscription and the default capacity.
use ws_chat.Base.{ℕ}

abbrev pub default_buffer : ℕ
default_buffer = 256

-- `ErrClosed` and `ErrLagged`.
pub data Err : Type 0 where
  closed lagged : Err
