-- ===== src/Server/Handshake.antt =====
-- conn.go: `handleWS`, up to the connection that it serves. What the hooks answer, and what `Accept`
-- of the websocket library does, are parameters; an outcome has the label that the source counts.
pub mod Bans
mod Tests
use ws_chat.Base.{
  ℕ, Bool, true, false, Option, none, some, List, [], ◌∷◌, if◌then◌else◌, Text, bytes, ◌==◌,
  text_keyed,
}
use ws_chat.Hook.{Identity, Limits, key}
use ws_chat.Moderation.{Store, global, banned}
use ws_chat.RateLimit.{Bucket, new_bucket}
use ws_chat.Proto.Codec.{Codec, by_name}
use ws_chat.Server.Limiters.{Limiters, acquire}
use ws_chat.Server.Sanctions.{Found, identify}

-- What the Auth hook answers: `ErrUnauthorized`, another error, or an identity.
pub data Login : Type 0 where
  unauthorized unavailable : Login
  someone : Identity → Login

-- What `Accept` does: it fails, or it agrees on a subprotocol.
pub data Upgrade : Type 0 where
  rejected : Upgrade
  upgraded : Text → Upgrade

-- A connection's bucket: none, one of its own, or one that is shared under a key.
pub data Held : Type 0 where
  no_bucket : Held
  own : Option Bucket → Held
  shared : Text → Held

-- Refused with an HTTP status, failed without one of ours, or connected.
pub data Outcome : Type 0 where
  refused : ℕ → Text → Outcome
  failed : Text → Outcome
  connected : Identity → Codec → Held → Outcome

-- What of the server the handshake reads and writes.
pub record Door : Type 0 where
  pub store : Store
  pub anon : ℕ
  pub limiters : Limiters

abbrev pub admitted : Login → Option Identity
admitted unauthorized = none
admitted unavailable = none
admitted (someone who) = some who

abbrev pub auth : Option Login → Option (Option Identity)
auth none = none
auth (some login) = some (admitted login)

-- The first `switch` of `handleWS`. Without an Auth hook, or with an identity, there is no error.
abbrev pub login_refused : Option Login → Outcome
login_refused (some unauthorized) = refused 401 (bytes "unauthorized")
login_refused (some unavailable) = refused 500 (bytes "authfailed")
login_refused (some (someone who)) = refused 500 (bytes "authfailed")
login_refused none = refused 500 (bytes "authfailed")

-- `clientLimiter`.
abbrev pub limited : Limits → Limiters → Limiters × Held
limited l t =
    if l.key == [] then (t, own (new_bucket l.burst l.interval)) else (acquire l t, shared l.key)

unfoldable pub client_limiter : Option (Identity → Limits) → Identity → Limiters → Limiters × Held
client_limiter none who t = (t, no_bucket)
client_limiter (some hook) who t = limited (hook who) t

-- `app.banned`.
unfoldable pub is_barred : Store → ℕ → Identity → Bool
is_barred s now who = (banned s now global (key who)).holds

module _ (dir : Option (Text → Found)) (limits : Option (Identity → Limits)) where
  abbrev pub negotiated : Door → Identity → Option Codec → Door × Outcome
  negotiated d who none = (d, failed (bytes "subprotocol"))
  negotiated d who (some codec) =
      let given = client_limiter limits who d.limiters in
      (record d { limiters = given.0 }, connected who codec given.1)

  abbrev pub on_upgrade : Door → Identity → Upgrade → Door × Outcome
  on_upgrade d who rejected = (d, failed (bytes "upgrade"))
  on_upgrade d who (upgraded sub) = negotiated d who (by_name sub)

  -- Once it is known who asks.
  unfoldable pub greet : Door → ℕ → Option Login → Upgrade → Option (Identity × ℕ) → Door × Outcome
  greet d now login up none = (d, login_refused login)
  greet d now login up (some (who, n)) =
      let counted : Door = record d { anon = n } in
      let opened = on_upgrade counted who up in
      if is_barred d.store now who then (counted, refused 403 (bytes "banned")) else opened

  unfoldable pub handle_ws : Door → ℕ → Option Login → Upgrade → Door × Outcome
  handle_ws d now login up = greet d now login up (identify (auth login) dir d.anon)
