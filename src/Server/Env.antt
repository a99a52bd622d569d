-- ===== src/Server/Env.antt =====
-- What the server calls and does not implement: the codecs' encoders, the tables of the unicode
-- package, and the hooks that a deployment may set (`none` is nil).
use ws_chat.Base.{ℕ, Bool, Option, List, Text}
use ws_chat.Hook.{Identity, Limits}
use ws_chat.Filter.{Filter}
use ws_chat.Proto.Frame.{Outbound}
use ws_chat.Proto.Codec.{Codec}

pub record Env : Type 0 where
  pub encode : Codec → Outbound → Option Text
  pub is_space : ℕ → Bool
  pub is_print : ℕ → Bool
  pub is_mark : ℕ → Bool
  pub channel_limits : Option (Text → Limits)
  pub can_join : Option (Identity → Text → Bool × Text)
  pub can_moderate : Option (Identity → Text → Bool)
  pub resolve_nick : Option (Text → Option Identity)
  -- time.ParseDuration, with a negative duration as 0
  pub parse_duration : Text → Option ℕ
  pub filter_hook : Option Filter
  pub autojoin : Option (Identity → Option (List Text))
  -- whether the Recorder and the Sanctions hook are set
  pub has_recorder : Bool
  pub has_sanctions : Bool
