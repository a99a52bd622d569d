-- ===== src/Proto/Frame.antt =====
-- internal/proto/proto.go: what the server sends. Each `new_` function sets the verb, as each `New`
-- of the source does. Timestamps are milliseconds after 1970.
use ws_chat.Base.{
  ℕ, ◌≡◌, refl, Bool, true, false, Option, none, some, List, [], if◌then◌else◌, Text, ◌==◌,
  text_keyed, same_text,
}
use ws_chat.Base.Dict.{Dict}
use ws_chat.Proto.Command.{
  verb_msg, verb_priv, verb_ready, verb_backlog, verb_join, verb_part, verb_names, verb_mod,
  verb_pong, verb_err,
}

abbrev pub Attrs : Type 0
Attrs = Dict Text Text

pub record Msg : Type 0 where
  pub verb : Text
  pub channel : Text
  pub id : ℕ
  pub nick : Text
  pub body : Text
  pub timestamp : ℕ
  pub roles : List Text
  pub attrs : Attrs

pub record Priv : Type 0 where
  pub verb : Text
  pub id : ℕ
  pub nick : Text
  pub body : Text
  pub timestamp : ℕ
  pub sent : Bool
  pub roles : List Text
  pub attrs : Attrs

pub record Ready : Type 0 where
  pub verb : Text
  pub nick : Text

pub record Backlog : Type 0 where
  pub verb : Text
  pub channel : Text
  pub messages : List Msg

pub record Join : Type 0 where
  pub verb : Text
  pub channel : Text
  pub nick : Text
  pub roles : List Text
  pub attrs : Attrs

pub record Part : Type 0 where
  pub verb : Text
  pub channel : Text
  pub nick : Text

pub record Names : Type 0 where
  pub verb : Text
  pub channel : Text
  pub nicks : List Text
  pub total : ℕ

pub record Mod : Type 0 where
  pub verb : Text
  pub channel : Text
  pub scope : Text
  pub id : ℕ
  pub action : Text
  pub nick : Text
  pub by_nick : Text
  pub timestamp : ℕ
  pub until : ℕ
  pub reason : Text

pub record Pong : Type 0 where
  pub verb : Text

pub record ErrFrame : Type 0 where
  pub verb : Text
  pub description : Text

-- The types that implement `Outbound`.
pub data Outbound : Type 0 where
  out_msg : Msg → Outbound
  out_priv : Priv → Outbound
  out_ready : Ready → Outbound
  out_backlog : Backlog → Outbound
  out_join : Join → Outbound
  out_part : Part → Outbound
  out_names : Names → Outbound
  out_mod : Mod → Outbound
  out_pong : Pong → Outbound
  out_err : ErrFrame → Outbound

pub frame_verb : Outbound → Text
frame_verb (out_msg m) = m.verb
frame_verb (out_priv p) = p.verb
frame_verb (out_ready r) = r.verb
frame_verb (out_backlog b) = b.verb
frame_verb (out_join j) = j.verb
frame_verb (out_part p) = p.verb
frame_verb (out_names n) = n.verb
frame_verb (out_mod m) = m.verb
frame_verb (out_pong p) = p.verb
frame_verb (out_err e) = e.verb

unfoldable pub new_msg : Msg → Msg
new_msg m = record m { verb = verb_msg }

unfoldable pub new_priv : Priv → Priv
new_priv p = record p { verb = verb_priv }

unfoldable pub new_ready : Text → Ready
new_ready nick = record { verb = verb_ready; nick = nick }

unfoldable pub new_backlog : Text → List Msg → Backlog
new_backlog channel messages = record {
  verb = verb_backlog;
  channel = channel;
  messages = messages;
}

unfoldable pub new_join : Join → Join
new_join j = record j { verb = verb_join }

unfoldable pub new_part : Text → Text → Part
new_part channel nick = record { verb = verb_part; channel = channel; nick = nick }

unfoldable pub new_names : Text → List Text → ℕ → Names
new_names channel nicks total = record {
  verb = verb_names;
  channel = channel;
  nicks = nicks;
  total = total;
}

unfoldable pub new_mod : Mod → Mod
new_mod m = record m { verb = verb_mod }

unfoldable pub new_pong : Pong
new_pong = record { verb = verb_pong }

unfoldable pub new_err : Text → ErrFrame
new_err description = record { verb = verb_err; description = description }

-- `checkVerb`: whether there is a payload with a verb; else the error is `ErrNoVerb`.
pub check_verb : Option Outbound → Bool
check_verb none = false
check_verb (some payload) = if frame_verb payload == [] then false else true

-- What the functions of this file build.
pub data IsBuilt : Outbound → Type 0 where
  of_msg : (m : Msg) → IsBuilt (out_msg (new_msg m))
  of_priv : (p : Priv) → IsBuilt (out_priv (new_priv p))
  of_ready : (nick : Text) → IsBuilt (out_ready (new_ready nick))
  of_backlog :
      (channel : Text) (messages : List Msg) → IsBuilt (out_backlog (new_backlog channel messages))
  of_join : (j : Join) → IsBuilt (out_join (new_join j))
  of_part : (channel nick : Text) → IsBuilt (out_part (new_part channel nick))
  of_names :
      (channel : Text) (nicks : List Text) (total : ℕ)
      → IsBuilt (out_names (new_names channel nicks total))
  of_mod : (m : Mod) → IsBuilt (out_mod (new_mod m))
  of_pong : IsBuilt (out_pong new_pong)
  of_err : (description : Text) → IsBuilt (out_err (new_err description))

-- No frame that a `New` function built is refused for a missing verb.
pub IsBuilt-check_verb : (payload : Outbound) → IsBuilt payload → check_verb (some payload) ≡ true
unfolding check_verb frame_verb new_msg new_priv new_ready new_backlog new_join new_part new_names
    new_mod new_pong new_err same_text
IsBuilt-check_verb _ (of_msg m) = refl
IsBuilt-check_verb _ (of_priv p) = refl
IsBuilt-check_verb _ (of_ready nick) = refl
IsBuilt-check_verb _ (of_backlog channel messages) = refl
IsBuilt-check_verb _ (of_join j) = refl
IsBuilt-check_verb _ (of_part channel nick) = refl
IsBuilt-check_verb _ (of_names channel nicks total) = refl
IsBuilt-check_verb _ (of_mod m) = refl
IsBuilt-check_verb _ of_pong = refl
IsBuilt-check_verb _ (of_err description) = refl
