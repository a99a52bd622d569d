-- ===== src/Loadgen/Clients.antt =====
-- internal/loadgen/loadgen.go: what one client does from the dial to its end, and what it counts.
-- Its reader and its speaker count with atomics, so that they may stand one after the other here.
pub mod Settling
pub mod Balance
mod Tests
use ws_chat.Base.{
  ℕ, zero, suc, ◌+◌, ◌%◌, ◌^◌, Bool, true, false, not, ◌&&◌, ◌||◌, Option, none, some, ◌⊎◌, inl,
  inr, List, [], ◌∷◌, ◌++◌, eqb, if◌then◌else◌, Text, bytes, ◌==◌, text_keyed,
}
use ws_chat.Proto.Command.{Command, verb_join, verb_part, verb_msg, verb_ready}
use ws_chat.Loadgen.Hist.{empty}
use ws_chat.Loadgen.Plan.{Plan, channel_name, speaks}
use ws_chat.Loadgen.Payload.{payload}
use ws_chat.Loadgen.Stats.{
  Stats, Frame, Client, Arrival, inc, dial_err, closed_early, merge_latency, spoke, read_frame,
  read,
}

-- `waitJoin`, over the channels whose JOINs it takes before its context ends: the one it waited for,
-- and the JOINs that are left.
unfoldable pub wait_join : Text → List Text → Option Text × List Text
wait_join want [] = (none, [])
wait_join want (name ∷ rest) =
    let later = wait_join want rest in
    if want == [] || name == want then (some name, rest) else later

-- A command with a channel and nothing else, or a message.
abbrev pub command_in : Text → Text → Text → Command
command_in verb name body = record {
  verb = verb;
  body = body;
  channel = name;
  nick = [];
  duration = [];
  reason = [];
}

-- What comes of a command: it goes out, it fails, or it fails when the client's context has ended.
pub data Sent : Type 0 where
  went lost too_late : Sent

abbrev pub goes : Sent → Bool
goes went = true
goes lost = false
goes too_late = false

-- What `send` counts.
abbrev pub count_send : Sent → Stats → Stats
count_send went s = s
count_send lost s = record s { send_failed = inc s.send_failed }
count_send too_late s = s

abbrev pub count_sends : List Sent → Stats → Stats
count_sends [] s = s
count_sends (x ∷ xs) s = count_sends xs (count_send x s)

-- What `doSettle` comes to: whether it succeeded, the client's channel, the commands it sent, and
-- what came of them.
pub record Settled : Type 0 where
  pub ok : Bool
  pub channel : Text
  pub asked : List Command
  pub tried : List Sent

-- `doSettle` from the JOIN it waits for last, with what comes of the JOIN and the PART it sends.
abbrev pub part_default : Sent → Sent → Text → Text → Option Text → Settled
part_default joining parting name def none = record {
  ok = false;
  channel = name;
  asked = command_in verb_join name [] ∷ [];
  tried = joining ∷ [];
}
part_default joining parting name def (some got) = record {
  ok = goes parting;
  channel = name;
  asked = command_in verb_join name [] ∷ command_in verb_part def [] ∷ [];
  tried = joining ∷ parting ∷ [];
}

abbrev pub settle_in : Sent → Sent → Text → Option Text → List Text → Settled
settle_in joining parting name none rest = record {
  ok = false;
  channel = name;
  asked = [];
  tried = [];
}
settle_in joining parting name (some def) rest =
    let there = wait_join name rest in
    let moved = part_default joining parting name def there.0 in
    if name == []
    then record { ok = true; channel = def; asked = []; tried = [] }
    else (if goes joining then moved else record {
      ok = false;
      channel = name;
      asked = command_in verb_join name [] ∷ [];
      tried = joining ∷ [];
    })

unfoldable pub do_settle : Sent → Sent → Text → List Text → Settled
do_settle joining parting name joins =
    let def = wait_join [] joins in settle_in joining parting name def.0 def.1

-- `channelArg`.
abbrev pub channel_arg : Plan → Text → Text
channel_arg cfg name = if eqb cfg.channels 1 then [] else name

-- The message of `speak` at a time.
abbrev pub message_at : Plan → Text → ℕ → Command
message_at cfg name now = command_in verb_msg (channel_arg cfg name) (payload cfg.message_size now)

-- How a dial goes: no connection, no first frame, or a first frame.
pub data Dialled : Type 0 where
  unreached silent : Text → Dialled
  greeted : Arrival → Dialled

-- What happens to a client: its dial, the JOINs that reach it, what comes of its JOIN and its PART,
-- whether its context has ended when it has not settled, the frames it reads and what its reading ends
-- with, whether the barrier opens for it, the messages it gets out if it is a speaker, and what comes of
-- what it sends last.
pub record Life : Type 0 where
  pub dialled : Dialled
  pub joins : List Text
  pub joining : Sent
  pub parting : Sent
  pub stopping : Bool
  pub arrivals : List Arrival
  pub end : Option Text
  pub opened : Bool
  pub said : ℕ
  pub last : Sent

-- `speak`, of which only messages count, which only a speaker sends, and a command that fails.
unfoldable pub speak : Plan → ℕ → ℕ → Sent → Stats → Stats
speak cfg index zero last s = count_send last s
speak cfg index (suc n) last s = speak cfg index n last (spoke cfg index s)

-- `settle` with what it counts.
unfoldable pub settle : Bool → Settled → Stats → Stats
settle stopping done s =
    let tried = count_sends done.tried s in
    if done.ok || stopping then tried else closed_early (bytes "never joined") tried

abbrev pub new_client : Bool → Text → Stats → Client
new_client binary nick s = record {
  stats = s;
  nick = nick;
  binary = binary;
  lat = empty;
  joins = [];
}

-- `unmarshal` and `binary` are those of the codec.
module _ (unmarshal : Text → Option Frame) (binary : Bool) (cfg : Plan) where
  -- `dial`: the nick, or an error.
  abbrev pub ready : Client × Frame → Stats × (Text ⊎ Text)
  ready (c, f) =
      if f.verb == verb_ready
      then (c.stats, inl f.nick)
      else (c.stats, inr (bytes "first frame was " ++ (f.verb ++ bytes ", want READY")))

  unfoldable pub dial_as : Dialled → Stats → Stats × (Text ⊎ Text)
  dial_as (unreached reason) s = (s, inr reason)
  dial_as (silent reason) s = (s, inr reason)
  dial_as (greeted a) s = ready (read_frame unmarshal a (new_client binary [] s))

  -- `run` after the dial.
  unfoldable pub run_dialed : ℕ → Life → Text → Stats → Stats
  run_dialed index l nick s =
      let start = new_client binary nick (record s { dialed = inc s.dialed }) in
      let heard = read unmarshal l.arrivals l.end start in
      let done = do_settle l.joining l.parting (channel_name cfg index) l.joins in
      let settled = settle l.stopping done heard.stats in
      let said = if speaks cfg index then l.said else 0 in
      let spoken = speak cfg index said l.last settled in
      merge_latency heard.lat (if done.ok && l.opened then spoken else settled)

  abbrev pub run_on : ℕ → Life → Stats × (Text ⊎ Text) → Stats
  run_on index l (s, inl nick) = run_dialed index l nick s
  run_on index l (s, inr reason) = dial_err reason s

  unfoldable pub run_client : ℕ → Life → Stats → Stats
  run_client index l s = run_on index l (dial_as l.dialled s)

  -- The clients from number `index` on.
  unfoldable pub run_clients : ℕ → List Life → Stats → Stats
  run_clients index [] s = s
  run_clients index (l ∷ ls) s = run_clients (index + 1) ls (run_client index l s)
