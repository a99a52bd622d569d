-- ===== src/Loadgen/Stats.antt =====
-- internal/loadgen/stats.go and the reader of internal/loadgen/loadgen.go: what a run counts. The
-- counters are uint64; an entry that a map does not have is 0.
pub mod Accounts
pub mod Expected
mod Tests
use ws_chat.Base.{
  ℕ, zero, suc, ◌+◌, ◌*◌, ◌/◌, ◌%◌, ◌^◌, Bool, true, false, not, Option, none, some, List, [], ◌∷◌,
  ◌++◌, ltb, eqb, if◌then◌else◌, length, Text, ◌==◌, text_keyed,
}
use ws_chat.Base.Dict.{Dict, lookup, insert}
use ws_chat.Proto.Command.{verb_msg, verb_err, verb_join}
use ws_chat.Loadgen.Hist.{Histogram, empty, add_sample, merge}
use ws_chat.Loadgen.Plan.{Plan, members_in}
use ws_chat.Loadgen.Payload.{latency_of}

pub record Stats : Type 0 where
  pub dialed : ℕ
  pub dial_failed : ℕ
  pub lost : ℕ
  pub sent : ℕ
  pub send_failed : ℕ
  pub received : ℕ
  pub other : ℕ
  pub garbage : ℕ
  pub sent_in : List ℕ
  pub refusals : Dict Text ℕ
  pub losses : Dict Text ℕ
  pub dial_errs : Dict Text ℕ
  pub latency : Histogram

-- `make([]atomic.Uint64, n)`.
abbrev pub none_sent : ℕ → List ℕ
none_sent zero = []
none_sent (suc n) = 0 ∷ none_sent n

unfoldable pub new_stats : ℕ → Stats
new_stats channels = record {
  dialed = 0;
  dial_failed = 0;
  lost = 0;
  sent = 0;
  send_failed = 0;
  received = 0;
  other = 0;
  garbage = 0;
  sent_in = none_sent channels;
  refusals = [];
  losses = [];
  dial_errs = [];
  latency = empty;
}

-- `Add(1)`.
abbrev pub inc : ℕ → ℕ
inc n = (n + 1) % 2 ^ 64

abbrev pub entry : Option ℕ → ℕ
entry none = 0
entry (some n) = n

-- `stats.bump`.
unfoldable pub bump : Text → Dict Text ℕ → Dict Text ℕ
bump key m = insert key (inc (entry (lookup key m))) m

unfoldable pub refused : Text → Stats → Stats
refused code s = record s { refusals = bump code s.refusals }

unfoldable pub dial_err : Text → Stats → Stats
dial_err reason s = record s {
  dial_failed = inc s.dial_failed;
  dial_errs = bump reason s.dial_errs;
}

unfoldable pub closed_early : Text → Stats → Stats
closed_early reason s = record s { lost = inc s.lost; losses = bump reason s.losses }

unfoldable pub merge_latency : Histogram → Stats → Stats
merge_latency h s = record s { latency = merge s.latency h }

-- `s.sentIn[i].Add(1)`.
abbrev pub inc_at : ℕ → List ℕ → List ℕ
inc_at i [] = []
inc_at zero (n ∷ ns) = inc n ∷ ns
inc_at (suc i) (n ∷ ns) = n ∷ inc_at i ns

-- What `speak` counts once the message of a client was written.
unfoldable pub spoke : Plan → ℕ → Stats → Stats
spoke cfg index s = record s {
  sent = inc s.sent;
  sent_in = inc_at (index % cfg.channels) s.sent_in;
}

-- The loop of `snapshot`, from channel `i` on, added to what the channels before it expect.
unfoldable pub expected_from : Plan → ℕ → List ℕ → ℕ → ℕ
expected_from cfg i [] r = r
expected_from cfg i (n ∷ ns) r =
    expected_from cfg (i + 1) ns ((r + n * (members_in cfg i % 2 ^ 64)) % 2 ^ 64)

-- `Result.Expected`; the other fields of a `Result` are copies.
abbrev pub expected : Plan → Stats → ℕ
expected cfg s = expected_from cfg 0 s.sent_in 0

pub record Frame : Type 0 where
  pub verb : Text
  pub nick : Text
  pub channel : Text
  -- `Data`
  pub body : Text
  pub description : Text

abbrev pub no_frame : Frame
no_frame = record { verb = []; nick = []; channel = []; body = []; description = [] }

-- The fields of `client` that its reader uses; `joins` is what waits in the channel, which has 4
-- places.
pub record Client : Type 0 where
  pub stats : Stats
  pub nick : Text
  pub binary : Bool
  pub lat : Histogram
  pub joins : List Text

-- What `Read` returns: whether the frame is binary, its bytes, and the time when it is looked at.
pub record Arrival : Type 0 where
  pub binary : Bool
  pub bytes : Text
  pub now : ℕ

-- `Record`, on the bit pattern of a duration: one below 0 counts as 0.
abbrev pub record_nanos : Histogram → ℕ → Histogram
record_nanos h d = add_sample h (if ltb d (2 ^ 63) then d / 1000 else 0)

abbrev pub record_latency : Histogram → Option ℕ → Histogram
record_latency h none = h
record_latency h (some d) = record_nanos h d

-- The send of `read` on `joins`, which gives up at once if there is no room.
abbrev pub offer : Text → List Text → List Text
offer name joins = if ltb (length joins) 4 then joins ++ name ∷ [] else joins

-- The `switch` of `read`.
unfoldable pub on_frame : ℕ → Frame → Client → Client
on_frame now f c =
    if f.verb == []
    then c
    else (if f.verb == verb_msg
        then record c {
          stats = record c.stats { received = inc c.stats.received };
          lat = record_latency c.lat (latency_of now f.body);
        }
        else (if f.verb == verb_err
            then record c { stats = refused f.description c.stats }
            else (if f.verb == verb_join
                then record c {
                  stats = record c.stats { other = inc c.stats.other };
                  joins = if f.nick == c.nick then offer f.channel c.joins else c.joins;
                }
                else record c { stats = record c.stats { other = inc c.stats.other } })))

abbrev pub is_same : Bool → Bool → Bool
is_same true b = b
is_same false b = not b

abbrev pub with_garbage : Client → Client
with_garbage c = record c { stats = record c.stats { garbage = inc c.stats.garbage } }

-- A frame that could not be decoded has no verb.
abbrev pub decoded : Client → Option Frame → Client × Frame
decoded c none = (with_garbage c, no_frame)
decoded c (some f) = (c, f)

-- `unmarshal` is the codec's, which the JSON and MessagePack libraries do.
module _ (unmarshal : Text → Option Frame) where
  -- `readFrame`, where `Read` returned a frame.
  unfoldable pub read_frame : Arrival → Client → Client × Frame
  read_frame a c =
      let done = decoded c (unmarshal a.bytes) in
      if is_same a.binary c.binary then done else (with_garbage c, no_frame)

  unfoldable pub on_arrival : Arrival → Client → Client
  on_arrival a c = let done = read_frame a c in on_frame a.now done.1 done.0

  -- `read`, until `Read` returns an error: with its reason, or none when the client stops itself.
  unfoldable pub read : List Arrival → Option Text → Client → Client
  read [] none c = c
  read [] (some reason) c = record c { stats = closed_early reason c.stats }
  read (a ∷ more) end c = read more end (on_arrival a c)
