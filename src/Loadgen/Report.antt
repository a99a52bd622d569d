-- ===== src/Loadgen/Report.antt =====
-- internal/loadgen: a whole run and its result. Rates and the time that passed are left to the caller.
pub mod Totals
mod Tests
use ws_chat.Base.{
  ℕ, zero, suc, Bool, true, false, ◌||◌, Option, none, some, List, [], ◌∷◌, ◌++◌, ltb, eqb, ◌&&◌,
  if◌then◌else◌, Text, bytes, ◌==◌, text_keyed,
}
use ws_chat.Base.Dict.{Dict}
use ws_chat.Base.Decimal.{print_nat}
use ws_chat.Base.Sorting.{text_le, sort_by}
use ws_chat.Proto.Codec.{json, msg_pack, name}
use ws_chat.Loadgen.Hist.{Histogram}
use ws_chat.Loadgen.Plan.{Plan, speakers, check}
use ws_chat.Loadgen.Stats.{Stats, Frame, new_stats, expected}
use ws_chat.Loadgen.Clients.{Life, run_clients}

pub record Result : Type 0 where
  pub conns : ℕ
  pub talkers : ℕ
  pub channels : ℕ
  pub message_size : ℕ
  pub dialed : ℕ
  pub failed : ℕ
  pub lost : ℕ
  pub sent : ℕ
  pub send_fails : ℕ
  pub received : ℕ
  pub expected : ℕ
  pub other : ℕ
  pub garbage : ℕ
  pub refusals : Dict Text ℕ
  pub losses : Dict Text ℕ
  pub dial_errs : Dict Text ℕ
  pub latency : Histogram

-- `snapshot`.
unfoldable pub snapshot : Plan → Stats → Result
snapshot cfg s = record {
  conns = cfg.conns;
  talkers = speakers cfg;
  channels = cfg.channels;
  message_size = cfg.message_size;
  dialed = s.dialed;
  failed = s.dial_failed;
  lost = s.lost;
  sent = s.sent;
  send_fails = s.send_failed;
  received = s.received;
  expected = expected cfg s;
  other = s.other;
  garbage = s.garbage;
  refusals = s.refusals;
  losses = s.losses;
  dial_errs = s.dial_errs;
  latency = s.latency;
}

-- `codecByName`: whether the codec is binary, if there is one of the name.
abbrev pub codec_by_name : Text → Option Bool
codec_by_name wanted =
    if wanted == [] || wanted == name json
    then some false
    else (if wanted == name msg_pack then some true else none)

-- `unmarshal` is that of the binary codec or the other, which libraries do.
module _ (unmarshal : Bool → Text → Option Frame) where
  abbrev pub with_codec : Plan → List Life → Option Bool → Option Result
  with_codec cfg ls none = none
  with_codec cfg ls (some binary) =
      some (snapshot cfg (run_clients (unmarshal binary) binary cfg 0 ls (new_stats cfg.channels)))

  abbrev pub checked : Plan → List Life → Text → Option Text → Option Result
  checked cfg ls codec (some error) = none
  checked cfg ls codec none = with_codec cfg ls (codec_by_name codec)

  -- `Run`, for one life for each of the connections; none is an error.
  unfoldable pub run : Plan → Text → List Life → Option Result
  run cfg codec ls = checked cfg ls codec (check cfg)

-- A row of `writeCounts` stands before another with a smaller count, or a later name.
abbrev pub row_le : Text × ℕ → Text × ℕ → Bool
row_le (k, n) (j, m) = ltb m n || (eqb n m && text_le k j)

abbrev pub row_text : Text × ℕ → Text
row_text (k, n) = k ++ (61 ∷ print_nat n)

-- `strings.Join` with two spaces.
abbrev pub joined : List Text → Text
joined [] = []
joined (t ∷ []) = t
joined (t ∷ u ∷ rest) = t ++ (32 ∷ 32 ∷ joined (u ∷ rest))

abbrev pub row_texts : List (Text × ℕ) → List Text
row_texts [] = []
row_texts (r ∷ rs) = row_text r ∷ row_texts rs

-- `%-12s`.
abbrev pub padded : ℕ → Text → Text
padded zero t = t
padded (suc n) [] = 32 ∷ padded n []
padded (suc n) (c ∷ t) = c ∷ padded n t

-- `writeCounts`.
unfoldable pub write_counts : Text → Dict Text ℕ → Text
write_counts label [] = []
write_counts label (r ∷ rs) =
    padded 12 label ++ (32 ∷ joined (row_texts (sort_by row_le (r ∷ rs))) ++ 10 ∷ [])
