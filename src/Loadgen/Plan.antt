-- ===== src/Loadgen/Plan.antt =====
-- internal/loadgen/loadgen.go: which connection goes in which channel, and which of them speak.
-- A negative number of the settings, which `check` refuses as it refuses 0, is 0 here; the percentage
-- is a fraction in place of a float, and the other fractions and durations likewise count from 0.
pub mod Rooms
mod Tests
use ws_chat.Base.{
  ℕ, ◌+◌, ◌-◌, ◌*◌, ◌/◌, ◌%◌, ◌≤◌, ◌<◌, Bool, true, false, not, ◌&&◌, ◌||◌, Option, none, some,
  List, [], ◌∷◌, ◌++◌, ltb, leb, eqb, if◌then◌else◌, Text, bytes, ◌==◌, text_keyed,
}
use ws_chat.Base.Decimal.{print_nat}

pub record Plan : Type 0 where
  pub url : Text
  pub conns : ℕ
  -- `SpeakPercent` is `percent / parts`
  pub percent : ℕ
  pub parts : ℕ
  -- whether `Rate` is positive
  pub rated : Bool
  pub message_size : ℕ
  pub channels : ℕ
  pub ping_every : ℕ

unfoldable pub speakers : Plan → ℕ
speakers c = c.conns * c.percent / (100 * c.parts)

-- The channels are numbered below `channels`, so that the subtraction does not go below 0.
pub speakers_in : Plan → ℕ → ℕ
speakers_in c i = (speakers c + c.channels - 1 - i) / c.channels

pub members_in : Plan → ℕ → ℕ
members_in c i = (c.conns + c.channels - 1 - i) / c.channels

pub speaks : Plan → ℕ → Bool
speaks c i =
    let ch = i % c.channels in
    let pos = i / c.channels in
    let members = members_in c ch in
    let talking = speakers_in c ch in
    not (eqb (pos * talking / members) ((pos + 1) * talking / members))

pub channel_name : Plan → ℕ → Text
channel_name c i = if eqb c.channels 1 then [] else bytes "bench" ++ print_nat (i % c.channels)

-- `check`: the first field that is refused.
unfoldable pub check : Plan → Option Text
check c =
    if c.url == []
    then some (bytes "field URL must not be empty")
    else (if ltb c.conns 1
        then some (bytes "field Conns must be at least 1")
        else (if ltb (100 * c.parts) c.percent
            then some (bytes "field SpeakPercent must be between 0 and 100")
            else (if ltb c.channels 1
                then some (bytes "field Channels must be at least 1")
                else (if ltb c.message_size 1
                    then some (bytes "field MessageSize must be at least 1")
                    else (if ltb c.ping_every 1
                        then some (bytes "field PingEvery must be positive")
                        else (if ltb 0 (speakers c) && not c.rated
                            then some (bytes "field Rate must be positive when anybody is speaking")
                            else none))))))
