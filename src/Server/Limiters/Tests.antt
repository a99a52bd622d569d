-- ===== src/Server/Limiters/Tests.antt =====
-- Two connections share a bucket, and one of them leaves before the janitor comes.
use ws_chat.Base.{◌<◌, ◌≡◌, ◌≢◌, none, [], ◌∷◌, List, Text, bytes, text_keyed}
use ws_chat.Base.Dict.{lookup}
use ws_chat.Hook.{Limits}
use ws_chat.Server.Limiters.Holders.{
  Change, comes, leaves, janitor, held, changes, refs_of, held-limiters,
}

abbrev address : Text
address = bytes "10.0.0.1"

abbrev limits : Limits
limits = record { burst = 5; interval = 1000; key = address }

abbrev day : List Change
day = comes limits ∷ comes limits ∷ leaves address ∷ janitor 100 ∷ []

held-limiters_example :
    (refs_of (lookup address (changes day (record { limiters = []; holders = [] })).limiters)
      ≡ held address (changes day (record { limiters = []; holders = [] })).holders)
    × (0 < held address (changes day (record { limiters = []; holders = [] })).holders
        → lookup address (changes day (record { limiters = []; holders = [] })).limiters ≢ none)
held-limiters_example = held-limiters day address
