-- ===== src/Proto/Codec.antt =====
-- internal/proto/codec.go: the codecs and how one is chosen. Encoding and decoding are the JSON and
-- MessagePack libraries'.
use ws_chat.Base.{
  ◌≡◌, ◌↔◌, ◌⊎◌, Bool, true, false, Option, none, some, List, [], ◌∷◌, map, arith, if◌then◌else◌,
  Text, bytes, ◌==◌, text_keyed, same_text_iff,
}

pub data Codec : Type 0 where
  msg_pack json : Codec

pub name : Codec → Text
name msg_pack = bytes "chat.msgpack"
name json = bytes "chat.json"

pub binary : Codec → Bool
binary msg_pack = true
binary json = false

-- In preference order.
abbrev pub codecs : List Codec
codecs = msg_pack ∷ json ∷ []

pub subprotocols : List Text
subprotocols = map name codecs

abbrev pub default_codec : Codec
default_codec = json

pub find_codec : Text → List Codec → Option Codec
find_codec wanted [] = none
find_codec wanted (c ∷ cs) =
    let rest = find_codec wanted cs in if name c == wanted then some c else rest

-- `ByName`; `none` is `ErrUnsupported`.
pub by_name : Text → Option Codec
by_name wanted = if wanted == [] then some default_codec else find_codec wanted codecs

-- A name of a codec gives that codec, no name gives the default, and every other name none.
pub by_name_iff :
    (wanted : Text) (c : Codec)
    → (by_name wanted ≡ some c) ↔ ((wanted ≡ name c) ⊎ ((wanted ≡ []) × (c ≡ default_codec)))
unfolding by_name find_codec name
by_name_iff wanted msg_pack = (
  ground (
    arith,
    same_text_iff wanted [],
    same_text_iff (bytes "chat.msgpack") wanted,
    same_text_iff (bytes "chat.json") wanted,
  ),
  ground (
    arith,
    same_text_iff wanted [],
    same_text_iff (bytes "chat.msgpack") wanted,
    same_text_iff (bytes "chat.json") wanted,
  ),
)
by_name_iff wanted json = (
  ground (
    arith,
    same_text_iff wanted [],
    same_text_iff (bytes "chat.msgpack") wanted,
    same_text_iff (bytes "chat.json") wanted,
  ),
  ground (
    arith,
    same_text_iff wanted [],
    same_text_iff (bytes "chat.msgpack") wanted,
    same_text_iff (bytes "chat.json") wanted,
  ),
)
