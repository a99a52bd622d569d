-- ===== src/Server/Names.antt =====
-- channel.go: names of channels. `is_space` and `is_print` stand for the tables of the unicode
-- package. `TrimSpace` is written on the runes of the name with the bytes of each.
use ws_chat.Base.{
  ℕ, zero, suc, Bool, true, false, not, ◌||◌, List, [], ◌∷◌, ◌++◌, map, ltb, if◌then◌else◌, Text,
  length, ◌==◌, text_keyed,
}
use ws_chat.Utf8.{decode, runes, rune}
use ws_chat.Config.{Config}

abbrev pub max_channel_name : ℕ
max_channel_name = 64

module _ (is_space is_print : ℕ → Bool) where
  -- The loop of `validChannel`.
  unfoldable pub all_printable : List ℕ → Bool
  all_printable [] = true
  all_printable (r ∷ rs) =
      let rest = all_printable rs in if is_space r || not (is_print r) then false else rest

  unfoldable pub valid_channel : Text → Bool
  valid_channel name =
      if name == [] || ltb max_channel_name (length name)
      then false
      else all_printable (map rune (runes name))

  -- The name from its first rune that is no space on, after `skip` bytes of one.
  unfoldable pub trim_left : ℕ → Text → Text
  trim_left skip [] = []
  trim_left (suc skip) (b ∷ s) = trim_left skip s
  trim_left zero (b ∷ s) =
      let (r, more) = decode b s in
      let rest = trim_left more s in if is_space (rune r) then rest else b ∷ s

  -- The name up to its last rune that is no space. `pending` are the spaces passed since the last
  -- such rune.
  unfoldable pub trim_right : Text → ℕ → Bool → Text → Text
  trim_right pending skip spaced [] = []
  trim_right pending (suc skip) true (b ∷ s) = trim_right (pending ++ b ∷ []) skip true s
  trim_right pending (suc skip) false (b ∷ s) = b ∷ trim_right [] skip false s
  trim_right pending zero spaced (b ∷ s) =
      let (r, more) = decode b s in
      let longer = trim_right (pending ++ b ∷ []) more true s in
      let rest = trim_right [] more false s in
      if is_space (rune r) then longer else pending ++ b ∷ rest

  unfoldable pub trim_space : Text → Text
  trim_space s = trim_right [] 0 false (trim_left 0 s)

  unfoldable pub normalise : Config → Text → Text
  normalise cfg name =
      let trimmed = trim_space name in if trimmed == [] then cfg.default_channel else trimmed
