-- ===== src/Filter/Tests.antt =====
-- A letter with marks on it, where the marks are U+0300 to U+036F.
use ws_chat.Base.{
  ℕ, ◌≡◌, ◌↔◌, refl, Bool, false, Option, none, some, List, [], ◌∷◌, arith, Text, map, leb, ◌&&◌,
}
use ws_chat.Utf8.{runes, runes_after, decode, rune}
use ws_chat.Hook.{Identity}
use ws_chat.Filter.{Filter, utf8_allow, zalgo_allow}
use ws_chat.Filter.Runs.{Stacked, zalgo_allow_iff}

abbrev mark : ℕ → Bool
mark r = leb 768 r && leb r 879

abbrev nobody : Identity
nobody = record { id = []; nick = []; roles = []; attrs = [] }

-- `e`, U+0301, U+0302.
abbrev two_marks : Text
two_marks = 101 ∷ 204 ∷ 129 ∷ 204 ∷ 130 ∷ []

decoded : runes two_marks ≡ some 101 ∷ some 769 ∷ some 770 ∷ []
unfolding runes_after decode
decoded = refl

-- A surrogate, an overlong slash and U+10FFFF.
edges :
    runes (237 ∷ 160 ∷ 128 ∷ 192 ∷ 175 ∷ 244 ∷ 143 ∷ 191 ∷ 191 ∷ [])
    ≡ none ∷ none ∷ none ∷ none ∷ none ∷ some 1114111 ∷ []
unfolding runes_after decode
edges = refl

zalgo_allow_iff_example :
    ((zalgo_allow mark 1 nobody two_marks).0 ≡ false) ↔ Stacked mark 2 (map rune (runes two_marks))
zalgo_allow_iff_example = zalgo_allow_iff mark 1 nobody two_marks (omega arith)

abbrev both : List (Option Filter)
both = some utf8_allow ∷ none ∷ some (zalgo_allow mark 5) ∷ []
