-- ===== src/Utf8.antt =====
-- The language's `range` over a string, and `utf8.ValidString`: UTF-8 as Go decodes it. A byte that
-- starts no encoding of a rune stands for itself, as `none`; `range` yields U+FFFD for it.
use ws_chat.Base.{
  ℕ, zero, suc, ◌+◌, ◌-◌, ◌*◌, Bool, true, false, ◌&&◌, Option, none, some, List, [], ◌∷◌, leb, ltb,
  eqb, if◌then◌else◌, Text,
}

abbrev pub between : ℕ → ℕ → ℕ → Bool
between lo hi b = leb lo b && leb b hi

-- A rune and the bytes of it after the first.
abbrev pub Decoded : Type 0
Decoded = Option ℕ × ℕ

abbrev bad : Decoded
bad = (none, 0)

abbrev pub two_bytes : ℕ → Text → Decoded
two_bytes b (c ∷ s) = if between 128 191 c then (some ((b - 192) * 64 + (c - 128)), 1) else bad
two_bytes b [] = bad

-- After 0xE0 a shorter encoding would do, and after 0xED stand the surrogates.
abbrev pub three_bytes : ℕ → Text → Decoded
three_bytes b (c ∷ d ∷ s) =
    if between (if eqb b 224 then 160 else 128) (if eqb b 237 then 159 else 191) c
      && between 128 191 d
    then (some ((b - 224) * 4096 + (c - 128) * 64 + (d - 128)), 2)
    else bad
three_bytes b s = bad

-- After 0xF0 a shorter encoding would do, and after 0xF4 runes end at U+10FFFF.
abbrev pub four_bytes : ℕ → Text → Decoded
four_bytes b (c ∷ d ∷ e ∷ s) =
    if between (if eqb b 240 then 144 else 128) (if eqb b 244 then 143 else 191) c
      && between 128 191 d
      && between 128 191 e
    then (some ((b - 240) * 262144 + (c - 128) * 4096 + (d - 128) * 64 + (e - 128)), 3)
    else bad
four_bytes b s = bad

-- The rune that starts with byte `b`.
unfoldable pub decode : ℕ → Text → Decoded
decode b s =
    if ltb b 128
    then (some b, 0)
    else (if between 194 223 b
        then two_bytes b s
        else (if between 224 239 b
            then three_bytes b s
            else (if between 240 244 b then four_bytes b s else bad)))

-- The runes after the next `skip` bytes.
unfoldable pub runes_after : ℕ → Text → List (Option ℕ)
runes_after skip [] = []
runes_after (suc skip) (b ∷ s) = runes_after skip s
runes_after zero (b ∷ s) = let (r, more) = decode b s in r ∷ runes_after more s

abbrev pub runes : Text → List (Option ℕ)
runes s = runes_after 0 s

-- What `range` yields.
abbrev pub rune : Option ℕ → ℕ
rune none = 65533
rune (some r) = r

abbrev pub all_some : List (Option ℕ) → Bool
all_some [] = true
all_some (none ∷ rs) = false
all_some (some r ∷ rs) = all_some rs

-- `utf8.ValidString`.
unfoldable pub valid_string : Text → Bool
valid_string s = all_some (runes s)
