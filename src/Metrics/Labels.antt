-- ===== src/Metrics/Labels.antt =====
-- metrics.go: the value of a label between quotes, in the text format that Prometheus reads.
use ws_chat.Base.{ℕ, ◌≡◌, refl, Option, none, some, [], ◌∷◌, ◌++◌, eqb, if◌then◌else◌, Text, arith}
use ws_chat.Metrics.{escape}

-- The byte that a backslash and `c` stand for.
abbrev unescape : ℕ → Option ℕ
unescape c =
    if eqb c 92
    then some 92
    else (if eqb c 34 then some 34 else (if eqb c 110 then some 10 else none))

abbrev add_byte : Option ℕ → Option (Text × Text) → Option (Text × Text)
add_byte none r = none
add_byte (some c) none = none
add_byte (some c) (some (s, rest)) = some (c ∷ s, rest)

-- A label's value up to its closing quote, and the text behind it; a line does not end in it.
unfoldable mutual
  pub read_label : Text → Option (Text × Text)
  read_label [] = none
  read_label (c ∷ s) =
      let rest = read_label s in
      let escaped = read_escaped s in
      if eqb c 34
      then some ([], s)
      else (if eqb c 92 then escaped else (if eqb c 10 then none else add_byte (some c) rest))

  pub read_escaped : Text → Option (Text × Text)
  read_escaped [] = none
  read_escaped (c ∷ s) = let rest = read_label s in add_byte (unescape c) rest

-- Whatever a label's value is, and whatever text follows: a reader of the text format, which stops
-- at the first quote that is not escaped and takes no line break inside a value, finds the end of
-- the escaped value where it is and the value itself.
pub read_label-escape : (s rest : Text) → read_label (escape s ++ 34 ∷ rest) ≡ some (s, rest)
unfolding read_label read_escaped escape
read_label-escape [] rest = refl
read_label-escape (c ∷ s) rest = ground (arith, read_label-escape s rest)
