-- ===== src/Metrics/Scrapes.antt =====
-- metrics.go: two scrapes of the same counts are the same text.
use ws_chat.Base.{ℕ, ◌≡◌, refl, ap, ◌∙◌, List, [], ◌∷◌, Text, text_keyed}
use ws_chat.Base.Dict.{Dict, keys, lookup, Distinct}
use ws_chat.Base.Ranges.{keys-Perm, lookup-Perm}
use ws_chat.Base.Sorting.{text_le, sort_by, sort_by-Perm, text_le-IsOrder}
use ws_chat.Metrics.{CounterVec, Memory, label_lines, vec_text}
use mathlib.Core.List.{Permᴰ}

label_lines-same :
    (full : Text) (x y : CounterVec) (m : Memory) (vs : List Text)
    → x.label ≡ y.label
    → ((k : Text) → lookup k x.cells ≡ lookup k y.cells)
    → label_lines full x m vs ≡ label_lines full y m vs
unfolding label_lines
label_lines-same full x y m [] e h = refl
label_lines-same full x y m (v ∷ vs) e h = rw (e, h v, label_lines-same full x y m vs e h) refl

-- The lines of a `CounterVec` do not depend on the order in which the language ranges over its map:
-- for any other order of the same entries, each value once, the text is the same.
pub vec_text-Perm :
    (label full : Text) (c d : Dict Text ℕ) (m : Memory)
    → Permᴰ c d
    → Distinct c
    → vec_text (record { label = label; cells = c }) m full
      ≡ vec_text (record { label = label; cells = d }) m full
unfolding vec_text
vec_text-Perm label full c d m p u =
    label_lines-same full (record { label = label; cells = c })
      (record { label = label; cells = d }) m (sort_by text_le (keys c)) refl
      (λ k. lookup-Perm k c d p u)
    ∙ ap (label_lines full (record { label = label; cells = d }) m)
        (sort_by-Perm text_le text_le-IsOrder (keys c) (keys d) (keys-Perm c d p))
