-- ===== src/Metrics/Tests.antt =====
-- Metrics at concrete values.
use ws_chat.Base.{ℕ, ◌≡◌, refl, some, List, [], ◌∷◌, ◌++◌, Text, bytes, text_keyed, same_text}
use ws_chat.Base.Dict.{Dict, lookup, insert}
use ws_chat.Base.Sorting.{place, sort_by, text_le}
use ws_chat.Base.Decimal.{emit, print_nat, print_int}
use ws_chat.Metrics.{
  Memory, Entry, escape, label_line, label_lines, vec_text, gauge_func, value_line, entry_text,
  entries_text, write_to, inc, add, set_cell, set_vec, create, with_value,
}
use ws_chat.Metrics.Labels.{read_label, read_label-escape}
use ws_chat.Metrics.Counting.{reading, bumps}
use ws_chat.Metrics.Scrapes.{vec_text-Perm}
use mathlib.Core.List.{Permᴰ}

abbrev one_vec : Memory
one_vec = record {
  cell_at = λ _. 0;
  vec_at = λ _. record { label = bytes "code"; cells = [] };
  next = 1;
}

abbrev three_refusals : List Text
three_refusals = bytes "muted" ∷ bytes "empty" ∷ bytes "muted" ∷ []

abbrev up : Entry
up = gauge_func (bytes "up") (bytes "Whether it is.") (λ _. 1)

abbrev two_cells : Dict Text ℕ
two_cells = (bytes "muted", 1) ∷ (bytes "empty", 2) ∷ []

abbrev cells_swapped : Dict Text ℕ
cells_swapped = (bytes "empty", 2) ∷ (bytes "muted", 1) ∷ []

abbrev counted : Memory
counted = record one_vec { cell_at = λ c. c }

refusals_text :
    vec_text (record { label = bytes "code"; cells = two_cells }) counted (bytes "r")
    ≡ bytes "r{code=\"empty\"} 2\nr{code=\"muted\"} 1\n"
unfolding vec_text label_lines label_line escape print_int print_nat emit sort_by place text_le
    lookup same_text
refusals_text = refl

up_text :
    write_to (record { prefix = bytes "ws_"; entries = up ∷ []; names = [] }) one_vec
    ≡ bytes "# HELP ws_up Whether it is.\n# TYPE ws_up gauge\nws_up 1\n"
unfolding write_to entries_text entry_text gauge_func value_line print_int print_nat emit
up_text = refl

muted_twice : reading 0 (bytes "muted") (bumps 0 three_refusals one_vec) ≡ 2
unfolding lookup insert with_value create inc add set_cell set_vec same_text
muted_twice = refl

read_label-escape_example :
    read_label (escape (bytes "a\"b\\\n") ++ 34 ∷ bytes "} 1")
    ≡ some (bytes "a\"b\\\n", bytes "} 1")
read_label-escape_example = read_label-escape (bytes "a\"b\\\n") (bytes "} 1")

vec_text-Perm_example :
    vec_text (record { label = bytes "code"; cells = two_cells }) counted (bytes "r")
    ≡ vec_text (record { label = bytes "code"; cells = cells_swapped }) counted (bytes "r")
unfolding lookup same_text
vec_text-Perm_example =
    vec_text-Perm (bytes "code") (bytes "r") two_cells cells_swapped counted (Permᴰ.swap refl refl)
      (refl, (refl, tt))
