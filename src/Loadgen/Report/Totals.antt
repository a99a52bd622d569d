-- ===== src/Loadgen/Report/Totals.antt =====
-- internal/loadgen: what a report says adds up.
use ws_chat.Base.{
  ℕ, ◌+◌, ◌%◌, ◌^◌, ◌≡◌, refl, ap, sym, ◌∙◌, Bool, Option, none, some, List, [], ◌∷◌, ◌++◌, if_rule,
  length, Text, arith,
}
use ws_chat.Base.Dict.{Dict}
use ws_chat.Base.Sorting.{IsOrder, place, text_le-IsOrder, sort_by, sort_by-Perm}
use ws_chat.Loadgen.Plan.{Plan, check}
use ws_chat.Loadgen.Stats.{Frame, new_stats}
use ws_chat.Loadgen.Stats.Accounts.{total}
use ws_chat.Loadgen.Clients.{Life, run_clients}
use ws_chat.Loadgen.Clients.Balance.{run_clients-balanced}
use ws_chat.Loadgen.Report.{
  Result, snapshot, with_codec, checked, codec_by_name, run, row_le, padded, joined, row_texts,
  write_counts,
}
use mathlib.Core.List.{Permᴰ}

row_le-IsOrder : IsOrder row_le
row_le-IsOrder = record {
  total = λ (k, n) (j, m) h. ground (arith, text_le-IsOrder.total k j);
  antisym = λ (k, n) (j, m) g h.
      let names = text_le-IsOrder.antisym k j in
      let counts : n ≡ m = ground (arith, g, h) in
      let same : k ≡ j = ground (arith, g, h, names) in λ i. (same i, counts i);
  transits = λ (k, n) (j, m) (i, l) g h. ground (arith, text_le-IsOrder.transits k j i);
}

abbrev line : Text → List (Text × ℕ) → Text
line label rows = padded 12 label ++ (32 ∷ joined (row_texts rows) ++ 10 ∷ [])

-- Nothing for no rows.
abbrev line_of : Text → List (Text × ℕ) → Text
line_of label [] = []
line_of label (r ∷ rs) = line label (r ∷ rs)

place-line :
    (label : Text) (r : Text × ℕ) (rs : List (Text × ℕ))
    → line label (place row_le r rs) ≡ line_of label (place row_le r rs)
unfolding place
place-line label r [] = refl
place-line label r (q ∷ qs) =
    if_rule (λ (t : List (Text × ℕ)). line label t ≡ line_of label t) (row_le r q) (λ _. refl)
      (λ _. refl)

write_counts-line :
    (label : Text) (c : Dict Text ℕ) → write_counts label c ≡ line_of label (sort_by row_le c)
unfolding write_counts sort_by
write_counts-line label [] = refl
write_counts-line label (r ∷ rs) = place-line label r (sort_by row_le rs)

-- The rows of a count do not depend on the order in which the language ranges over its map.
pub write_counts-Perm :
    (label : Text) (c d : Dict Text ℕ) → Permᴰ c d → write_counts label c ≡ write_counts label d
write_counts-Perm label c d p =
    write_counts-line label c
    ∙ ap (line_of label) (sort_by-Perm row_le row_le-IsOrder c d p)
    ∙ sym (write_counts-line label d)

-- A run with settings that `check` accepts and a codec that there is has a result, for any lives of
-- its connections: the connections that were made and those that were not are all of them; the dial
-- errors it lists are as many as the connections that were not made, and the losses it lists as many
-- as the connections it counts as lost, up to multiples of 2 ^ 64.
pub run-adds_up :
    (unmarshal : Bool → Text → Option Frame) (cfg : Plan) (codec : Text) (binary : Bool)
    (ls : List Life)
    → check cfg ≡ none
    → codec_by_name codec ≡ some binary
    → length ls ≡ cfg.conns
    → (r : Result) × (run unmarshal cfg codec ls ≡ some r)
      × ((r.dialed + r.failed) % 2 ^ 64 ≡ r.conns % 2 ^ 64)
      × (total r.dial_errs % 2 ^ 64 ≡ r.failed % 2 ^ 64)
      × (total r.losses % 2 ^ 64 ≡ r.lost % 2 ^ 64)
unfolding run snapshot
run-adds_up unmarshal cfg codec binary ls accepted known all =
    let sums = run_clients-balanced (unmarshal binary) binary cfg ls in
    (
      snapshot cfg (run_clients (unmarshal binary) binary cfg 0 ls (new_stats cfg.channels)),
      ap (λ e. checked unmarshal cfg ls codec e) accepted
          ∙ ap (λ b. with_codec unmarshal cfg ls b) known,
      omega (arith, sums.0, all),
      sums.1,
      sums.2,
    )
