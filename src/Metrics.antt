-- ===== src/Metrics.antt =====
-- internal/metrics/metrics.go: counters, gauges, and the text that Prometheus reads.
-- A counter or gauge is a cell of the memory, an int64 by its bit pattern; a `CounterVec` is a
-- pointer as well. What an entry prints is a function of the memory at the time of the scrape.
pub mod Labels
pub mod Counting
pub mod Scrapes
pub mod Names
mod Tests
use ws_chat.Base.{
  ℕ, ◌+◌, ◌-◌, ◌%◌, ◌^◌, Bool, true, Option, none, some, List, [], ◌∷◌, ◌++◌, eqb, if◌then◌else◌,
  Text, bytes, text_keyed,
}
use ws_chat.Base.Dict.{Dict, keys, lookup, insert, has}
use ws_chat.Base.Sorting.{text_le, sort_by}
use ws_chat.Base.Decimal.{print_int}

-- `CounterVec`: the counter of each value of its label.
pub record CounterVec : Type 0 where
  pub label : Text
  pub cells : Dict Text ℕ

pub record Memory : Type 0 where
  pub cell_at : ℕ → ℕ
  pub vec_at : ℕ → CounterVec
  pub next : ℕ

pub record Entry : Type 0 where
  pub name : Text
  pub help : Text
  pub kind : Text
  pub read : Memory → Text → Text

pub record Registry : Type 0 where
  pub prefix : Text
  pub entries : List Entry
  pub names : Dict Text Bool

-- `New`.
unfoldable pub new_registry : Text → Registry
new_registry p = record { prefix = p; entries = []; names = [] }

unfoldable pub set_cell : ℕ → ℕ → Memory → Memory
set_cell c n m = record m { cell_at = λ d. if eqb c d then n else m.cell_at d }

unfoldable pub set_vec : ℕ → CounterVec → Memory → Memory
set_vec v x m = record m { vec_at = λ w. if eqb v w then x else m.vec_at w }

-- `Add`, `Inc` and `Dec`, on int64; `Set` is `set_cell`, and `Value` reads the cell.
unfoldable pub add : ℕ → ℕ → Memory → Memory
add c n m = set_cell c ((m.cell_at c + n) % 2 ^ 64) m

unfoldable pub inc : ℕ → Memory → Memory
inc c m = add c 1 m

unfoldable pub dec : ℕ → Memory → Memory
dec c m = add c (2 ^ 64 - 1) m

-- `With`, behind the write lock, where it looks again: the counter that is there, or a new one.
unfoldable pub create : ℕ → Text → Memory → Option ℕ → Memory × ℕ
create v value m (some c) = (m, c)
create v value m none =
    let x = m.vec_at v in
    let m' = record m {
      cell_at = λ d. if eqb m.next d then 0 else m.cell_at d;
      next = m.next + 1;
    } in
    (set_vec v (record x { cells = insert value m.next x.cells }) m', m.next)

-- `With`, once behind the read lock and once behind the write lock.
unfoldable pub with_value : ℕ → Text → Memory → Memory × ℕ
with_value v value m = create v value m (lookup value (m.vec_at v).cells)

-- `register`: `none` is the panic on a second metric of a name.
unfoldable pub register : Entry → Registry → Option Registry
register e r =
    if has e.name r.names
    then none
    else some (record r { names = insert e.name true r.names; entries = r.entries ++ e ∷ [] })

-- `strings.NewReplacer` with single bytes to replace: each byte by itself.
unfoldable pub escape : Text → Text
escape [] = []
escape (c ∷ s) =
    let rest = escape s in
    if eqb c 92
    then 92 ∷ 92 ∷ rest
    else (if eqb c 34 then 92 ∷ 34 ∷ rest else (if eqb c 10 then 92 ∷ 110 ∷ rest else c ∷ rest))

-- What an entry of one cell prints, and one whose value is read at the scrape.
unfoldable pub value_line : (Memory → ℕ) → Memory → Text → Text
value_line read m full = full ++ bytes " " ++ print_int (read m) ++ 10 ∷ []

-- A line of a `CounterVec`; its values are keys, so there is a counter for each.
unfoldable pub label_line : Text → Text → Memory → Text → Option ℕ → Text
label_line full label m value none = []
label_line full label m value (some c) =
    full
    ++ bytes "{"
    ++ label
    ++ bytes "=\""
    ++ escape value
    ++ bytes "\"} "
    ++ print_int (m.cell_at c)
    ++ 10 ∷ []

unfoldable pub label_lines : Text → CounterVec → Memory → List Text → Text
label_lines full x m [] = []
label_lines full x m (value ∷ vs) =
    label_line full x.label m value (lookup value x.cells) ++ label_lines full x m vs

-- The lines of a `CounterVec`, sorted by its values.
unfoldable pub vec_text : CounterVec → Memory → Text → Text
vec_text x m full = label_lines full x m (sort_by text_le (keys x.cells))

-- `Counter`, `Gauge`, `GaugeFunc` and `Registry.CounterVec`.
unfoldable pub new_cell : Text → Memory → Text → Text → Entry × Memory × ℕ
new_cell kind m name help =
    let c = m.next in
    (
      record { name = name; help = help; kind = kind; read = value_line (λ n. n.cell_at c) },
      record m { cell_at = λ d. if eqb c d then 0 else m.cell_at d; next = c + 1 },
      c,
    )

unfoldable pub gauge_func : Text → Text → (Memory → ℕ) → Entry
gauge_func name help read = record {
  name = name;
  help = help;
  kind = bytes "gauge";
  read = value_line read;
}

unfoldable pub new_vec : Memory → Text → Text → Text → Entry × Memory × ℕ
new_vec m name help label =
    let v = m.next in
    (
      record {
        name = name;
        help = help;
        kind = bytes "counter";
        read = λ n full. vec_text (n.vec_at v) n full;
      },
      set_vec v (record { label = label; cells = [] }) (record m { next = v + 1 }),
      v,
    )

-- `WriteTo`.
unfoldable pub entry_text : Text → Memory → Entry → Text
entry_text prefix m e =
    let full = prefix ++ e.name in
    bytes "# HELP "
    ++ full
    ++ bytes " "
    ++ e.help
    ++ bytes "\n# TYPE "
    ++ full
    ++ bytes " "
    ++ e.kind
    ++ bytes "\n"
    ++ e.read m full

unfoldable pub entries_text : Text → Memory → List Entry → Text
entries_text prefix m [] = []
entries_text prefix m (e ∷ es) = entry_text prefix m e ++ entries_text prefix m es

unfoldable pub write_to : Registry → Memory → Text
write_to r m = entries_text r.prefix m r.entries
