-- ===== src/Metrics/Names.antt =====
-- metrics.go: a registry has one metric of a name.
use ws_chat.Base.{
  ◌≡◌, refl, sym, ◌∙◌, Bool, true, false, not, ◌&&◌, Option, none, some, List, [], ◌∷◌, ◌++◌,
  append-nil, append_assoc, if◌then◌else◌, if_rule, Text, ◌==◌, text_keyed, arith,
}
use ws_chat.Base.Dict.{lookup, insert, has, lookup-insert}
use ws_chat.Metrics.{Entry, Registry, new_registry, register}

-- The metrics that a program registers one after the other, unless it panics.
unfoldable pub register_all : List Entry → Option Registry → Option Registry
register_all es none = none
register_all [] (some r) = some r
register_all (e ∷ es) (some r) = register_all es (register e r)

abbrev pub listed : Option Registry → Option (List Entry)
listed none = none
listed (some r) = some r.entries

-- Whether a name is among those of the entries, and whether one stands twice.
abbrev pub named : Text → List Entry → Bool
named n [] = false
named n (e ∷ es) = if e.name == n then true else named n es

abbrev pub all_new : List Entry → List Entry → Bool
all_new old [] = true
all_new old (e ∷ es) = not (named e.name old) && all_new (old ++ e ∷ []) es

named-append :
    (n : Text) (es : List Entry) (e : Entry)
    → named n (es ++ e ∷ []) ≡ (if named n es then true else (e.name == n))
named-append n [] e = ground arith
named-append n (d ∷ es) e = ground (arith, named-append n es e)

abbrev registered : Entry → Registry → Registry
registered e r = record r { names = insert e.name true r.names; entries = r.entries ++ e ∷ [] }

registered-named :
    (e : Entry) (r : Registry)
    → ((n : Text) → has n r.names ≡ named n r.entries)
    → (n : Text) → has n (registered e r).names ≡ named n (registered e r).entries
registered-named e r h n =
    ground (arith, lookup-insert e.name n true r.names, named-append n r.entries e, h n)

register_all-listed :
    (es : List Entry) (r : Registry)
    → ((n : Text) → has n r.names ≡ named n r.entries)
    → listed (register_all es (some r))
      ≡ (if all_new r.entries es then some (r.entries ++ es) else none)
unfolding register_all register
register_all-listed [] r h = rw (append-nil r.entries) refl
register_all-listed (e ∷ es) r h =
    let goal = if all_new r.entries (e ∷ es) then some (r.entries ++ e ∷ es) else none in
    if_rule (λ (o : Option Registry). listed (register_all es o) ≡ goal) (has e.name r.names)
      (λ twice. let known : named e.name r.entries ≡ true = sym (h e.name) ∙ twice in rw known refl)
      (λ fresh.
        let new : named e.name r.entries ≡ false = sym (h e.name) ∙ fresh in
        let later = register_all-listed es (registered e r) (registered-named e r h) in
        rw (new, ← append_assoc r.entries (e ∷ []) es) later)

-- Metrics registered one after the other, in a registry that is new: either their names are all
-- different and the registry lists them in that order, or a name stands twice and the program
-- panics.
registers-or_panics :
    (p : Text) (es : List Entry)
    → listed (register_all es (some (new_registry p))) ≡ (if all_new [] es then some es else none)
unfolding new_registry
registers-or_panics p es = register_all-listed es (new_registry p) (λ n. unfold lookup in refl)
