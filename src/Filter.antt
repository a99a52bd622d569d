-- ===== src/Filter.antt =====
-- internal/filter/filter.go: the filters that a message passes. `is_mark` stands for the Unicode
-- table of combining marks, `unicode.M`. A non-positive `Max` is 0.
pub mod Runs
pub mod Chains
mod Tests
use ws_chat.Base.{
  ℕ, zero, suc, ◌+◌, Bool, true, false, Option, none, some, List, [], ◌∷◌, arith, ltb,
  if◌then◌else◌, Text, bytes, map,
}
use ws_chat.Utf8.{runes, rune, valid_string}
use ws_chat.Hook.{Identity}

abbrev pub reason_invalid_utf8 : Text
reason_invalid_utf8 = bytes "invalidutf8"

abbrev pub reason_zalgo : Text
reason_zalgo = bytes "zalgo"

-- `Allow` of a filter: whether the message passes, and else the reason.
abbrev pub Filter : Type 0
Filter = Identity → Text → Bool × Text

-- The filters that are not nil.
abbrev pub kept : List (Option Filter) → List Filter
kept [] = []
kept (none ∷ fs) = kept fs
kept (some f ∷ fs) = f ∷ kept fs

abbrev pub some_filters : List Filter → Option (List Filter)
some_filters [] = none
some_filters (f ∷ fs) = some (f ∷ fs)

-- `Chain`; nil if nothing is kept.
unfoldable pub chain : List (Option Filter) → Option (List Filter)
chain fs = some_filters (kept fs)

-- A filter's answer, or the rest of the chain's.
abbrev pub first_refusal : Bool × Text → Bool × Text → Bool × Text
first_refusal (true, reason) rest = rest
first_refusal (false, reason) rest = (false, reason)

unfoldable pub chain_allow : List Filter → Identity → Text → Bool × Text
chain_allow [] from body = (true, [])
chain_allow (f ∷ fs) from body = first_refusal (f from body) (chain_allow fs from body)

-- What the server does with a chain (`app.allow`): nil lets everything pass.
unfoldable pub allow : Option (List Filter) → Identity → Text → Bool × Text
allow none from body = (true, [])
allow (some fs) from body = chain_allow fs from body

unfoldable pub utf8_allow : Filter
utf8_allow from body = if valid_string body then (true, []) else (false, reason_invalid_utf8)

module _ (is_mark : ℕ → Bool) where
  -- The loop of `Zalgo.Allow`, after `run` marks in a row.
  unfoldable pub zalgo_loop : ℕ → ℕ → List ℕ → Bool
  zalgo_loop limit run [] = true
  zalgo_loop limit run (r ∷ rs) =
      let longer = zalgo_loop limit (run + 1) rs in
      let rest = zalgo_loop limit 0 rs in
      if is_mark r then (if ltb limit (run + 1) then false else longer) else rest

  unfoldable pub zalgo_allow : ℕ → Filter
  zalgo_allow limit from body =
      if ltb limit 1
      then (true, [])
      else (if zalgo_loop limit 0 (map rune (runes body))
          then (true, [])
          else (false, reason_zalgo))
