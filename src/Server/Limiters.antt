-- ===== src/Server/Limiters.antt =====
-- hooks.go: the buckets that connections with the same key share, and how they are forgotten. What a
-- connection spends of a bucket changes its tokens only, and not this table.
pub mod Holders
mod Tests
use ws_chat.Base.{
  ℕ, ◌+◌, ◌-◌, Bool, true, false, Option, none, some, List, [], ◌∷◌, arith, ltb, eqb, if◌then◌else◌,
  Text, text_keyed,
}
use ws_chat.Base.Dict.{Dict, lookup, insert}
use ws_chat.Hook.{Limits}
use ws_chat.RateLimit.{Bucket, new_bucket, idle}

-- `limiterEntry`.
pub record Shared : Type 0 where
  pub bucket : Option Bucket
  pub refs : ℕ

abbrev pub Limiters : Type 0
Limiters = Dict Text Shared

-- The entry that is found, or a new one, with one holder more.
abbrev pub one_more : Limits → Option Shared → Shared
one_more l none = record { bucket = new_bucket l.burst l.interval; refs = 1 }
one_more l (some e) = record e { refs = e.refs + 1 }

pub acquire : Limits → Limiters → Limiters
acquire l t = insert l.key (one_more l (lookup l.key t)) t

abbrev pub one_less : Text → Limiters → Option Shared → Limiters
one_less key t none = t
one_less key t (some e) = if ltb 0 e.refs then insert key (record e { refs = e.refs - 1 }) t else t

pub release : Text → Limiters → Limiters
release key t = one_less key t (lookup key t)

-- `sweepLimiters`: what is left, and how many went. Only a bucket without holders is asked.
pub sweep_limiters : ℕ → Limiters → Limiters × ℕ
sweep_limiters now [] = ([], 0)
sweep_limiters now ((key, e) ∷ t) =
    let (left, removed) = sweep_limiters now t in
    let asked = idle e.bucket now in
    if eqb e.refs 0
    then (if asked.1
        then (left, removed + 1)
        else ((key, record e { bucket = asked.0 }) ∷ left, removed))
    else ((key, e) ∷ left, removed)
