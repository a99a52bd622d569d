-- ===== src/Moderation/Tests.antt =====
-- Moderation at a small store: one server-wide ban, one ban in a channel that runs out at 100.
use ws_chat.Base.{◌+◌, ◌≡◌, refl, true, false, length, arith, Text, bytes, same_text}
use ws_chat.Base.Dict.{lookup, insert}
use ws_chat.Moderation.{
  Store, new, ban, global, muted, banned, active, first_active, scopes_of, sweep,
}
use ws_chat.Moderation.Sweeping.{IsValid, sweep-answers}

abbrev alice : Text
alice = bytes "id:1"

abbrev bob : Text
bob = bytes "nick:bob"

abbrev room : Text
room = bytes "main"

abbrev store : Store
store = ban (ban new global alice 0) room bob 100

ban_runs : (banned store 99 room bob).holds ≡ true
unfolding banned active scopes_of first_active ban new lookup insert same_text
ban_runs = refl

ban_ran_out : (banned store 100 room bob).holds ≡ false
unfolding banned active scopes_of first_active ban new lookup insert same_text
ban_ran_out = refl

store-IsValid : IsValid store
unfolding ban new insert lookup same_text
store-IsValid = record { mutes_distinct = tt; bans_distinct = (refl, (refl, tt)) }

sweep-answers_example :
    (muted (sweep store 200).0 201 room bob ≡ muted store 201 room bob)
    × (banned (sweep store 200).0 201 room bob ≡ banned store 201 room bob)
    × (length (sweep store 200).0.mutes + length (sweep store 200).0.bans + (sweep store 200).1
        ≡ length store.mutes + length store.bans)
sweep-answers_example = sweep-answers store 200 201 room bob store-IsValid (omega arith)
