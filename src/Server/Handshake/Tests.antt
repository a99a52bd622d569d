-- ===== src/Server/Handshake/Tests.antt =====
-- Bob comes to a door whose directory knows him by another nick.
use ws_chat.Base.{◌≡◌, ◌↔◌, refl, Option, some, [], Text, bytes, same_text}
use ws_chat.Base.Dict.{lookup}
use ws_chat.Hook.{Identity, Limits, key, apply_chatter, anonymous}
use ws_chat.Moderation.{new, ban, global, banned, active, scopes_of, first_active, entry_keyed}
use ws_chat.Server.Sanctions.{Found, chatter, nobody, identify, identified}
use ws_chat.Server.Handshake.{
  rejected, Door, someone, unavailable, refused, failed, is_barred, greet, handle_ws,
}
use ws_chat.Server.Handshake.Bans.{handle_ws-barred_iff}
use ws_chat.Moderation.Answers.{InForce}

abbrev bob : Identity
bob = record nobody { id = bytes "7"; nick = bytes "bob" }

abbrev directory : Option (Text → Found)
directory = some (λ id. chatter (record { nick = bytes "robert"; roles = []; attrs = [] }))

abbrev limits : Option (Identity → Limits)
limits = some (λ who. record { burst = 5; interval = 1000; key = bytes "10.0.0.1" })

abbrev door : Door
door = record { store = new; anon = 0; limiters = [] }

abbrev barred : Door
barred = record door { store = ban new global (bytes "id:7") 100 }

no_login :
    (handle_ws directory limits door 1 (some unavailable) rejected).1
    ≡ refused 500 (bytes "authfailed")
unfolding handle_ws identify greet
no_login = refl

no_upgrade :
    (handle_ws directory limits door 1 (some (someone bob)) rejected).1 ≡ failed (bytes "upgrade")
unfolding handle_ws identify identified greet is_barred banned active scopes_of first_active key
    apply_chatter anonymous new lookup same_text
no_upgrade = refl

handle_ws-barred_iff_example :
    ((handle_ws directory limits barred 1 (some (someone bob)) rejected).1
      ≡ refused 403 (bytes "banned"))
    ↔ InForce barred.store.bans 1 global (key bob)
handle_ws-barred_iff_example = handle_ws-barred_iff directory limits barred 1 bob rejected (λ e. cc)
