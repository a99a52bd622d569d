-- ===== src/Hook/Tests.antt =====
-- A chatter with a new nick and a colour.
use ws_chat.Base.{◌≡◌, ◌≢◌, refl, none, some, [], ◌∷◌, Text, bytes, text_keyed}
use ws_chat.Base.Dict.{lookup}
use ws_chat.Hook.{Identity, Chatter, key, apply_chatter}
use ws_chat.Hook.Keys.{key-apply_chatter}

abbrev logged_in : Identity
logged_in = record {
  id = bytes "7";
  nick = bytes "bob";
  roles = [];
  attrs = (bytes "flair", bytes "new") ∷ [];
}

abbrev nameless : Identity
nameless = record logged_in { id = [] }

abbrev chatter : Chatter
chatter = record {
  nick = bytes "Bob";
  roles = bytes "mod" ∷ [];
  attrs = (bytes "flair", bytes "old") ∷ [];
}

key-apply_chatter_example :
    (bytes "7" ≢ [] → key (apply_chatter logged_in chatter) ≡ key logged_in)
    × ((k : Text)
        → lookup k (apply_chatter logged_in chatter).attrs
          ≡ elim (lookup k chatter.attrs) [ none ↦ lookup k logged_in.attrs | some v ↦ some v ])
unfolding lookup
key-apply_chatter_example = key-apply_chatter logged_in chatter (refl, tt)
