-- ===== src/Server/Sanctions/Tests.antt =====
-- Two mutes of one key, of which the later counts, and the identities of three connections.
use ws_chat.Base.{ℕ, ◌≡◌, refl, none, some, List, [], ◌∷◌, bytes, count, same_text}
use ws_chat.Base.Dict.{lookup}
use ws_chat.Base.Decimal.{print_int, print_nat, emit}
use ws_chat.Hook.{Sanction, anonymous}
use ws_chat.Moderation.{entry, entry_keyed, new}
use ws_chat.Proto.Command.{action_mute, action_ban}
use ws_chat.Server.Sanctions.{nobody, broken, identify, identified, load_each, load_sanctions}
use ws_chat.Server.Sanctions.Loading.{last_of, is_loaded, load_sanctions-last}

abbrev bob_muted : ℕ → Sanction
bob_muted until = record {
  id = 0;
  action = action_mute;
  scope = bytes "main";
  by_whom = nobody;
  target = bytes "bob";
  key = bytes "id:7";
  reason = [];
  until = until;
  at = 1;
}

abbrev two_mutes : List Sanction
two_mutes = bob_muted 5 ∷ bob_muted 9 ∷ []

anon_first : identify none none 0 ≡ some (record nobody { nick = bytes "anon1" }, 1)
unfolding identify identified print_int print_nat emit same_text
anon_first = refl

refused_first : identify (some none) none 0 ≡ none
unfolding identify
refused_first = refl

-- A broken directory does not cost somebody their login.
broken_directory :
    identify
      (some (some (record nobody { id = bytes "7"; nick = bytes "bob" })))
      (some (λ i. broken))
      0
    ≡ some (record nobody { id = bytes "7"; nick = bytes "bob" }, 0)
unfolding identify identified same_text anonymous
broken_directory = refl

load_sanctions-last_example :
    (load_sanctions (some (some two_mutes)) new ≡ some (load_each two_mutes (new, 0)))
    × (lookup (entry (bytes "main") (bytes "id:7")) (load_each two_mutes (new, 0)).0.mutes
        ≡ last_of action_mute (entry (bytes "main") (bytes "id:7")) two_mutes none)
    × (lookup (entry (bytes "main") (bytes "id:7")) (load_each two_mutes (new, 0)).0.bans
        ≡ last_of action_ban (entry (bytes "main") (bytes "id:7")) two_mutes none)
    × ((load_each two_mutes (new, 0)).1 ≡ count is_loaded two_mutes)
    × (load_sanctions none new ≡ some (new, 0))
    × (load_sanctions (some none) new ≡ none)
load_sanctions-last_example = load_sanctions-last two_mutes (entry (bytes "main") (bytes "id:7"))
