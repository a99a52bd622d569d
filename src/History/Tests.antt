-- ===== src/History/Tests.antt =====
-- A window of two messages.
use ws_chat.Base.{ℕ, ◌≡◌, refl, min, List, [], ◌∷◌, Text, bytes, same_text}
use ws_chat.Base.Dict.{lookup, insert}
use ws_chat.History.{new_memory, window, shifted, append, recent}
use ws_chat.History.Windows.{newest, sent_to, append_all, recent-newest}

abbrev main : Text
main = bytes "main"

abbrev log : List (Text × ℕ)
log = (main, 1) ∷ (bytes "dev", 9) ∷ (main, 2) ∷ (main, 3) ∷ []

two_kept : recent (append_all (new_memory 2) log) main 50 ≡ 2 ∷ 3 ∷ []
unfolding recent append_all append window shifted new_memory lookup insert same_text
two_kept = refl

recent-newest_example :
    recent (append_all (new_memory 2) log) main 1 ≡ newest (min 1 2) (sent_to main log)
recent-newest_example = recent-newest 2 1 log main
