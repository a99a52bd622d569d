-- ===== src/Loadgen/Clients/Tests.antt =====
-- A client that is put into `main` and goes to `bench1`.
use ws_chat.Base.{◌≡◌, refl, false, some, [], ◌∷◌, Text, bytes, same_text}
use ws_chat.Loadgen.Clients.{wait_join, went, lost, do_settle}
use ws_chat.Loadgen.Clients.Settling.{Arrived, do_settle-Arrived}

abbrev main : Text
main = bytes "main"

abbrev bench : Text
bench = bytes "bench1"

-- Other JOINs are passed over.
second_taken : wait_join bench (main ∷ bench ∷ []) ≡ (some bench, [])
unfolding wait_join same_text
second_taken = refl

never_joined : (do_settle went went bench (main ∷ main ∷ [])).ok ≡ false
unfolding do_settle wait_join same_text
never_joined = refl

part_lost : (do_settle went lost bench (main ∷ bench ∷ [])).ok ≡ false
unfolding do_settle wait_join same_text
part_lost = refl

do_settle-Arrived_example : Arrived bench main (do_settle went went bench (main ∷ bench ∷ []))
unfolding do_settle wait_join same_text
do_settle-Arrived_example = do_settle-Arrived went went bench main (bench ∷ []) (λ e. cc) refl
