-- ===== src/Cork/Tests.antt =====
-- Two writers on one socket, whose frames go out together.
use ws_chat.Base.{◌≤◌, ◌≡◌, refl, none, List, [], ◌∷◌, ◌++◌, bytes, arith}
use ws_chat.Cork.{
  CorkMove, writes, corks, uncorks, new_cork, held_bytes, write, cork, uncork, on_move, on_moves,
}
use ws_chat.Cork.Batches.{written, depth, flushes, on_moves-written}

abbrev two_writers : List CorkMove
two_writers =
    corks 5
    ∷ writes (bytes "a")
    ∷ corks 6
    ∷ writes (bytes "b")
    ∷ uncorks
    ∷ writes (bytes "c")
    ∷ uncorks
    ∷ []

one_call :
    ((on_moves two_writers new_cork).wire ≡ bytes "abc")
    × ((on_moves two_writers new_cork).calls ≡ 1)
unfolding on_moves on_move new_cork write cork uncork
one_call = (refl, refl)

on_moves-written_example :
    ((on_moves two_writers new_cork).wire ++ held_bytes (on_moves two_writers new_cork).held
      ≡ written two_writers)
    × (depth 0 two_writers ≡ 0
        → ((on_moves two_writers new_cork).wire ≡ written two_writers)
          × ((on_moves two_writers new_cork).deadline ≡ none))
    × ((on_moves two_writers new_cork).calls ≤ flushes 0 two_writers)
on_moves-written_example = on_moves-written two_writers (omega arith, (omega arith, tt))
