-- ===== src/Cork.antt =====
-- cork.go: a socket that holds what is written while somebody has it corked.
-- Writes reach the socket whole. `writers` does not go below 0: `uncork` follows a `cork`.
pub mod Batches
mod Tests
use ws_chat.Base.{
  ℕ, ◌+◌, ◌-◌, Option, none, some, List, [], ◌∷◌, ◌++◌, ltb, eqb, if◌then◌else◌, Text,
}

pub record CorkConn : Type 0 where
  pub writers : ℕ
  pub held : Option Text
  pub deadline : Option ℕ
  -- history: what the socket was given, and in how many calls of `Write`
  pub wire : Text
  pub calls : ℕ

-- A frame, a `cork` until a time, and an `uncork`.
pub data CorkMove : Type 0 where
  writes : Text → CorkMove
  corks : ℕ → CorkMove
  uncorks : CorkMove

unfoldable pub new_cork : CorkConn
new_cork = record { writers = 0; held = none; deadline = none; wire = []; calls = 0 }

-- `Write` of the socket below.
abbrev pub put : Text → CorkConn → CorkConn
put p s = record s { wire = s.wire ++ p; calls = s.calls + 1 }

abbrev pub held_bytes : Option Text → Text
held_bytes none = []
held_bytes (some b) = b

unfoldable pub write : Text → CorkConn → CorkConn
write p s = if eqb s.writers 0 then put p s else record s { held = some (held_bytes s.held ++ p) }

unfoldable pub cork : ℕ → CorkConn → CorkConn
cork until s = record s { writers = s.writers + 1; deadline = some until }

abbrev pub flush : Option Text → CorkConn → CorkConn
flush none s = s
flush (some b) s = record (put b s) { held = none }

unfoldable pub uncork : CorkConn → CorkConn
uncork s =
    let out = record s { writers = s.writers - 1 } in
    if ltb 0 out.writers then out else record (flush s.held out) { deadline = none }

unfoldable pub on_move : CorkMove → CorkConn → CorkConn
on_move (writes p) s = write p s
on_move (corks until) s = cork until s
on_move uncorks s = uncork s

unfoldable pub on_moves : List CorkMove → CorkConn → CorkConn
on_moves [] s = s
on_moves (m ∷ ms) s = on_moves ms (on_move m s)
