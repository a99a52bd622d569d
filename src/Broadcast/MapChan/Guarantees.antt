-- ===== src/Broadcast/MapChan/Guarantees.antt =====
-- broadcast.go: what MapChan guarantees in every interleaving of its broadcasts with its subscribers.
use ws_chat.Base.{◌≤◌, ◌≡◌, ℕ, true, false, List, ◌++◌, length}
use ws_chat.Broadcast.Errors.{lagged}
use ws_chat.Broadcast.MapChan.{MapSub, MapMove, new_map_chan, end_of, moves}
use ws_chat.Broadcast.MapChan.Sending.{new_map_chan-Inv}
use ws_chat.Broadcast.MapChan.Moves.{moves-Inv}
use native.Mathlib.Omega.{arith}

module _ {ℓ} {A : Type ℓ} where
  lagged-behind_flag : (s : MapSub A) → end_of s ≡ lagged → s.behind ≡ true
  unfolding end_of
  lagged-behind_flag s e = ground arith

  -- In every interleaving of any number of broadcasts with subscriptions, receives and closes: no
  -- broadcast sends on a channel that is closed, which would panic.
  pub moves-calm : (n : ℕ) (ms : List (MapMove A)) → (moves (new_map_chan n) ms).panicked ≡ false
  moves-calm n ms = (moves-Inv ms (new_map_chan n) (new_map_chan-Inv n)).calm

  -- In every interleaving of any number of broadcasts with subscriptions, receives and closes: the
  -- channel of a subscription holds no more messages than its buffer; what the subscriber has received
  -- and what the channel holds are together what was sent to it, in that order; and only a subscriber
  -- whose channel was full when a broadcast reached it is told `ErrLagged`.
  pub moves-delivered :
      (n : ℕ) (ms : List (MapMove A)) (p : ℕ)
      → (length ((moves (new_map_chan n) ms).sub_at p).queue
          ≤ (moves (new_map_chan {A = A} n) ms).buf)
        × (((moves (new_map_chan n) ms).sub_at p).got
              ++ ((moves (new_map_chan n) ms).sub_at p).queue
            ≡ ((moves (new_map_chan n) ms).sub_at p).sent)
        × (end_of ((moves (new_map_chan n) ms).sub_at p) ≡ lagged
            → ((moves (new_map_chan n) ms).sub_at p).was_full ≡ true)
  moves-delivered n ms p =
      let b = moves (new_map_chan n) ms in
      let s = (moves-Inv ms (new_map_chan n) (new_map_chan-Inv n)).each p in
      (s.fits, s.in_order, λ e. s.lags (lagged-behind_flag (b.sub_at p) e))
