-- ===== src/Broadcast/MapChan/Tests.antt =====
-- A subscriber with room for one message that gets two.
use ws_chat.Base.{ℕ, ◌≤◌, ◌≡◌, refl, true, false, List, [], ◌∷◌, ◌++◌, length}
use ws_chat.Broadcast.Errors.{lagged}
use ws_chat.Broadcast.MapChan.{
  MapMove, broadcasts, subscribes, runs, leaves, receives, new_map_chan, subscribe, finish_at,
  send_at, send, drop_one, drop_all, run_thread, remove, receive, end_of, move, moves, len,
}
use ws_chat.Broadcast.MapChan.Guarantees.{moves-calm, moves-delivered}

abbrev overfull : List (MapMove ℕ)
overfull =
    subscribes
    ∷ broadcasts 5
    ∷ broadcasts 6
    ∷ runs 0
    ∷ runs 1
    ∷ runs 0
    ∷ subscribes
    ∷ runs 1
    ∷ leaves 0
    ∷ runs 1
    ∷ receives 0
    ∷ []

-- The second broadcast finds the buffer full: once both are past the read lock the subscriber, that
-- has left in the meantime, is not dropped again.
overfull_runs :
    ((moves (new_map_chan 1) overfull).drops ≡ 0)
    × (((moves (new_map_chan 1) overfull).sub_at 0).got ≡ 5 ∷ [])
    × (((moves (new_map_chan 1) overfull).sub_at 0).was_full ≡ true)
    × (len (moves (new_map_chan 1) overfull) ≡ 0)
unfolding moves move new_map_chan subscribe send send_at run_thread finish_at drop_one drop_all
    remove receive len
overfull_runs = (refl, refl, refl, refl)

lagged_dropped :
    (end_of {A = ℕ} (
        (moves (new_map_chan 1) (
            subscribes
            ∷ broadcasts 5
            ∷ runs 0
            ∷ runs 0
            ∷ runs 0
            ∷ broadcasts 6
            ∷ runs 1
            ∷ runs 1
            ∷ runs 1
            ∷ [])).sub_at
          0)
      ≡ lagged)
unfolding moves move new_map_chan subscribe send send_at run_thread finish_at drop_one drop_all
    end_of
lagged_dropped = refl

moves-calm_example : (moves (new_map_chan 1) overfull).panicked ≡ false
moves-calm_example = moves-calm 1 overfull

moves-delivered_example :
    (length ((moves (new_map_chan 1) overfull).sub_at 0).queue
      ≤ (moves (new_map_chan 1) overfull).buf)
    × (((moves (new_map_chan 1) overfull).sub_at 0).got
          ++ ((moves (new_map_chan 1) overfull).sub_at 0).queue
        ≡ ((moves (new_map_chan 1) overfull).sub_at 0).sent)
    × (end_of ((moves (new_map_chan 1) overfull).sub_at 0) ≡ lagged
        → ((moves (new_map_chan 1) overfull).sub_at 0).was_full ≡ true)
moves-delivered_example = moves-delivered 1 overfull 0
