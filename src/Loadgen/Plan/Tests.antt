-- ===== src/Loadgen/Plan/Tests.antt =====
-- Ten connections in three channels, half of them speaking.
use ws_chat.Base.{ℕ, ◌+◌, ◌*◌, ◌<◌, ◌≡◌, ◌↔◌, refl, true, bytes, none, some, arith, [], same_text}
use ws_chat.Loadgen.Plan.{Plan, speakers, speakers_in, members_in, speaks, check}
use ws_chat.Loadgen.Plan.Rooms.{count_below, speaks-count}

abbrev ten : Plan
ten = record {
  url = bytes "ws://localhost/ws";
  conns = 10;
  percent = 50;
  parts = 1;
  rated = true;
  message_size = 100;
  channels = 3;
  ping_every = 30;
}

ten_accepted : check ten ≡ none
unfolding check speakers same_text
ten_accepted = refl

no_url_refused : check (record ten { url = [] }) ≡ some (bytes "field URL must not be empty")
unfolding check same_text
no_url_refused = refl

first_room : (members_in ten 0 ≡ 4) × (speakers_in ten 0 ≡ 2) × (speaks ten 3 ≡ true)
unfolding members_in speakers_in speakers speaks
first_room = (refl, refl, refl)

speaks-count_example :
    ((p : ℕ) → (p < members_in ten 0) ↔ (p * 3 + 0 < 10))
    × (count_below (λ p. speaks ten (p * 3 + 0)) (members_in ten 0) ≡ speakers_in ten 0)
speaks-count_example = speaks-count ten 0 (omega arith) ten_accepted (omega arith)
