-- ===== src/Loadgen/Report/Tests.antt =====
-- Two connections: one is never made, the other reads a refusal and is dropped.
use ws_chat.Base.{
  ◌+◌, ◌%◌, ◌^◌, ◌≡◌, refl, Bool, true, false, Option, none, some, [], ◌∷◌, Text, bytes, same_text,
}
use ws_chat.Base.Sorting.{place, sort_by, text_le}
use ws_chat.Base.Decimal.{print_nat, emit}
use ws_chat.Loadgen.Plan.{Plan, speakers, check}
use ws_chat.Loadgen.Stats.{Frame, no_frame}
use ws_chat.Loadgen.Stats.Accounts.{total}
use ws_chat.Loadgen.Clients.{Life, went, unreached, greeted}
use ws_chat.Loadgen.Report.{Result, codec_by_name, run, write_counts}
use ws_chat.Loadgen.Report.Totals.{run-adds_up}

abbrev two : Plan
two = record {
  url = bytes "ws://localhost/ws";
  conns = 2;
  percent = 50;
  parts = 1;
  rated = true;
  message_size = 100;
  channels = 1;
  ping_every = 30;
}

abbrev unmarshal : Bool → Text → Option Frame
unmarshal binary t = some (record no_frame { verb = t })

abbrev quiet : Life
quiet = record {
  dialled = unreached (bytes "connection refused");
  joins = [];
  joining = went;
  parting = went;
  stopping = false;
  arrivals = [];
  end = none;
  opened = true;
  said = 0;
  last = went;
}

abbrev dropped : Life
dropped = record quiet {
  dialled = greeted (record { binary = false; bytes = bytes "READY"; now = 0 });
  joins = bytes "main" ∷ [];
  arrivals = record { binary = false; bytes = bytes "ERR"; now = 1 } ∷ [];
  end = some (bytes "eof");
  said = 3;
}

-- The larger counts come first, and equal ones by name.
three_rows :
    write_counts
      (bytes "losses")
      ((bytes "eof", 1) ∷ (bytes "timed out", 2) ∷ (bytes "cancelled", 1) ∷ [])
    ≡ bytes "losses       timed out=2  cancelled=1  eof=1\n"
unfolding write_counts sort_by place text_le print_nat emit
three_rows = refl

json_known : codec_by_name [] ≡ some false
unfolding same_text
json_known = refl

two_accepted : check two ≡ none
unfolding check speakers same_text
two_accepted = refl

run-adds_up_example :
    (r : Result) × (run unmarshal two [] (quiet ∷ dropped ∷ []) ≡ some r)
    × ((r.dialed + r.failed) % 2 ^ 64 ≡ r.conns % 2 ^ 64)
    × (total r.dial_errs % 2 ^ 64 ≡ r.failed % 2 ^ 64)
    × (total r.losses % 2 ^ 64 ≡ r.lost % 2 ^ 64)
run-adds_up_example =
    run-adds_up unmarshal two [] false (quiet ∷ dropped ∷ []) two_accepted json_known refl
