-- ===== src/Server/Records.antt =====
-- hooks.go: the queue of what is persisted, and the one worker that empties it.
-- A job is a record for the Recorder or the Sanctions hook, which fails or not; the grace of the
-- drain is the number of jobs that run before its deadline has passed.
pub mod Order
mod Tests
use ws_chat.Base.{
  ℕ, zero, suc, ◌+◌, Bool, true, false, List, [], ◌∷◌, ◌++◌, ltb, if◌then◌else◌, length,
}
use ws_chat.Server.State.{Record, App}
use ws_chat.Server.Handlers.{record_queue, enqueue}

pub record Desk : Type 0 where
  pub app : App
  -- `recordsFailed`, and whether the worker has returned and closed `recordsDone`
  pub failed : ℕ
  pub done : Bool
  -- history: the jobs that ran, those that were queued, and how many were asked for
  pub ran : List Record
  pub queued : List Record
  pub asked : ℕ

-- A job is asked for, the worker runs the next one, or it is told to stop.
pub data DeskMove : Type 0 where
  asks : Record → DeskMove
  works : DeskMove
  stops : ℕ → DeskMove

unfoldable pub ask : Record → Desk → Desk
ask r d = record d {
  app = enqueue r d.app;
  queued = if ltb (length d.app.records) record_queue then d.queued ++ r ∷ [] else d.queued;
  asked = d.asked + 1;
}

module _ (fails : Record → Bool) where
  -- `runRecord` of the job that was taken from the queue.
  unfoldable pub run_record : Record → List Record → Desk → Desk
  run_record r rest d = record d {
    app = record d.app { records = rest };
    failed = if fails r then d.failed + 1 else d.failed;
    ran = d.ran ++ r ∷ [];
  }

  -- A `select` with a job in the queue, or without one.
  abbrev pub take_job : List Record → Desk → Desk
  take_job [] d = d
  take_job (r ∷ rest) d = run_record r rest d

  -- `drainRecords`: `n` jobs run before the deadline has passed, and one more after the last look.
  unfoldable pub drain_records : ℕ → List Record → Desk → Desk
  drain_records n [] d = d
  drain_records zero (r ∷ rest) d = run_record r rest d
  drain_records (suc n) (r ∷ rest) d = drain_records n rest (run_record r rest d)

  -- `recordWorker`, one round, and its end.
  unfoldable pub on_desk : DeskMove → Desk → Desk
  on_desk (asks r) d = ask r d
  on_desk works d = if d.done then d else take_job d.app.records d
  on_desk (stops n) d =
      if d.done then d else record (drain_records n d.app.records d) { done = true }

  unfoldable pub on_desks : List DeskMove → Desk → Desk
  on_desks [] d = d
  on_desks (m ∷ ms) d = on_desks ms (on_desk m d)

unfoldable pub new_desk : App → Desk
new_desk a = record { app = a; failed = 0; done = false; ran = []; queued = []; asked = 0 }
