-- ===== src/Server/Records/Order.antt =====
-- hooks.go: records are written in the order things happened.
use ws_chat.Base.{
  ℕ, zero, suc, ◌+◌, ◌≤◌, ◌≡◌, refl, sym, ap, ◌∙◌, Bool, false, List, [], ◌∷◌, ◌++◌, ltb, if_rule,
  Bool-cases, inl, inr, count-append, length, length-append, append_assoc, arith, count,
}
use ws_chat.Server.State.{Record, App}
use ws_chat.Server.Handlers.{record_queue, enqueue}
use ws_chat.Server.Records.{
  Desk, DeskMove, asks, works, stops, ask, run_record, take_job, drain_records, on_desk, on_desks,
  new_desk,
}

record Inv (fails : Record → Bool) (dropped : ℕ) (d : Desk) : Type 0 where
  in_order : d.ran ++ d.app.records ≡ d.queued
  fits : length d.app.records ≤ record_queue
  counted : length d.queued + d.app.dropped ≡ d.asked + dropped
  failures : d.failed ≡ count fails d.ran

ask-Inv :
    (fails : Record → Bool) (k : ℕ) (r : Record) (d : Desk) → Inv fails k d → Inv fails k (ask r d)
unfolding ask enqueue
ask-Inv fails k r d i = elim (Bool-cases (ltb (length d.app.records) record_queue)) [
  | inl room ↦ rw room (record {
    in_order = sym (append_assoc d.ran d.app.records (r ∷ [])) ∙ ap (λ l. l ++ r ∷ []) i.in_order;
    fits = ground (arith, length-append d.app.records (r ∷ []));
    counted = omega (arith, i.counted, length-append d.queued (r ∷ []));
    failures = i.failures;
  })
  | inr none_left ↦ rw none_left (record {
    in_order = i.in_order;
    fits = i.fits;
    counted = omega (arith, i.counted);
    failures = i.failures;
  })
]

run_record-Inv :
    (fails : Record → Bool) (k : ℕ) (r : Record) (rest : List Record) (d : Desk)
    → d.app.records ≡ r ∷ rest
    → Inv fails k d
    → Inv fails k (run_record fails r rest d)
unfolding run_record
run_record-Inv fails k r rest d e i = record {
  in_order = append_assoc d.ran (r ∷ []) rest ∙ ap (λ l. d.ran ++ l) (sym e) ∙ i.in_order;
  fits = omega (arith, i.fits, ap length e);
  counted = i.counted;
  failures = ground (arith, i.failures, count-append fails d.ran (r ∷ []));
}

take_job-Inv :
    (fails : Record → Bool) (k : ℕ) (js : List Record) (d : Desk)
    → d.app.records ≡ js
    → Inv fails k d
    → Inv fails k (take_job fails js d)
take_job-Inv fails k [] d e i = i
take_job-Inv fails k (r ∷ rest) d e i = run_record-Inv fails k r rest d e i

drain_records-Inv :
    (fails : Record → Bool) (k n : ℕ) (js : List Record) (d : Desk)
    → d.app.records ≡ js
    → Inv fails k d
    → Inv fails k (drain_records fails n js d)
unfolding drain_records
drain_records-Inv fails k n [] d e i = i
drain_records-Inv fails k zero (r ∷ rest) d e i = run_record-Inv fails k r rest d e i
drain_records-Inv fails k (suc n) (r ∷ rest) d e i =
    drain_records-Inv fails k n rest (run_record fails r rest d) (unfold run_record in refl)
      (run_record-Inv fails k r rest d e i)

-- With time for all, the drain leaves nothing behind.
drain_records-empties :
    (fails : Record → Bool) (n : ℕ) (js : List Record) (d : Desk)
    → d.app.records ≡ js
    → length js ≤ suc n
    → (drain_records fails n js d).app.records ≡ []
unfolding drain_records run_record
drain_records-empties fails n [] d e le = e
drain_records-empties fails zero (r ∷ []) d e le = refl
drain_records-empties fails zero (r ∷ x ∷ rest) d e le = absurd (omega arith)
drain_records-empties fails (suc n) (r ∷ rest) d e le =
    drain_records-empties fails n rest (run_record fails r rest d) refl (omega arith)

on_desk-Inv :
    (fails : Record → Bool) (k : ℕ) (m : DeskMove) (d : Desk)
    → Inv fails k d
    → Inv fails k (on_desk fails m d)
unfolding on_desk
on_desk-Inv fails k (asks r) d i = ask-Inv fails k r d i
on_desk-Inv fails k works d i =
    if_rule (Inv fails k) d.done (λ _. i) (λ _. take_job-Inv fails k d.app.records d refl i)
on_desk-Inv fails k (stops n) d i =
    if_rule (Inv fails k) d.done (λ _. i)
      (λ _.
        let j = drain_records-Inv fails k n d.app.records d refl i in
        record { in_order = j.in_order; fits = j.fits; counted = j.counted; failures = j.failures })

on_desks-Inv :
    (fails : Record → Bool) (k : ℕ) (ms : List DeskMove) (d : Desk)
    → Inv fails k d
    → Inv fails k (on_desks fails ms d)
unfolding on_desks
on_desks-Inv fails k [] d i = i
on_desks-Inv fails k (m ∷ ms) d i =
    on_desks-Inv fails k ms (on_desk fails m d) (on_desk-Inv fails k m d i)

-- Whatever is asked for while the worker runs, starting from a server with nothing queued: the jobs
-- that ran are the first of those that were queued, in the order they were asked for; the rest waits,
-- never more than 1024 of them; every job that was asked for was queued or is counted as dropped; and
-- a worker that is told to stop with time for all that waits leaves nothing behind.
pub on_desks-in_order :
    (fails : Record → Bool) (a : App) (ms : List DeskMove) (n : ℕ)
    → a.records ≡ []
    → ((on_desks fails ms (new_desk a)).ran ++ (on_desks fails ms (new_desk a)).app.records
        ≡ (on_desks fails ms (new_desk a)).queued)
      × (length (on_desks fails ms (new_desk a)).app.records ≤ record_queue)
      × (length (on_desks fails ms (new_desk a)).queued
            + (on_desks fails ms (new_desk a)).app.dropped
          ≡ (on_desks fails ms (new_desk a)).asked + a.dropped)
      × ((on_desks fails ms (new_desk a)).done ≡ false
          → length (on_desks fails ms (new_desk a)).app.records ≤ suc n
          → (on_desk fails (stops n) (on_desks fails ms (new_desk a))).app.records ≡ [])
unfolding new_desk on_desk
on_desks-in_order fails a ms n empty =
    let start : Inv fails a.dropped (new_desk a) = record {
      in_order = empty;
      fits = omega (arith, ap length empty);
      counted = omega arith;
      failures = refl;
    } in
    let d = on_desks fails ms (new_desk a) in
    let i = on_desks-Inv fails a.dropped ms (new_desk a) start in
    (
      i.in_order,
      i.fits,
      i.counted,
      λ running le.
          if_rule (λ (x : Desk). x.app.records ≡ []) d.done (λ stopped. absurd (cc))
            (λ _. drain_records-empties fails n d.app.records d refl le),
    )
