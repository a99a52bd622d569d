-- ===== src/Loadgen/Clients/Balance.antt =====
-- internal/loadgen: the maps of a run add up to its counters, and every client is counted.
use ws_chat.Base.{
  ℕ, zero, suc, ◌+◌, ◌%◌, ◌^◌, ◌≡◌, refl, ap, ◌∙◌, Bool, ◌&&◌, ◌||◌, if◌then◌else◌, Option, none,
  some, ◌⊎◌, inl, inr, List, [], ◌∷◌, if_rule, length, Text, bytes, ◌==◌, text_keyed, arith,
}
use ws_chat.Proto.Command.{verb_ready}
use ws_chat.Loadgen.Plan.{Plan, channel_name, speaks}
use ws_chat.Loadgen.Stats.{
  Stats, Frame, Client, Arrival, inc, dial_err, refused, closed_early, merge_latency, spoke,
  new_stats, on_frame, decoded, is_same, read_frame, on_arrival, read,
}
use ws_chat.Loadgen.Stats.Accounts.{total, total-bump}
use ws_chat.Loadgen.Clients.{
  Sent, went, lost, too_late, count_send, count_sends, Settled, do_settle, Dialled, unreached,
  silent, greeted, Life, speak, settle, new_client, ready, dial_as, run_dialed, run_on, run_client,
  run_clients,
}

-- The counters of `s` and `t` that say how clients fared: `n` more dials succeeded and `m` more did
-- not, and what went into the maps also went into the counters.
pub record Fared (n m : ℕ) (s t : Stats) : Type 0 where
  pub dials : t.dialed % 2 ^ 64 ≡ (s.dialed + n) % 2 ^ 64
  pub failures : t.dial_failed % 2 ^ 64 ≡ (s.dial_failed + m) % 2 ^ 64
  pub reasons :
      (total t.dial_errs + s.dial_failed) % 2 ^ 64 ≡ (total s.dial_errs + t.dial_failed) % 2 ^ 64
  pub losses : (total t.losses + s.lost) % 2 ^ 64 ≡ (total s.losses + t.lost) % 2 ^ 64

Fared-trans :
    (n m i j : ℕ) (s t u : Stats) → Fared n m s t → Fared i j t u → Fared (n + i) (m + j) s u
Fared-trans n m i j s t u f g = record {
  dials = omega (arith, f.dials, g.dials);
  failures = omega (arith, f.failures, g.failures);
  reasons = omega (arith, f.reasons, g.reasons);
  losses = omega (arith, f.losses, g.losses);
}

closed_early-Fared : (reason : Text) (s : Stats) → Fared 0 0 s (closed_early reason s)
unfolding closed_early
closed_early-Fared reason s =
    let more = total-bump reason s.losses in
    record {
      dials = omega arith;
      failures = omega arith;
      reasons = omega arith;
      losses = omega (arith, more);
    }

dial_err-Fared : (reason : Text) (s : Stats) → Fared 0 1 s (dial_err reason s)
unfolding dial_err
dial_err-Fared reason s =
    let more = total-bump reason s.dial_errs in
    record {
      dials = omega arith;
      failures = omega arith;
      reasons = omega (arith, more);
      losses = omega arith;
    }

-- What leaves all of that alone.
abbrev Steady : Stats → Stats → Type 0
Steady s t =
    (t.dialed ≡ s.dialed)
    × (t.dial_failed ≡ s.dial_failed)
    × (t.lost ≡ s.lost)
    × (t.dial_errs ≡ s.dial_errs)
    × (t.losses ≡ s.losses)

Steady-Fared : (s t : Stats) → Steady s t → Fared 0 0 s t
Steady-Fared s t (dials, failures, lost_same, errs, gone) = record {
  dials = omega (arith, dials);
  failures = omega (arith, failures);
  reasons = omega (arith, failures, ap total errs);
  losses = omega (arith, lost_same, ap total gone);
}

on_frame-Steady : (now : ℕ) (f : Frame) (c : Client) → Steady c.stats (on_frame now f c).stats
unfolding on_frame refused
on_frame-Steady now f c = (ground arith, ground arith, ground arith, ground arith, ground arith)

decoded-Steady : (c : Client) (o : Option Frame) → Steady c.stats (decoded c o).0.stats
decoded-Steady c none = (refl, refl, refl, refl, refl)
decoded-Steady c (some f) = (refl, refl, refl, refl, refl)

count_send-Steady : (x : Sent) (s : Stats) → Steady s (count_send x s)
count_send-Steady went s = (refl, refl, refl, refl, refl)
count_send-Steady lost s = (refl, refl, refl, refl, refl)
count_send-Steady too_late s = (refl, refl, refl, refl, refl)

Steady-trans : (s t u : Stats) → Steady s t → Steady t u → Steady s u
Steady-trans s t u (a, b, c, d, e) (a', b', c', d', e') = (a' ∙ a, b' ∙ b, c' ∙ c, d' ∙ d, e' ∙ e)

count_sends-Steady : (xs : List Sent) (s : Stats) → Steady s (count_sends xs s)
count_sends-Steady [] s = (refl, refl, refl, refl, refl)
count_sends-Steady (x ∷ xs) s =
    Steady-trans s (count_send x s) (count_sends xs (count_send x s)) (count_send-Steady x s)
      (count_sends-Steady xs (count_send x s))

speak-Steady :
    (cfg : Plan) (index n : ℕ) (last : Sent) (s : Stats) → Steady s (speak cfg index n last s)
unfolding speak spoke
speak-Steady cfg index zero last s = count_send-Steady last s
speak-Steady cfg index (suc n) last s = speak-Steady cfg index n last (spoke cfg index s)

settle-Fared : (stopping : Bool) (done : Settled) (s : Stats) → Fared 0 0 s (settle stopping done s)
unfolding settle
settle-Fared stopping done s =
    let tried = count_sends done.tried s in
    let steady = Steady-Fared s tried (count_sends-Steady done.tried s) in
    if_rule (Fared 0 0 s) (done.ok || stopping) (λ _. steady)
      (λ _. Fared-trans 0 0 0 0 s tried _ steady (closed_early-Fared (bytes "never joined") tried))

module _ (unmarshal : Text → Option Frame) where
  read_frame-Steady : (a : Arrival) (c : Client) → Steady c.stats (read_frame unmarshal a c).0.stats
  unfolding read_frame
  read_frame-Steady a c =
      if_rule (λ (r : Client × Frame). Steady c.stats r.0.stats) (is_same a.binary c.binary)
        (λ _. decoded-Steady c (unmarshal a.bytes)) (λ _. (refl, refl, refl, refl, refl))

  read-Fared :
      (arrivals : List Arrival) (end : Option Text) (c : Client)
      → Fared 0 0 c.stats (read unmarshal arrivals end c).stats
  unfolding read on_arrival
  read-Fared [] none c = Steady-Fared c.stats c.stats (refl, refl, refl, refl, refl)
  read-Fared [] (some reason) c = closed_early-Fared reason c.stats
  read-Fared (a ∷ more) end c =
      let got = read_frame unmarshal a c in
      let d = on_frame a.now got.1 got.0 in
      Fared-trans 0 0 0 0 c.stats d.stats _
        (Steady-Fared c.stats d.stats (
          Steady-trans c.stats got.0.stats d.stats (read_frame-Steady a c)
            (on_frame-Steady a.now got.1 got.0)))
        (read-Fared more end d)

  module _ (binary : Bool) (cfg : Plan) where
    run_dialed-Fared :
        (index : ℕ) (l : Life) (nick : Text) (s : Stats)
        → Fared 1 0 s (run_dialed unmarshal binary cfg index l nick s)
    unfolding run_dialed merge_latency
    run_dialed-Fared index l nick s =
        let up : Stats = record s { dialed = inc s.dialed } in
        let first : Fared 1 0 s up = record {
          dials = omega arith;
          failures = omega arith;
          reasons = omega arith;
          losses = omega arith;
        } in
        let start = new_client binary nick up in
        let heard = read unmarshal l.arrivals l.end start in
        let done = do_settle l.joining l.parting (channel_name cfg index) l.joins in
        let settled = settle l.stopping done heard.stats in
        let said = if speaks cfg index then l.said else 0 in
        let spoken = speak cfg index said l.last settled in
        let after =
          Fared-trans 1 0 0 0 s heard.stats settled
            (Fared-trans 1 0 0 0 s up heard.stats first (read-Fared l.arrivals l.end start))
            (settle-Fared l.stopping done heard.stats) in
        if_rule (λ (t : Stats). Fared 1 0 s (merge_latency heard.lat t)) (done.ok && l.opened)
          (λ _.
            let all =
              Fared-trans 1 0 0 0 s settled spoken after
                (Steady-Fared settled spoken (speak-Steady cfg index said l.last settled)) in
            record {
              dials = all.dials;
              failures = all.failures;
              reasons = all.reasons;
              losses = all.losses;
            })
          (λ _. record {
            dials = after.dials;
            failures = after.failures;
            reasons = after.reasons;
            losses = after.losses;
          })

    -- One dial more, which succeeded or not.
    abbrev One : Stats → Stats → Type 0
    One s t = (n : ℕ) × (m : ℕ) × (n + m ≡ 1) × Fared n m s t

    run_on-One :
        (index : ℕ) (l : Life) (s : Stats) (r : Stats × (Text ⊎ Text))
        → Steady s r.0
        → One s (run_on unmarshal binary cfg index l r)
    run_on-One index l s (t, inl nick) h = (
      1,
      0,
      omega arith,
      Fared-trans 0 0 1 0 s t _ (Steady-Fared s t h) (run_dialed-Fared index l nick t),
    )
    run_on-One index l s (t, inr reason) h = (
      0,
      1,
      omega arith,
      Fared-trans 0 0 0 1 s t _ (Steady-Fared s t h) (dial_err-Fared reason t),
    )

    ready-Steady :
        (s : Stats) (r : Client × Frame)
        → Steady s r.0.stats
        → Steady s (ready unmarshal binary cfg r).0
    ready-Steady s (c, f) h =
        if_rule (λ (d : Stats × (Text ⊎ Text)). Steady s d.0) (f.verb == verb_ready) (λ _. h)
          (λ _. h)

    dial-Steady : (d : Dialled) (s : Stats) → Steady s (dial_as unmarshal binary cfg d s).0
    unfolding dial_as
    dial-Steady (unreached reason) s = (refl, refl, refl, refl, refl)
    dial-Steady (silent reason) s = (refl, refl, refl, refl, refl)
    dial-Steady (greeted a) s =
        let start = new_client binary [] s in
        ready-Steady s (read_frame unmarshal a start) (read_frame-Steady a start)

    run_clients-some :
        (index : ℕ) (ls : List Life) (s : Stats)
        → (n : ℕ) × (m : ℕ) × (n + m ≡ length ls)
          × Fared n m s (run_clients unmarshal binary cfg index ls s)
    unfolding run_clients run_client
    run_clients-some index [] s =
        (0, 0, omega arith, Steady-Fared s s (refl, refl, refl, refl, refl))
    run_clients-some index (l ∷ ls) s =
        let t = run_client unmarshal binary cfg index l s in
        let (n, m, e, f) =
          run_on-One index l s (dial_as unmarshal binary cfg l.dialled s)
            (dial-Steady l.dialled s) in
        let (i, j, e', g) = run_clients-some (index + 1) ls t in
        (n + i, m + j, omega (arith, e, e'), Fared-trans n m i j s t _ f g)

    -- Whatever happens to the clients of a run: those that were connected and those that were not are
    -- all the clients; the reasons for which dials failed were counted as often as dials failed, and
    -- the reasons for which connections were lost as often as connections were lost; all of this up
    -- to multiples of 2 ^ 64.
    pub run_clients-balanced :
        (ls : List Life)
        → let end = run_clients unmarshal binary cfg 0 ls (new_stats cfg.channels) in
          ((end.dialed + end.dial_failed) % 2 ^ 64 ≡ length ls % 2 ^ 64)
          × (total end.dial_errs % 2 ^ 64 ≡ end.dial_failed % 2 ^ 64)
          × (total end.losses % 2 ^ 64 ≡ end.lost % 2 ^ 64)
    unfolding new_stats
    run_clients-balanced ls =
        let (n, m, e, f) = run_clients-some 0 ls (new_stats cfg.channels) in
        (omega (arith, e, f.dials, f.failures), omega (arith, f.reasons), omega (arith, f.losses))
