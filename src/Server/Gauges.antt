-- ===== src/Server/Gauges.antt =====
-- metrics.go: the metrics of the server, and what its gauges read of the server's state.
mod Tests
use ws_chat.Base.{ℕ, ◌+◌, List, [], ◌∷◌, length, Text, bytes}
use ws_chat.Base.Dict.{Dict}
use ws_chat.Moderation.{counts}
use ws_chat.Metrics.{Memory, Entry, new_cell, new_vec, gauge_func}
use ws_chat.Proto.Codec.{msg_pack, json}
use ws_chat.Server.State.{Ring, Channel, App}
use ws_chat.Server.Limiters.{Limiters}

-- The arguments of `Registry.Counter` and of `Registry.CounterVec`.
pub data Metric : Type 0 where
  counter : Text → Text → Metric
  counter_vec : Text → Text → Text → Metric

unfoldable pub new_metric : Memory → Metric → Entry × Memory × ℕ
new_metric m (counter name help) = new_cell (bytes "counter") m name help
new_metric m (counter_vec name help label) = new_vec m name help label

-- The calls of `newMetrics`, in the order in which they register.
abbrev pub app_metrics : List Metric
app_metrics =
    counter (bytes "connections_total") (bytes "Connections accepted since start.")
    ∷ counter_vec (bytes "connections_refused_total")
        (bytes "Connections refused before the upgrade.") (bytes "reason")
    ∷ counter_vec (bytes "codec_negotiated_total")
        (bytes "Connections by the wire format they negotiated.") (bytes "codec")
    ∷ counter_vec (bytes "commands_total")
        (bytes "Commands received, whether or not they were acted on.") (bytes "verb")
    ∷ counter (bytes "messages_total") (bytes "Chat messages accepted and fanned out.")
    ∷ counter (bytes "private_messages_total")
        (bytes "Private messages accepted and queued for their recipient.")
    ∷ counter_vec (bytes "refusals_total")
        (bytes "Commands refused, by the code the client was sent.") (bytes "code")
    ∷ counter (bytes "subscribers_lagged_total")
        (bytes "Subscribers dropped for falling too far behind the fan-out.")
    ∷ counter (bytes "write_timeouts_total")
        (bytes "Connections dropped for not taking one batch within WriteTimeout.")
    ∷ counter (bytes "records_failed_total") (bytes "Persistence jobs that returned an error.")
    ∷ counter (bytes "channels_created_total") (bytes "Channels created on demand since start.")
    ∷ counter (bytes "joins_total") (bytes "Channel joins, including autojoins.")
    ∷ counter (bytes "parts_total") (bytes "Channel parts, including those caused by a disconnect.")
    ∷ counter_vec (bytes "moderation_total") (bytes "Moderation actions taken.") (bytes "action")
    ∷ counter (bytes "sanctions_loaded_total")
        (bytes "Mutes and bans restored from the Sanctions hook at startup.")
    ∷ []

-- `newMetrics`: what is registered, and the memory with the counters.
unfoldable pub new_metrics : List Metric → Memory → List Entry × Memory
new_metrics [] m = ([], m)
new_metrics (x ∷ xs) m =
    let (e, m', p) = new_metric m x in let (es, last) = new_metrics xs m' in (e ∷ es, last)

-- The sum over the channels of the table.
unfoldable pub sum_over : (Channel → ℕ) → Dict Text ℕ → (ℕ → Channel) → ℕ
sum_over f [] at = 0
sum_over f ((name, p) ∷ table) at = f (at p) + sum_over f table at

unfoldable pub memberships : App → ℕ
memberships a = sum_over (λ ch. length ch.members) a.channels a.chan_at

-- `Drops` of both rings of a channel.
unfoldable pub fanout_drops : (Ring → ℕ) → App → ℕ
fanout_drops drops a =
    sum_over (λ ch. drops (ch.rings msg_pack) + drops (ch.rings json)) a.channels a.chan_at

-- `registerStateMetrics`: each gauge reads the server, the table of shared limiters or the rings.
unfoldable pub state_metrics : (Ring → ℕ) → App → Limiters → List Entry
state_metrics drops a l =
    gauge_func (bytes "connections") (bytes "Connections currently held.") (λ _. length a.conns)
    ∷ gauge_func (bytes "channels") (bytes "Channels that currently exist.")
        (λ _. length a.channels)
    ∷ gauge_func (bytes "memberships") (bytes "Channel memberships across every connection.")
        (λ _. memberships a)
    ∷ gauge_func (bytes "moderation_mutes") (bytes "Mutes currently in force.")
        (λ _. (counts a.store).0)
    ∷ gauge_func (bytes "moderation_bans") (bytes "Bans currently in force.")
        (λ _. (counts a.store).1)
    ∷ gauge_func (bytes "rate_limiters") (bytes "Shared rate limit buckets being held.")
        (λ _. length l)
    ∷ gauge_func (bytes "fanout_drops_total")
        (bytes "Subscribers dropped by the fan-out, as it counts them.") (λ _. fanout_drops drops a)
    ∷ gauge_func (bytes "records_dropped_total")
        (bytes "Persistence jobs dropped because the queue was full.") (λ _. a.dropped)
    ∷ []
