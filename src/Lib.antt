-- ===== src/Lib.antt =====
-- ws-chat, a WebSocket chat server: the parts of it that decide who sees which message.
--
-- A message that a client sends is checked (is the sender in the channel, muted, too fast, refused by
-- a filter?), numbered, kept in the history of its channel and broadcast: each channel has a ring of
-- encoded messages for each codec, and each member reads one of them with a subscription of its own.
-- A member that falls a whole ring behind is dropped.
--
-- Base holds what the files share: tests on numbers, lists over the native numbers (Lists, Ranges),
-- byte strings, association lists (Dict, the source's maps), sorting (Sorting, the sort package),
-- numbers as text (Decimal, the strconv package), float64 rounding (Float), and arithmetic. Utf8 is the language's decoding of
-- strings. The parts:
--   * Broadcast/Errors, Broadcast/Capacity: internal/broadcast/broadcast.go (the errors) and the
--     rounding of internal/broadcast/ring.go. The loop of roundPow2 has 63 rounds of fuel: its
--     counter doubles in each, and no larger power of two is an int.
--   * Broadcast/SeqRing: internal/broadcast/seqring.go, the ring that the server uses. The state is
--     the atomics of SeqRing and one seqSub, with program counters for the writer and the reader;
--     `step` is one atomic operation, a run any list of steps. Sequence numbers wrap at 2 ^ 64; the
--     theorems on what is delivered are about runs with fewer broadcasts than that. Go's atomics are
--     sequentially consistent, so interleavings are all there is. Invariant, Delivery and Wakeup hold
--     the invariants, Guarantees what follows.
--   * Broadcast/MutexRing: Ring of internal/broadcast/ring.go, with any number of subscriptions, each
--     with a program counter; a section under the lock is one step. Sequence numbers wrap as above.
--     Copying is the copy out of the ring, Invariant has the invariant and that readers and writers
--     keep it, Moves has runs. Slots of Broadcast, on where a sequence number lives, serves both rings.
--   * Broadcast/MapChan: MapChan of internal/broadcast/broadcast.go, Go channels in a map. Each
--     broadcast is a thread that sends to one subscription after the other under the read lock.
--   * Moderation: internal/moderation/moderation.go. Answers says who is muted and banned, Sweeping
--     that housekeeping changes no answer.
--   * History: internal/history/history.go. Windows relates it to the log of what was appended.
--   * RateLimit: internal/ratelimit/ratelimit.go, with float64 arithmetic as Base/Float has it.
--   * Loadgen: internal/loadgen. Hist is hist.go, with counters that wrap at 2 ^ 64; Plan and Payload
--     are the parts of loadgen.go that say who speaks where, and how a payload carries its time, Stats
--     is stats.go with the reader of loadgen.go, what a client counts; Clients is the life of a
--     client, and Report a whole run and what it prints of its counts.
--   * Metrics: internal/metrics/metrics.go, the counters and the text of a scrape; Server/Gauges is
--     metrics.go of the server, what it registers and what its gauges read.
--   * Cork: cork.go, the writes of a connection that are held back and sent in one.
--   * Proto: internal/proto. Command has the verbs and codes, Frame what the server sends, Codec the
--     choice of a codec. Encoders and decoders are the JSON and MessagePack libraries'.
--   * Hook: internal/hook/hook.go, identities and the values that hooks exchange.
--   * Filter: internal/filter/filter.go. The Unicode table of marks is a parameter.
--   * Config: internal/config/config.go. The HuJSON and JSON libraries are parameters.
--   * Server: channel.go, membership.go, conn.go, moderation.go, and of hooks.go and init.go what
--     these call. State holds the structs; a ring in it is what SeqRing promises, the frames in order
--     and whether it is closed. Env holds what the server calls and does not implement: encoders,
--     tables of the unicode package, and hooks. Names, Channels, Messages, Membership, Handlers,
--     Moderate and Dispatch have the functions of the source, and Run puts them in a sequence, each
--     handler as a whole; Race takes a join and a ban apart, since they are written to meet in any
--     order. FanOut takes a broadcast into the rings of a channel and the closing of those rings
--     apart, which Run has as one step each. Limiters has the table of shared buckets, Records the
--     queue for the Recorder and its worker, Sanctions what is loaded at startup and who somebody
--     is, Handshake what comes before a connection is served. Keeping lists the writes of the
--     handlers as an interface, with the proof that what each of them keeps is kept by a run;
--     Limits and Pumps/Standing implement it. Pumps has the goroutines that write to sockets,
--     beside the server in any order; Lifecycle the start and the end of a server (shutdown.go,
--     main.go, debug.go). Heard, Silence, Sweep, Limiters/Holders, Records/Order,
--     Sanctions/Loading, Handshake/Bans, Lifecycle/Returning, Pumps/Reached, Pumps/Swept and
--     Race/Outcome hold the other theorems.
--
-- Not modelled: locks around operations that are atomic by them, sockets and timers, the encoders
-- (github.com libraries), logs, where the server counts each event, the rates and durations that the
-- load generator prints, the HTTP endpoints, flags and signals. vendor holds other projects' code.
pub mod Base
pub mod Broadcast
pub mod Config
pub mod Cork
pub mod Filter
pub mod History
pub mod Hook
pub mod Loadgen
pub mod Metrics
pub mod Moderation
pub mod Proto
pub mod RateLimit
pub mod Server
pub mod Utf8
