-- ===== src/Lib.antt =====
-- gosmokeping: latency probes on many nodes, with the alerts of the master and the buffers of the
-- slaves.
--
-- A node measures each target once an interval and makes a cycle of the measurements (Cycle, Probe,
-- Stats). A slave buffers its cycles and pushes them to the master in batches, in their wire form
-- (Cluster, PushSink). The master's server (Server) validates a batch, admits it from a registered
-- slave (Registry), drops the cycles that it has ingested before (Dedup), and gives the others to its
-- sinks, of which the alert evaluator is one (Alert). It serves each slave the targets that are its
-- own. The slaves that the registry holds are targets themselves (SlaveHealth). The configuration is
-- validated and reloaded as one (Config), and the scheduler is rebuilt when its fingerprint changes
-- (Fingerprint). Queries of the stored results go through a cache (Cache).
--
-- The files and their code:
--   Common        shared: the native numbers' tests, lists, byte strings, Go maps as association lists
--                 (Common/Map), sorting by name (Common/Sort).
--   Limits        the constants that several packages share: internal/config/config.go,
--                 internal/cluster/protocol.go, internal/cluster/master/registry.go.
--   Cycle         scheduler.Cycle, config.Target and TargetRef, probe.Hop and HTTPSample,
--                 stats.Summary.
--   Cluster       internal/cluster/protocol.go: CyclePayload and FromCycle; Cluster/Address
--                 parseHopAddr and canonicalHopAddr, Cluster/Validate CycleBatch.Validate with the
--                 helpers that it calls, Cluster/Rebuild ToCycle. Their children prove what a valid
--                 batch keeps (Cluster/Validate/Bounds) and what comes back
--                 (Cluster/Rebuild/Canonical).
--   Probe         internal/probe/trace.go CanonicalUnreach, internal/probe/http.go TruncateHTTPErr.
--   Stats         internal/stats/stats.go: Compute, and percentile in internal/stats/percentiles.go.
--   Dedup         internal/cluster/master/dedup.go: sourceWindow.admit is admit_window, made of trim,
--                 intern, offer, put and evict; cycleDedup's admit, forget, forgetSource and evictLRU
--                 have their own names. Its children prove the invariant of a window
--                 (Dedup/Invariant), how long it remembers (Dedup/Retention, Dedup/History), and the
--                 choice among sources (Dedup/Sources, Dedup/Names).
--   PushSink      internal/cluster/slave/pushsink.go, function by function: OnCycle is on_cycle, the
--                 part under its lock store; Drain is drain, Requeue requeue, makeRoom make_room,
--                 stripOldestHops strip_oldest_hops, reportLocked report. The children follow the
--                 calls: PushSink/Ring and Entries read the ring as a list, Strip, Cuts, Evict and
--                 Room are the reclaim loop, Grow the resizing, Store, Drain and Requeue the
--                 operations, History any sequence of them.
--   Alert         internal/alert/evaluator.go. Alert/Window has the time windows, Alert/State the
--                 replay guard (admits, accept) and the state machine (advance), Alert/Sources tally,
--                 pruneQuietSources and firingSources, Alert/Queue the events, shardFor,
--                 enqueueDispatch and the delivery workers, Alert/Key the maps' key, Alert/Evaluate
--                 OnCycle, evaluate, Refresh and PruneDeparted. The other children prove: Replay,
--                 Sustained, Retention, Majority, Warm and Reporters, Delivery, Commit, Chain and
--                 Notices, Egress and Privacy, Reload.
--   Registry      internal/cluster/master/registry.go: Touch is touch, made of admit and check_in;
--                 resolveAdvertise is resolve_advertise, made of weigh, contest and release_excluded.
--   SlaveHealth   internal/slavehealth/slavehealth.go: NewSet, Probe and Public
--                 (SlaveHealth/Snapshot).
--   Server        internal/cluster/master/server.go and inbound.go: handleRegister is handle_register,
--                 handleCycles handle_cycles, made of handle_batch, take_batch and ingest_batch; the
--                 sweep loop's body is sweep_slaves. Server/Serving is
--                 internal/cluster/master/config.go and handleConfig. Server/Runs makes runs of the
--                 four; Ingest, Coupling, Leaving, Attribution, Refusals and Schedules prove.
--   SlaveClient   internal/cluster/slave/client.go and runner.go: the errors of Client.do are
--                 classify, flushOnce is flush_once, registerForever retry_until. SlaveClient/Flushes
--                 proves what a flush keeps, SlaveClient/Master lets the modelled server answer.
--   Config        internal/config/config.go and reload.go: the types; Config/Schedule the intervals
--                 and ICMPPingBudget, Config/Addresses ParseReachableAddr and ParsedSlaveAddrs,
--                 Config/Validate Validate, one function for each block of checks, with the storage's
--                 in Config/Storage, Config/Minimal ValidateMinimal, Config/Store the Store.
--                 Config/Reloads has the wake-up of RunLifecycle as the store's subscriber.
--                 Config/Mesh says what the targets of Probe are; Config/Valid and
--                 Config/Distinct prove.
--   Fingerprint   EscapeSeparators of internal/config/config.go, Fingerprint of
--                 internal/scheduler/fingerprint.go, Set.Fingerprint of
--                 internal/slavehealth/slavehealth.go; Fingerprint/Lifecycle is RunLifecycle of
--                 internal/scheduler/lifecycle.go. Segments, Groups, Schedule and Mesh prove.
--   Cache         internal/storage/cache.go: lookup, the part of fetchCycles under its lock (enter),
--                 storeLocked, and the end of runCyclesLeader (complete); the hops' half of the file
--                 is the same model at another key and result. Cache/Keys has the keys of the queries.
--                 Bounds, Contents and Calls prove.
--
-- How it is modelled. A method that holds its mutex is one step, from a state record to a state record
-- and its results; a pointer into a map is written back under its key. Numbers are natural numbers:
-- times are nanoseconds since Go's zero time, but for those of the cache's keys, which are integers
-- and count from 1970; the uint64 counters of the dedup and of the evaluator wrap at 2 ^ 64. What
-- an operator or a peer sends is signed: the numbers of the wire form and of the configuration are
-- integers. Floats, net/netip, url.Parse, time.ParseDuration and the printers of numbers and
-- addresses are arguments, with what the theorems need of them as records of laws. The loops over
-- slices and maps are recursion on lists. makeRoom's loop has fuel for two passes for each live
-- entry, entriesFor's doublings have fuel for as many as there are entries; Room and Grow prove
-- that these are enough. The config, the clock's reading and the pins are arguments of the
-- operations that read them.
--
-- The eviction loop of the cache has fuel for each entry, and Cache/Bounds proves that this is enough.
--
-- Not modelled: log lines and their rate limit; sockets, HTTP, ClickHouse and the file system, and so
-- most of the probes, the storage behind the cache, the API, the dispatcher's actions and the
-- commands; JSON and environment variables, so that a decoded request or file is an argument; the
-- bearer token; the condition language, whose parsed conditions are tests on cycles here; the
-- converter from SmokePing; the scheduler's timers; the deadline of a delivery; a caller of the cache
-- that gives up.
mod Common
pub mod Limits
pub mod Dedup
pub mod Cycle
pub mod SlaveHealth
pub mod Probe
pub mod Stats
pub mod Config
pub mod Fingerprint
pub mod Cache
pub mod Cluster
pub mod PushSink
pub mod Alert
pub mod Registry
pub mod Server
pub mod SlaveClient
