-- ===== src/Limits.antt =====
-- The bounds that several packages share: internal/config/config.go and internal/cluster/protocol.go.
-- Times and durations are numbers of nanoseconds.
use smokeping_go.Common.{ℕ, ◌+◌, ◌-◌, ◌*◌}

-- cluster.MaxCyclesPerBatch
abbrev pub max_cycles_per_batch : ℕ
max_cycles_per_batch = 1024

-- master.maxRegisteredSlaves
abbrev pub max_registered_slaves : ℕ
max_registered_slaves = 512

-- config.MaxSlaveFieldLen
abbrev pub max_slave_field_len : ℕ
max_slave_field_len = 256

-- 2 ^ 64, the modulus of Go's uint64
abbrev pub u64_mod : ℕ
u64_mod = 18446744073709551616

-- One minute.
abbrev pub minute : ℕ
minute = 60 * 1000000000

-- config.MaxFutureSkew
abbrev pub max_future_skew : ℕ
max_future_skew = 5 * minute

-- config.MaxProbeInterval, which is MaxSampleRTT: the largest uint32 of microseconds
abbrev pub max_probe_interval : ℕ
max_probe_interval = 4294967295 * 1000

-- config.MaxCycleAge, seven days
abbrev pub max_cycle_age : ℕ
max_cycle_age = 7 * 24 * 60 * minute

-- config.MaxLabelLen
abbrev pub max_label_len : ℕ
max_label_len = 256

-- config.MaxSlaveNameLen
abbrev pub max_slave_name_len : ℕ
max_slave_name_len = 128

-- config.MaxPingsPerCycle: the sequence numbers that the icmp walk's reserve leaves.
abbrev pub max_pings_per_cycle : ℕ
max_pings_per_cycle = 65536 - 3 * (30 + 1)

-- config.MaxSampleRTT
abbrev pub max_sample_rtt : ℕ
max_sample_rtt = max_probe_interval
