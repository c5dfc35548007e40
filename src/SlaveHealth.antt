-- ===== src/SlaveHealth.antt =====
-- internal/slavehealth/slavehealth.go: the health targets that every node of a cluster probes, whose
-- reserved names stand in internal/config/config.go.
pub mod Snapshot
pub mod Views
pub mod Examples
use smokeping_go.Common.{Bool, Str, bytes, str_beq}

abbrev pub health_group : Str
health_group = bytes "_cluster"

abbrev pub probe_name : Str
probe_name = bytes "_slave_health"

unfoldable pub is_health_group : Str → Bool
is_health_group group = str_beq group health_group
