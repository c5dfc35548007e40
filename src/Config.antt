-- ===== src/Config.antt =====
-- internal/config/config.go: the configuration that a master serves, and the names that it admits.
-- Durations and counts are signed. A `range` over a map walks the list of its entries.
pub mod Schedule
pub mod Addresses
pub mod Storage
pub mod Validate
pub mod Valid
pub mod Mesh
pub mod Distinct
pub mod Store
pub mod Reloads
pub mod Minimal
pub mod Examples
use smokeping_go.Common.{
  ℕ, ℤ, pos, Bool, true, false, not, ◌&&◌, ◌||◌, Option, none, some, List, [], ◌∷◌, ◌++◌, ltb,
  nat_beq, if◌then◌else◌, Str, bytes, str_beq, length,
}
use smokeping_go.Cycle.{Target, TargetRef}
use smokeping_go.Limits.{max_label_len, max_slave_name_len}
use smokeping_go.SlaveHealth.Snapshot.{Group}
use smokeping_go.Alert.Queue.{Quorum, Action}

pub record Retention : Type 0 where
  pub cycle_days : ℤ
  pub rtt_days : ℤ
  pub hop_days : ℤ
  pub http_days : ℤ

pub record Batch : Type 0 where
  pub max_rows : ℤ
  pub max_interval : Str

pub record ClickHouse : Type 0 where
  pub addr : Str
  pub database : Str
  pub username : Str
  pub cluster : Str
  pub retention : Retention
  pub batch : Batch

pub record Probe : Type 0 where
  pub type : Str
  pub timeout : ℤ
  pub insecure : Bool
  pub no_trace : Bool

pub record Alert : Type 0 where
  pub condition : Str
  pub sustained : ℤ
  pub actions : List Str
  pub quorum : Quorum

pub record Cluster : Type 0 where
  pub master_url : Str
  pub token : Str
  pub name : Str
  pub advertise : Str
  pub slave_addrs : List (Str × Str)
  pub health_alerts : List Str
  pub health_hops : Option Bool
  pub source : Str
  pub buffer_bytes : ℤ
  pub insecure_master_url : Bool

pub record Config : Type 0 where
  pub listen : Str
  pub interval : ℤ
  pub pings : ℤ
  pub storage : ClickHouse
  pub probes : List (Str × Probe)
  pub targets : List Group
  pub alerts : List (Str × Alert)
  pub actions : List (Str × Action)
  pub cluster : Option Cluster

-- `c < 0x20 || c == 0x7f` of some rune: a control character is one byte, and no byte of a longer rune.
unfoldable pub has_control : Str → Bool
has_control [] = false
has_control (c ∷ cs) = if ltb c 32 || nat_beq c 127 then true else has_control cs

unfoldable pub valid_source_label : Str → Bool
unfolding has_control
valid_source_label source =
    if ltb max_label_len (length source) then false else not (has_control source)

unfoldable pub valid_slave_name : Str → Bool
unfolding has_control
valid_slave_name name =
    if str_beq name [] || ltb max_slave_name_len (length name)
    then false
    else if str_beq name (bytes "master")
    then false
    else not (has_control name)

abbrev pub refs_of : Str → List Target → List TargetRef
refs_of group [] = []
refs_of group (t ∷ ts) = record { group = group; target = t } ∷ refs_of group ts

unfoldable pub refs : List Group → List TargetRef
refs [] = []
refs (g ∷ gs) = refs_of g.group g.targets ++ refs gs

unfoldable pub all_targets : Config → List TargetRef
unfolding refs
all_targets c = refs c.targets

unfoldable pub hops_enabled : Option Cluster → Bool
hops_enabled none = true
hops_enabled (some cl) = elim cl.health_hops [ none ↦ true | some on ↦ on ]
