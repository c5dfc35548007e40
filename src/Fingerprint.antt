-- ===== src/Fingerprint.antt =====
-- The fingerprints whose concatenation decides whether the scheduler is rebuilt: EscapeSeparators of
-- internal/config/config.go, Fingerprint of internal/scheduler/fingerprint.go and Set.Fingerprint of
-- internal/slavehealth/slavehealth.go. The texts of a duration and of a number are arguments.
pub mod Segments
pub mod Groups
pub mod Lifecycle
pub mod Schedule
pub mod Mesh
pub mod Examples
use smokeping_go.Common.{
  ℕ, ℤ, Bool, true, false, ◌||◌, Option, none, some, List, [], ◌∷◌, ◌++◌, nat_beq, if◌then◌else◌,
  Str, bytes,
}
use smokeping_go.Common.Sort.{sort_by}
use smokeping_go.Cycle.{Target}
use smokeping_go.SlaveHealth.Snapshot.{Group, Peer, Snapshot}
use smokeping_go.Config.{Config, Probe, Cluster}

abbrev pub sep_field : ℕ
sep_field = 31

abbrev pub sep_list : ℕ
sep_list = 28

abbrev pub sep_entry : ℕ
sep_entry = 30

abbrev pub sep_block : ℕ
sep_block = 29

abbrev pub is_special : ℕ → Bool
is_special c =
    nat_beq c b'\\'
    || nat_beq c sep_field
    || nat_beq c sep_list
    || nat_beq c sep_entry
    || nat_beq c sep_block

-- strings.ContainsAny of the five bytes that are escaped.
unfoldable pub contains_special : Str → Bool
contains_special [] = false
contains_special (c ∷ cs) = if is_special c then true else contains_special cs

-- sepEscaper, byte by byte.
abbrev pub escape_byte : ℕ → Str
escape_byte c =
    if nat_beq c b'\\'
    then b'\\' ∷ b'\\' ∷ []
    else if nat_beq c sep_field
    then b'\\' ∷ b'u' ∷ []
    else if nat_beq c sep_list
    then b'\\' ∷ b'f' ∷ []
    else if nat_beq c sep_entry
    then b'\\' ∷ b'r' ∷ []
    else if nat_beq c sep_block
    then b'\\' ∷ b'g' ∷ []
    else c ∷ []

unfoldable pub replace : Str → Str
replace [] = []
replace (c ∷ cs) = escape_byte c ++ replace cs

unfoldable pub escape_separators : Str → Str
unfolding contains_special replace
escape_separators s = if contains_special s then replace s else s

-- A text and the separator behind it, before what follows.
abbrev pub ended : Str → ℕ → Str → Str
ended s k rest = s ++ k ∷ rest

-- What `field` writes.
unfoldable pub field : Str → Str → Str
unfolding escape_separators
field s rest = ended (escape_separators s) sep_field rest

unfoldable pub fields : List Str → Str → Str
unfolding field
fields [] rest = rest
fields (s ∷ ss) rest = field s (fields ss rest)

unfoldable pub format_bool : Bool → Str
format_bool true = bytes "true"
format_bool false = bytes "false"

abbrev pub target_fields : Target → List Str
target_fields t = t.name ∷ t.probe ∷ t.host ∷ t.url ∷ t.family ∷ []

unfoldable pub targets_text : List Target → Str → Str
unfolding fields
targets_text [] rest = rest
targets_text (t ∷ ts) rest =
    fields (target_fields t)
      (fields t.slaves (sep_list ∷ fields t.alerts (sep_entry ∷ targets_text ts rest)))

unfoldable pub groups_text : List Group → Str
unfolding field targets_text
groups_text [] = []
groups_text (g ∷ gs) = field g.group (targets_text g.targets (sep_block ∷ groups_text gs))

unfoldable pub source_text : Option Cluster → Str → Str
unfolding field
source_text none rest = rest
source_text (some cl) rest = field cl.source rest

module _ (duration_string : ℤ → Str) (itoa : ℤ → Str) where
  unfoldable pub probe_fields : Str × Probe → List Str
  unfolding format_bool
  probe_fields (name, p) =
      name
      ∷ p.type
      ∷ duration_string p.timeout
      ∷ format_bool p.insecure
      ∷ format_bool p.no_trace
      ∷ []

  unfoldable pub probes_text : List (Str × Probe) → Str → Str
  unfolding fields probe_fields
  probes_text [] rest = rest
  probes_text (p ∷ ps) rest = fields (probe_fields p) (sep_entry ∷ probes_text ps rest)

  -- scheduler.Fingerprint
  unfoldable pub fingerprint : Config → Str
  unfolding source_text probes_text groups_text
  fingerprint cfg = ended (duration_string cfg.interval) sep_field (
      ended (itoa cfg.pings) sep_block (
        source_text cfg.cluster (
          sep_block
          ∷ probes_text (sort_by (λ p. p.0) cfg.probes) (sep_block ∷ groups_text cfg.targets))))

unfoldable pub alerts_text : List Str → Str
unfolding escape_separators
alerts_text [] = []
alerts_text (a ∷ alerts) = ended (escape_separators a) sep_entry (alerts_text alerts)

module _ {A : Type 0} (addr_string : Option A → Str) where
  unfoldable pub peers_text : List (Peer A) → Str → Str
  unfolding field
  peers_text [] rest = rest
  peers_text (p ∷ ps) rest =
      field p.name (ended (addr_string p.addr) sep_entry (peers_text ps rest))

  -- Set.Fingerprint
  unfoldable pub mesh_fingerprint : Option (Snapshot A) → Str
  unfolding peers_text alerts_text
  mesh_fingerprint none = []
  mesh_fingerprint (some s) = peers_text s.peers (sep_block ∷ alerts_text s.alerts)
