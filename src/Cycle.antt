-- ===== src/Cycle.antt =====
-- The value that flows through the program: config.Target and TargetRef (internal/config/config.go),
-- probe.Hop and HTTPSample (internal/probe/probe.go), stats.Summary (internal/stats/stats.go) and
-- scheduler.Cycle (internal/scheduler/scheduler.go). Times, durations and counters are numbers.
use smokeping_go.Common.{ℕ, Bool, List, ◌∷◌, ◌++◌, map, Str}

-- A Go slice: its elements, and the capacity of the array behind them.
pub record Slice {ℓ} (A : Type ℓ) : Type ℓ where
  pub items : List A
  pub cap : ℕ

-- stats.Summary, whose 23 fields are durations; the percentiles stand in their order, p5 to p95
-- without p50.
pub record Summary (D : Type 0) : Type 0 where
  pub low : D
  pub high : D
  pub mean : D
  pub median : D
  pub std_dev : D
  pub percentiles : List D

pub record Target : Type 0 where
  pub name : Str
  pub title : Str
  pub host : Str
  pub url : Str
  pub probe : Str
  pub alerts : List Str
  pub family : Str
  pub slaves : List Str

pub record TargetRef : Type 0 where
  pub group : Str
  pub target : Target

-- TargetRef.ID
unfoldable pub id : TargetRef → Str
id r = r.group ++ b'/' ∷ r.target.name

pub record Hop : Type 0 where
  pub index : ℕ
  pub ip : Str
  pub target_reply : Bool
  pub unreach : Str
  pub rtts : Slice ℕ
  pub sent : ℕ
  pub lost : ℕ

pub record HttpSample : Type 0 where
  pub time : ℕ
  pub rtt : ℕ
  pub status : ℕ
  pub err : Str

pub record Cycle : Type 0 where
  pub time : ℕ
  pub target : TargetRef
  pub probe_name : Str
  pub source : Str
  pub rtts : Slice ℕ
  pub sent : ℕ
  pub loss_count : ℕ
  pub summary : Summary ℕ
  pub hops : Slice Hop
  pub http_samples : Slice HttpSample

abbrev pub no_items {ℓ} : {A : Type ℓ} → Slice A
no_items = record { items = List.[]; cap = 0 }

abbrev pub map_slice {ℓ κ} : {A : Type ℓ} {B : Type κ} → (A → B) → Slice A → Slice B
map_slice f s = record { items = map f s.items; cap = s.cap }
