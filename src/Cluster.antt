-- ===== src/Cluster.antt =====
-- internal/cluster/protocol.go: the wire form of a cycle and FromCycle, which builds it on the slave.
-- A slice carries the capacity of its array, for which the slave's buffer charges. A payload's numbers
-- are signed, for a peer may send any; those of a cycle that a node built are not negative.
pub mod Address
pub mod Validate
pub mod Rebuild
pub mod Examples
use smokeping_go.Common.{ℕ, ℤ, pos, Bool, map, Str, length}
use smokeping_go.Cycle.{Slice, Summary, Hop, HttpSample, Cycle, map_slice}

pub record HopDto : Type 0 where
  pub index : ℤ
  pub ip : Str
  pub unreach : Str
  pub target_reply : Bool
  pub rtts : Slice ℤ
  pub sent : ℤ
  pub lost : ℤ

pub record HttpSampleDto : Type 0 where
  pub time : ℕ
  pub rtt : ℤ
  pub status : ℤ
  pub err : Str

pub record CyclePayload : Type 0 where
  pub time : ℕ
  pub group : Str
  pub name : Str
  pub probe_name : Str
  pub source : Str
  pub rtts : Slice ℤ
  pub sent : ℤ
  pub loss_count : ℤ
  pub summary : Summary ℤ
  pub hops : Slice HopDto
  pub http_samples : Slice HttpSampleDto

-- The same durations, as signed numbers.
abbrev pub wire_summary : Summary ℕ → Summary ℤ
wire_summary s = record {
  low = pos s.low;
  high = pos s.high;
  mean = pos s.mean;
  median = pos s.median;
  std_dev = pos s.std_dev;
  percentiles = map pos s.percentiles;
}

unfoldable pub hop_dto : Hop → HopDto
hop_dto h = record {
  index = pos h.index;
  ip = h.ip;
  unreach = h.unreach;
  target_reply = h.target_reply;
  rtts = map_slice pos h.rtts;
  sent = pos h.sent;
  lost = pos h.lost;
}

unfoldable pub sample_dto : HttpSample → HttpSampleDto
sample_dto s = record { time = s.time; rtt = pos s.rtt; status = pos s.status; err = s.err }

-- `make` gives the converted slices a capacity of their length.
unfoldable pub from_cycle : Cycle → CyclePayload
unfolding hop_dto sample_dto
from_cycle c = record {
  time = c.time;
  group = c.target.group;
  name = c.target.target.name;
  probe_name = c.probe_name;
  source = c.source;
  rtts = map_slice pos c.rtts;
  sent = pos c.sent;
  loss_count = pos c.loss_count;
  summary = wire_summary c.summary;
  hops = record { items = map hop_dto c.hops.items; cap = length c.hops.items };
  http_samples = record {
    items = map sample_dto c.http_samples.items;
    cap = length c.http_samples.items;
  };
}
