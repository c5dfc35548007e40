-- ===== src/Cluster/Rebuild.antt =====
-- internal/cluster/protocol.go: ToCycle, which rebuilds the cycle that a payload reports. A number that
-- is negative counts as 0 here, where the code keeps its sign; Validate has refused the batch by then.
pub mod Canonical
use smokeping_go.Common.{ℕ, ◌+◌, natural, List, map, length}
use smokeping_go.Cycle.{Summary, Hop, HttpSample, TargetRef, Cycle, map_slice}
use smokeping_go.Probe.{canonical_unreach, truncate_http_err}
use smokeping_go.Stats.{Float64, compute}
use smokeping_go.Cluster.{HopDto, HttpSampleDto, CyclePayload}
use smokeping_go.Cluster.Address.{Netip, canonical_hop_addr}

unfoldable pub to_sample : HttpSampleDto → HttpSample
to_sample s = record {
  time = s.time;
  rtt = natural s.rtt;
  status = natural s.status;
  err = truncate_http_err s.err;
}

module _ {A F : Type 0} (netip : Netip A) (float : Float64 F) (half : F) (ratios : List F) where
  unfoldable pub to_hop : HopDto → Hop
  to_hop h = record {
    index = natural h.index;
    ip = canonical_hop_addr netip h.ip;
    target_reply = h.target_reply;
    unreach = canonical_unreach h.unreach;
    rtts = map_slice natural h.rtts;
    sent = natural h.sent;
    lost = natural h.lost;
  }

  unfoldable pub to_cycle : CyclePayload → TargetRef → Cycle
  unfolding to_hop to_sample
  to_cycle p ref = record {
    time = p.time;
    target = ref;
    probe_name = p.probe_name;
    source = p.source;
    rtts = map_slice natural p.rtts;
    sent = natural p.loss_count + length p.rtts.items;
    loss_count = natural p.loss_count;
    summary = compute float half ratios (map natural p.rtts.items);
    hops = record { items = map to_hop p.hops.items; cap = length p.hops.items };
    http_samples = record {
      items = map to_sample p.http_samples.items;
      cap = length p.http_samples.items;
    };
  }
