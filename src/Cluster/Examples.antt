-- ===== src/Cluster/Examples.antt =====
-- A payload that validate accepts, the cycle that it makes, and summaries of its samples.
use mathlib.Core.List.Perm
use smokeping_go.Common.{
  ℕ, ◌+◌, ◌-◌, ◌*◌, ◌/◌, ◌≡◌, ◌↔◌, refl, true, Option, none, some, [], ◌∷◌, nat_beq, leb, Str,
  bytes,
}
use smokeping_go.Cycle.{TargetRef, Hop, HttpSample, Cycle}
use smokeping_go.Probe.{truncate_http_err, canonical_unreach, is_label}
use smokeping_go.Stats.{Float64, compute, summarise, percentile, square_sum, sum_bits, sort, insert}
use smokeping_go.Stats.Order.{compute_order}
use smokeping_go.Cluster.{CyclePayload, from_cycle}
use smokeping_go.Cluster.Address.{
  Netip, parse_hop_addr, with_good_zone, canonical_hop_addr, interface_zone_shaped, harmless,
}
use smokeping_go.Cluster.Validate.{CycleBatch, validate}
use smokeping_go.Cluster.Validate.Bounds.{BatchBounds, validate_iff}
use smokeping_go.Cluster.Rebuild.{to_cycle}
use smokeping_go.Cluster.Rebuild.Canonical.{IsCanonical, to_cycle-from_cycle}

-- An address is one byte.
abbrev pub read_byte : Str → Option ℕ
read_byte [] = none
read_byte (c ∷ []) = some c
read_byte (c ∷ d ∷ s) = none

abbrev pub byte_netip : Netip ℕ
byte_netip = record { parse_addr = read_byte; zone = λ a. []; string = λ a. a ∷ [] }

-- float64 by whole numbers.
abbrev pub whole : Float64 ℕ
whole = record {
  of_int = λ n. n;
  of_bits = λ n. n;
  to_int = λ n. n;
  add = λ a b. a + b;
  sub = λ a b. a - b;
  mul = λ a b. a * b;
  div = λ a b. a / b;
  sqrt = λ a. a;
  floor = λ a. a;
  ceil = λ a. a;
  not_positive = λ a. nat_beq a 0;
  at_least_one = λ a. leb 1 a;
}

abbrev pub a_target : TargetRef
a_target = record {
  group = bytes "web";
  target = record {
    name = bytes "one";
    title = [];
    host = bytes "192.0.2.1";
    url = [];
    probe = bytes "icmp";
    alerts = [];
    family = [];
    slaves = [];
  };
}

abbrev a_hop : Hop
a_hop = record {
  index = 1;
  ip = bytes "9";
  target_reply = true;
  unreach = bytes "no-route";
  rtts = record { items = 5 ∷ []; cap = 1 };
  sent = 1;
  lost = 0;
}

abbrev a_sample : HttpSample
a_sample = record { time = 100; rtt = 6; status = 200; err = [] }

abbrev a_cycle : Cycle
a_cycle = record {
  time = 100;
  target = a_target;
  probe_name = bytes "icmp";
  source = bytes "s1";
  rtts = record { items = 7 ∷ 5 ∷ []; cap = 2 };
  sent = 3;
  loss_count = 1;
  summary = record { low = 5; high = 7; mean = 6; median = 7; std_dev = 0; percentiles = 5 ∷ [] };
  hops = record { items = a_hop ∷ []; cap = 1 };
  http_samples = record { items = a_sample ∷ []; cap = 1 };
}

abbrev pub a_payload : CyclePayload
a_payload = from_cycle a_cycle

a_cycle-IsCanonical : IsCanonical byte_netip whole 1 (0 ∷ []) a_cycle
unfolding compute summarise percentile square_sum sum_bits sort insert parse_hop_addr with_good_zone
    canonical_hop_addr interface_zone_shaped harmless truncate_http_err canonical_unreach is_label
a_cycle-IsCanonical = record {
  counted = refl;
  summarised = refl;
  hops_exact = refl;
  samples_exact = refl;
  hops_canonical = ((refl, refl), tt);
  errors_short = (refl, tt);
}

to_cycle-from_cycle_example :
    to_cycle byte_netip whole 1 (0 ∷ []) (from_cycle a_cycle) a_target ≡ a_cycle
to_cycle-from_cycle_example =
    to_cycle-from_cycle byte_netip whole 1 (0 ∷ []) a_cycle a_cycle-IsCanonical

abbrev pub a_batch : CycleBatch
a_batch = record { source = bytes "s1"; cycles = a_payload ∷ [] }

validate_iff_example : (validate byte_netip 200 a_batch ≡ none) ↔ BatchBounds byte_netip 200 a_batch
validate_iff_example = validate_iff byte_netip 200 a_batch

compute_order_example :
    compute whole 1 (0 ∷ []) (7 ∷ 5 ∷ 6 ∷ []) ≡ compute whole 1 (0 ∷ []) (5 ∷ 7 ∷ 6 ∷ [])
compute_order_example =
    compute_order whole 1 (0 ∷ []) (7 ∷ 5 ∷ 6 ∷ []) (5 ∷ 7 ∷ 6 ∷ []) (Perm.swap 5 7 (6 ∷ []))
