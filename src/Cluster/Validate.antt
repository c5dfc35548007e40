-- ===== src/Cluster/Validate.antt =====
-- internal/cluster/protocol.go: Validate and what it bounds. An error is the reason that its text
-- gives, and `none` is nil. Times and durations are nanoseconds.
pub mod Bounds
use smokeping_go.Common.{
  ℕ, suc, ◌+◌, ◌-◌, ◌*◌, ℤ, pos, negsuc, outside, natural, Bool, true, false, not, ◌&&◌, ◌||◌,
  Option, none, some, List, [], ◌∷◌, ltb, if◌then◌else◌, Str, str_beq, length,
}
use smokeping_go.Common.Checks.{◌<|>◌, refuse, each}
use smokeping_go.Cycle.{Summary}
use smokeping_go.Limits.{
  max_cycles_per_batch, max_future_skew, max_cycle_age, max_label_len, max_pings_per_cycle,
  max_sample_rtt,
}
use smokeping_go.Cluster.{HopDto, HttpSampleDto, CyclePayload}
use smokeping_go.Cluster.Address.{Netip, parse_hop_addr}

abbrev pub max_hops_per_cycle : ℕ
max_hops_per_cycle = 2 * (10 * 30)

abbrev pub max_rtts_per_hop : ℕ
max_rtts_per_hop = 128

abbrev pub max_http_samples_per_cycle : ℕ
max_http_samples_per_cycle = 64

abbrev pub max_http_status : ℕ
max_http_status = 999

-- The ceilings of UInt8 and UInt16 columns.
abbrev pub max_hop_index : ℕ
max_hop_index = 255

abbrev pub max_counter : ℕ
max_counter = 65535

pub record CycleBatch : Type 0 where
  pub source : Str
  pub cycles : List CyclePayload

pub data Invalid : Type 0 where
  too_many_cycles : Invalid
  stale_timestamp : Invalid
  long_label : Invalid
  sent_outside : Invalid
  lost_outside : Invalid
  lost_exceeds_sent : Invalid
  too_many_rtts : Invalid
  rtt_outside : Invalid
  rtts_exceed_successful : Invalid
  summary_outside : Invalid
  too_many_samples : Invalid
  status_outside : Invalid
  too_many_hops : Invalid
  index_outside : Invalid
  bad_address : Invalid

-- `t.Before(oldest) || t.After(newest)`, oldest and newest by the master's clock.
abbrev pub out_of_window : ℕ → ℕ → Bool
out_of_window now time = ltb (time + max_cycle_age) now || ltb (now + max_future_skew) time

abbrev pub exceeds : ℤ → ℤ → Bool
exceeds lost sent = ltb (natural sent) (natural lost)

unfoldable pub bound_counters : ℤ → ℤ → Option Invalid
bound_counters sent lost =
    refuse (outside max_counter sent) Invalid.sent_outside
    <|> refuse (outside max_counter lost) Invalid.lost_outside
    <|> refuse (exceeds lost sent) Invalid.lost_exceeds_sent

unfoldable pub bound_rtts : List ℤ → Option Invalid
unfolding each
bound_rtts = each λ d. refuse (outside max_sample_rtt d) Invalid.rtt_outside

unfoldable pub bound_summary : Summary ℤ → Option Invalid
unfolding bound_rtts each
bound_summary s =
    bound_rtts (s.low ∷ s.high ∷ s.mean ∷ s.median ∷ s.std_dev ∷ [])
    <|> each (λ d. refuse (outside max_sample_rtt d) Invalid.summary_outside) s.percentiles

unfoldable pub validate_sample : ℕ → HttpSampleDto → Option Invalid
unfolding bound_rtts
validate_sample now s =
    refuse (out_of_window now s.time) Invalid.stale_timestamp
    <|> refuse (outside max_http_status s.status) Invalid.status_outside
    <|> bound_rtts (s.rtt ∷ [])

abbrev pub long : Str → Option Invalid
long label = refuse (ltb max_label_len (length label)) Invalid.long_label

module _ {A : Type 0} (netip : Netip A) where
  unfoldable pub validate_addr : Str → Option Invalid
  unfolding parse_hop_addr
  validate_addr ip =
      if str_beq ip []
      then none
      else elim (parse_hop_addr netip ip) [ none ↦ some Invalid.bad_address | some addr ↦ none ]

  unfoldable pub validate_hop : HopDto → Option Invalid
  unfolding validate_addr bound_counters bound_rtts
  validate_hop h =
      refuse (outside max_hop_index h.index) Invalid.index_outside
      <|> validate_addr h.ip
      <|> bound_counters h.sent h.lost
      <|> refuse (ltb max_rtts_per_hop (length h.rtts.items)) Invalid.too_many_rtts
      <|> bound_rtts h.rtts.items

  unfoldable pub validate_payload : ℕ → CyclePayload → Option Invalid
  unfolding each bound_counters bound_rtts bound_summary validate_sample validate_hop
  validate_payload now p =
      refuse (out_of_window now p.time) Invalid.stale_timestamp
      <|> each long (p.group ∷ p.name ∷ p.probe_name ∷ p.source ∷ [])
      <|> bound_counters p.sent p.loss_count
      <|> refuse (ltb max_pings_per_cycle (length p.rtts.items)) Invalid.too_many_rtts
      <|> bound_rtts p.rtts.items
      <|> refuse (ltb (natural p.sent - natural p.loss_count) (length p.rtts.items))
          Invalid.rtts_exceed_successful
      <|> bound_summary p.summary
      <|> refuse (ltb max_http_samples_per_cycle (length p.http_samples.items))
          Invalid.too_many_samples
      <|> each (validate_sample now) p.http_samples.items
      <|> refuse (ltb max_hops_per_cycle (length p.hops.items)) Invalid.too_many_hops
      <|> each validate_hop p.hops.items

  unfoldable pub validate : ℕ → CycleBatch → Option Invalid
  unfolding each validate_payload
  validate now b =
      refuse (ltb max_cycles_per_batch (length b.cycles)) Invalid.too_many_cycles
      <|> each (validate_payload now) b.cycles
