-- ===== src/Cluster/Validate/Bounds.antt =====
-- internal/cluster/protocol.go: what validate accepts, stated without it: a chain of refusals is nil
-- exactly if each condition of the chain holds.
use smokeping_go.Common.{
  ℕ, ◌+◌, ◌-◌, ◌≤◌, ◌≡◌, ◌↔◌, ◌⊎◌, refl, ℤ, pos, negsuc, outside, natural, inl, inr, false, none,
  some, List, [], ◌∷◌, arith, Bool-cases, Option-cases, Str, str_beq, str_beq_iff, length, All,
}
use smokeping_go.Common.Checks.{each, ◌&◌, Checks, ◌and◌, refusing, checking_each, ltb_iff}
use smokeping_go.Cycle.{Summary}
use smokeping_go.Limits.{
  max_cycles_per_batch, max_future_skew, max_cycle_age, max_label_len, max_pings_per_cycle,
  max_sample_rtt,
}
use smokeping_go.Cluster.{HopDto, HttpSampleDto, CyclePayload}
use smokeping_go.Cluster.Address.{Netip, parse_hop_addr}
use smokeping_go.Cluster.Validate.{
  Invalid, CycleBatch, out_of_window, bound_counters, bound_rtts, bound_summary, validate_sample,
  long, validate_addr, validate_hop, validate_payload, validate, max_counter, max_hop_index,
  max_rtts_per_hop, max_http_status, max_http_samples_per_cycle, max_hops_per_cycle,
}

-- A number of the wire from 0 to a limit.
abbrev pub UpTo : ℕ → ℤ → Type 0
UpTo limit z = (n : ℕ) × (z ≡ pos n) × (n ≤ limit)

abbrev pub AtMost {ℓ} : {A : Type ℓ} → ℕ → List A → Type 0
AtMost limit xs = length xs ≤ limit

outside_iff : (limit : ℕ) (z : ℤ) → (outside limit z ≡ false) ↔ UpTo limit z
outside_iff limit (pos n) = (λ e. (n, refl, ground (arith, e)), λ (m, e, le). ground (arith, e, le))
outside_iff limit (negsuc n) =
    (λ e. absurd (ground arith), λ (m, e, le). absurd (ground (arith, e)))

abbrev pub Within : ℕ → ℕ → Type 0
Within now time = (now ≤ time + max_cycle_age) × (time ≤ now + max_future_skew)

window_iff : (now time : ℕ) → (out_of_window now time ≡ false) ↔ Within now time
window_iff now time = (λ e. ground (arith, e), λ (old, new). ground (arith, old, new))

-- Counters that fit UInt16 columns, no more lost than sent.
abbrev pub Counters : ℤ → ℤ → Type 0
Counters sent lost = UpTo max_counter sent & UpTo max_counter lost & (natural lost ≤ natural sent)

bound_counters_iff : (sent lost : ℤ) → Checks (bound_counters sent lost) (Counters sent lost)
unfolding bound_counters
bound_counters_iff sent lost =
    refusing _ _ (outside_iff _ sent)
    and refusing _ _ (outside_iff _ lost)
    and refusing _ _ (ltb_iff _ _)

bound_rtts_iff : (ds : List ℤ) → Checks (bound_rtts ds) (All (UpTo max_sample_rtt) ds)
unfolding bound_rtts
bound_rtts_iff ds = checking_each _ _ ds λ d. refusing _ _ (outside_iff _ d)

abbrev pub Summaries : Summary ℤ → Type 0
Summaries s =
    All (UpTo max_sample_rtt) (s.low ∷ s.high ∷ s.mean ∷ s.median ∷ s.std_dev ∷ [])
    & All (UpTo max_sample_rtt) s.percentiles

bound_summary_iff : (s : Summary ℤ) → Checks (bound_summary s) (Summaries s)
unfolding bound_summary
bound_summary_iff s =
    bound_rtts_iff (s.low ∷ s.high ∷ s.mean ∷ s.median ∷ s.std_dev ∷ [])
    and checking_each _ _ s.percentiles λ d. refusing _ Invalid.summary_outside (outside_iff _ d)

abbrev pub SampleBounds : ℕ → HttpSampleDto → Type 0
SampleBounds now s =
    Within now s.time & UpTo max_http_status s.status & All (UpTo max_sample_rtt) (s.rtt ∷ [])

validate_sample_iff :
    (now : ℕ) (s : HttpSampleDto) → Checks (validate_sample now s) (SampleBounds now s)
unfolding validate_sample
validate_sample_iff now s =
    refusing _ _ (window_iff now s.time)
    and refusing _ _ (outside_iff _ s.status)
    and bound_rtts_iff (s.rtt ∷ [])

module _ {A : Type 0} (netip : Netip A) where
  -- An address is empty or parses.
  abbrev pub Addressed : Str → Type 0
  Addressed ip = (ip ≡ []) ⊎ ((addr : A) × (parse_hop_addr netip ip ≡ some addr))

  validate_addr_iff : (ip : Str) → Checks (validate_addr netip ip) (Addressed ip)
  unfolding validate_addr
  validate_addr_iff ip = elim (Bool-cases (str_beq ip [])) [
    | inl empty ↦ rw empty (λ _. inl ((str_beq_iff ip []).0 empty), λ _. refl)
    | inr filled ↦ elim (Option-cases (parse_hop_addr netip ip)) [
      | inl bad ↦
          rw (filled, bad)
            (
              λ e. absurd (ground (arith, e)),
              λ either. absurd (ground (arith, filled, (str_beq_iff ip []).1, either)),
            )
      | inr (addr, good) ↦ rw (filled, good) (λ _. inr (addr, refl), λ _. refl)
    ]
  ]

  abbrev pub HopBounds : HopDto → Type 0
  HopBounds h =
      UpTo max_hop_index h.index
      & Addressed h.ip
      & Counters h.sent h.lost
      & AtMost max_rtts_per_hop h.rtts.items
      & All (UpTo max_sample_rtt) h.rtts.items

  validate_hop_iff : (h : HopDto) → Checks (validate_hop netip h) (HopBounds h)
  unfolding validate_hop
  validate_hop_iff h =
      refusing _ _ (outside_iff _ h.index)
      and validate_addr_iff h.ip
      and bound_counters_iff h.sent h.lost
      and refusing _ _ (ltb_iff _ _)
      and bound_rtts_iff h.rtts.items

  abbrev pub PayloadBounds : ℕ → CyclePayload → Type 0
  PayloadBounds now p =
      Within now p.time
      & All (AtMost max_label_len) (p.group ∷ p.name ∷ p.probe_name ∷ p.source ∷ [])
      & Counters p.sent p.loss_count
      & AtMost max_pings_per_cycle p.rtts.items
      & All (UpTo max_sample_rtt) p.rtts.items
      & AtMost (natural p.sent - natural p.loss_count) p.rtts.items
      & Summaries p.summary
      & AtMost max_http_samples_per_cycle p.http_samples.items
      & All (SampleBounds now) p.http_samples.items
      & AtMost max_hops_per_cycle p.hops.items
      & All HopBounds p.hops.items

  labels_iff : (ls : List Str) → Checks (each long ls) (All (AtMost max_label_len) ls)
  labels_iff ls = checking_each _ _ ls λ l. refusing _ _ (ltb_iff _ _)

  validate_payload_iff :
      (now : ℕ) (p : CyclePayload) → Checks (validate_payload netip now p) (PayloadBounds now p)
  unfolding validate_payload
  validate_payload_iff now p =
      refusing _ _ (window_iff now p.time)
      and labels_iff (p.group ∷ p.name ∷ p.probe_name ∷ p.source ∷ [])
      and bound_counters_iff p.sent p.loss_count
      and refusing _ _ (ltb_iff _ _)
      and bound_rtts_iff p.rtts.items
      and refusing _ _ (ltb_iff _ _)
      and bound_summary_iff p.summary
      and refusing _ _ (ltb_iff _ _)
      and checking_each _ _ p.http_samples.items (validate_sample_iff now)
      and refusing _ _ (ltb_iff _ _)
      and checking_each _ _ p.hops.items validate_hop_iff

  abbrev pub BatchBounds : ℕ → CycleBatch → Type 0
  BatchBounds now b = AtMost max_cycles_per_batch b.cycles & All (PayloadBounds now) b.cycles

  -- validate accepts a batch exactly if every bound of it holds.
  pub validate_iff : (now : ℕ) (b : CycleBatch) → (validate netip now b ≡ none) ↔ BatchBounds now b
  unfolding validate
  validate_iff now b =
      refusing _ _ (ltb_iff _ _) and checking_each _ _ b.cycles (validate_payload_iff now)
