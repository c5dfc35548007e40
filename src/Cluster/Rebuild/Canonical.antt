-- ===== src/Cluster/Rebuild/Canonical.antt =====
-- internal/cluster/protocol.go: the cycles that FromCycle and ToCycle carry across the wire unchanged.
use smokeping_go.Common.{
  ℕ, ◌+◌, ◌≤◌, ◌≡◌, refl, subst, ap, ap₂, pos, natural, inl, inr, false, none, some, List, [], ◌∷◌,
  map, arith, ltb, Bool-cases, Option-cases, Str, str_beq_iff, length, length-map, All,
}
use smokeping_go.Cycle.{Slice, Hop, HttpSample, TargetRef, Cycle, map_slice}
use smokeping_go.Probe.{canonical_unreach, truncate_http_err}
use smokeping_go.Probe.HttpErr.{truncate-truncate, unreach-unreach}
use smokeping_go.Stats.{Float64, compute}
use smokeping_go.Cluster.{HopDto, HttpSampleDto, CyclePayload, hop_dto, sample_dto, from_cycle}
use smokeping_go.Cluster.Address.{
  Netip, parse_hop_addr, canonical_hop_addr, with_good_zone, interface_zone_shaped,
  max_hop_addr_len,
}
use smokeping_go.Cluster.Rebuild.{to_sample, to_hop, to_cycle}

-- What net/netip documents: ParseAddr reads String back and refuses the empty text, and an address has
-- at most 45 bytes, its zone's sign one and its zone the rest.
pub record StringLaws {A : Type 0} (netip : Netip A) : Type 0 where
  pub string_parses : (a : A) → netip.parse_addr (netip.string a) ≡ some a
  pub empty_refused : netip.parse_addr [] ≡ none
  pub string_short : (a : A) → length (netip.string a) ≤ 46 + length (netip.zone a)

map-natural_pos : (ns : List ℕ) → map natural (map pos ns) ≡ ns
map-natural_pos [] = refl
map-natural_pos (n ∷ ns) = ap (◌∷◌ n) (map-natural_pos ns)

slice_natural_pos : (s : Slice ℕ) → map_slice natural (map_slice pos s) ≡ s
slice_natural_pos s = ap (λ items. record { items = items; cap = s.cap }) (map-natural_pos s.items)

abbrev pub ShortError : HttpSample → Type 0
ShortError s = truncate_http_err s.err ≡ s.err

short_errors : (ss : List HttpSampleDto) → All ShortError (map to_sample ss)
unfolding to_sample
short_errors [] = tt
short_errors (s ∷ ss) = (truncate-truncate s.err, short_errors ss)

samples_back : (ss : List HttpSample) → All ShortError ss → map to_sample (map sample_dto ss) ≡ ss
unfolding to_sample sample_dto
samples_back [] all = refl
samples_back (s ∷ ss) (h, rest) = ap₂ (λ e t. record s { err = e } ∷ t) h (samples_back ss rest)

module _ {A : Type 0} (netip : Netip A) where
  zone_short : (a b : A) → with_good_zone netip a ≡ some b → length (netip.zone a) ≤ 30
  unfolding with_good_zone interface_zone_shaped
  zone_short a b h = ground (arith, h, str_beq_iff (netip.zone a) [])

  kept_zone : (a b : A) → with_good_zone netip a ≡ some b → a ≡ b
  unfolding with_good_zone
  kept_zone a b h = ground (arith, h)

  -- An address that parsed once parses from its String.
  parse_string :
      (ip : Str) (a : A)
      → StringLaws netip
      → parse_hop_addr netip ip ≡ some a
      → parse_hop_addr netip (netip.string a) ≡ some a
  unfolding parse_hop_addr
  parse_string ip a laws found =
      let good : with_good_zone netip a ≡ some a = zone_of found in
      let fits : ltb max_hop_addr_len (length (netip.string a)) ≡ false =
        ground (arith, laws.string_short a, zone_short a a good) in
      rw (fits, laws.string_parses a) good
    where
      zone_of : parse_hop_addr netip ip ≡ some a → with_good_zone netip a ≡ some a
      zone_of h = elim (Bool-cases (ltb max_hop_addr_len (length ip))) [
        | inl long ↦ absurd (ground (arith, h, long))
        | inr short ↦ elim (Option-cases (netip.parse_addr ip)) [
          | inl missing ↦ absurd (ground (arith, h, short, missing))
          | inr (b, there) ↦
              let good : with_good_zone netip b ≡ some a = rw (short, there) at h in
              subst (λ x. with_good_zone netip x ≡ some a) (kept_zone b a good) good
        ]
      ]

  canonical_bad : (ip : Str) → parse_hop_addr netip ip ≡ none → canonical_hop_addr netip ip ≡ []
  unfolding canonical_hop_addr
  canonical_bad ip bad = rw (bad, canonical_hop_addr) refl

  canonical_good :
      (ip : Str) (a : A)
      → parse_hop_addr netip ip ≡ some a
      → canonical_hop_addr netip ip ≡ netip.string a
  unfolding canonical_hop_addr
  canonical_good ip a good = rw (good, canonical_hop_addr) refl

  canonical_empty : StringLaws netip → canonical_hop_addr netip [] ≡ []
  unfolding parse_hop_addr
  canonical_empty laws = canonical_bad [] (rw laws.empty_refused refl)

  canonical-canonical :
      (ip : Str)
      → StringLaws netip
      → canonical_hop_addr netip (canonical_hop_addr netip ip) ≡ canonical_hop_addr netip ip
  canonical-canonical ip laws = elim (Option-cases (parse_hop_addr netip ip)) [
    | inl bad ↦ rw (canonical_bad ip bad, canonical_empty laws) refl
    | inr (a, good) ↦
        rw (canonical_good ip a good, canonical_good _ a (parse_string ip a laws good)) refl
  ]

module _ {A F : Type 0} (netip : Netip A) (float : Float64 F) (half : F) (ratios : List F) where
  abbrev pub CanonicalHop : Hop → Type 0
  CanonicalHop h =
      (canonical_hop_addr netip h.ip ≡ h.ip) × (canonical_unreach h.unreach ≡ h.unreach)

  -- A cycle whose counters and summary follow from its samples, whose texts are canonical and whose
  -- slices are as long as their arrays.
  pub record IsCanonical (c : Cycle) : Type 0 where
    pub counted : c.loss_count + length c.rtts.items ≡ c.sent
    pub summarised : compute float half ratios c.rtts.items ≡ c.summary
    pub hops_exact : length c.hops.items ≡ c.hops.cap
    pub samples_exact : length c.http_samples.items ≡ c.http_samples.cap
    pub hops_canonical : All CanonicalHop c.hops.items
    pub errors_short : All ShortError c.http_samples.items

  hops_back :
      (hs : List Hop)
      → All CanonicalHop hs
      → map (to_hop netip float half ratios) (map hop_dto hs) ≡ hs
  unfolding to_hop hop_dto
  hops_back [] all = refl
  hops_back (h ∷ hs) ((addr, label), rest) =
      rw (addr, label, slice_natural_pos h.rtts, hops_back hs rest) refl

  -- What the slave's FromCycle sends, the master's ToCycle rebuilds: a cycle comes back as it was
  -- if its sent count is that of its losses and samples, its summary is Compute's of the samples,
  -- its slices of hops and HTTP samples have no spare capacity, its hops' addresses and labels are
  -- canonical and its HTTP errors short.
  pub to_cycle-from_cycle :
      (c : Cycle) → IsCanonical c → to_cycle netip float half ratios (from_cycle c) c.target ≡ c
  unfolding to_cycle from_cycle
  to_cycle-from_cycle c k =
      rw
        (
          map-natural_pos c.rtts.items,
          length-map pos c.rtts.items,
          hops_back c.hops.items k.hops_canonical,
          samples_back c.http_samples.items k.errors_short,
          length-map hop_dto c.hops.items,
          length-map sample_dto c.http_samples.items,
          k.counted,
          k.summarised,
          k.hops_exact,
          k.samples_exact,
        )
        refl

  canonical_hops :
      StringLaws netip
      → (hs : List HopDto) → All CanonicalHop (map (to_hop netip float half ratios) hs)
  unfolding to_hop
  canonical_hops laws [] = tt
  canonical_hops laws (h ∷ hs) =
      ((canonical-canonical netip h.ip laws, unreach-unreach h.unreach), canonical_hops laws hs)

  -- ToCycle makes every payload a canonical cycle.
  pub to_cycle-IsCanonical :
      (p : CyclePayload) (ref : TargetRef)
      → StringLaws netip
      → IsCanonical (to_cycle netip float half ratios p ref)
  unfolding to_cycle
  to_cycle-IsCanonical p ref laws = record {
    counted = ap (λ n. natural p.loss_count + n) (length-map natural p.rtts.items);
    summarised = refl;
    hops_exact = length-map (to_hop netip float half ratios) p.hops.items;
    samples_exact = length-map to_sample p.http_samples.items;
    hops_canonical = canonical_hops laws p.hops.items;
    errors_short = short_errors p.http_samples.items;
  }
