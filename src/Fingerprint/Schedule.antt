-- ===== src/Fingerprint/Schedule.antt =====
-- internal/scheduler/fingerprint.go: two configurations with the same fingerprint schedule the same.
use smokeping_go.Common.{
  ℤ, ◌≡◌, ◌↔◌, refl, sym, ap, ap₂, ◌∙◌, Bool, true, false, Option, none, some, List, [], ◌∷◌, ◌++◌,
  append_assoc, map, arith, Str,
}
use smokeping_go.Common.Sort.{sort_by}
use smokeping_go.Config.{Config, Probe, Cluster}
use smokeping_go.Fingerprint.{
  sep_field, sep_entry, sep_block, ended, field, fields, format_bool, groups_text, source_text,
  probe_fields, probes_text, fingerprint,
}
use smokeping_go.Fingerprint.Segments.{
  Clean, ended_injective, field_injective, field_apart, fields_as_many,
}
use smokeping_go.Fingerprint.Groups.{
  untitled_group, head_same, not_field, groups_before, groups_injective, field-append,
  fields-append, groups_text_untitled,
}

abbrev pub source_of : Option Cluster → Option Str
source_of none = none
source_of (some cl) = some cl.source

source_injective :
    (c d : Option Cluster) (r r' : Str)
    → source_text c (sep_block ∷ r) ≡ source_text d (sep_block ∷ r')
    → (source_of c ≡ source_of d) × (r ≡ r')
unfolding source_text
source_injective none none r r' h = (refl, cc)
source_injective none (some d) r r' h =
    absurd (field_apart d.source sep_block _ r refl not_field (sym h))
source_injective (some c) none r r' h =
    absurd (field_apart c.source sep_block _ r' refl not_field h)
source_injective (some c) (some d) r r' h =
    let (same, rest) = field_injective c.source d.source _ _ h in (ap some same, cc)

source_text_of :
    (c d : Option Cluster) (r : Str) → source_of c ≡ source_of d → source_text c r ≡ source_text d r
unfolding source_text
source_text_of none none r h = refl
source_text_of none (some d) r h = absurd (ground (arith, h))
source_text_of (some c) none r h = absurd (ground (arith, h))
source_text_of (some c) (some d) r h = let e : c.source ≡ d.source = cc in ap (λ s. field s r) e

format_bool_injective : (a b : Bool) → format_bool a ≡ format_bool b → a ≡ b
unfolding format_bool
format_bool_injective true true h = refl
format_bool_injective true false h = absurd (cc)
format_bool_injective false true h = absurd (cc)
format_bool_injective false false h = refl

module _ (duration_string : ℤ → Str) (itoa : ℤ → Str) where
  -- What the standard library documents of time.Duration.String and strconv.Itoa: they tell numbers
  -- apart, and write letters, digits and signs alone.
  pub record NumberText : Type 0 where
    pub durations_apart : (a b : ℤ) → duration_string a ≡ duration_string b → a ≡ b
    pub numbers_apart : (a b : ℤ) → itoa a ≡ itoa b → a ≡ b
    pub duration_clean : (a : ℤ) → Clean (duration_string a)
    pub number_clean : (a : ℤ) → Clean (itoa a)

  same_probe :
      (p q : Str × Probe)
      → NumberText
      → probe_fields duration_string itoa p ≡ probe_fields duration_string itoa q
      → p ≡ q
  unfolding probe_fields
  same_probe (m, p) (n, q) laws f =
      let (names, f1) = head_same _ _ _ _ f in
      let (types, f2) = head_same _ _ _ _ f1 in
      let (timeouts, f3) = head_same _ _ _ _ f2 in
      let (insecures, f4) = head_same _ _ _ _ f3 in
      let (traces, _) = head_same _ _ _ _ f4 in
      rw
        (
          names,
          types,
          laws.durations_apart p.timeout q.timeout timeouts,
          format_bool_injective p.insecure q.insecure insecures,
          format_bool_injective p.no_trace q.no_trace traces,
        )
        refl

  probes_injective :
      (ps qs : List (Str × Probe)) (r r' : Str)
      → NumberText
      → probes_text duration_string itoa ps (sep_block ∷ r)
        ≡ probes_text duration_string itoa qs (sep_block ∷ r')
      → (ps ≡ qs) × (r ≡ r')
  unfolding probes_text fields probe_fields
  probes_injective [] [] r r' laws h = (refl, cc)
  probes_injective [] (q ∷ qs) r r' laws h =
      absurd (field_apart q.0 sep_block _ r refl not_field (sym h))
  probes_injective (p ∷ ps) [] r r' laws h =
      absurd (field_apart p.0 sep_block _ r' refl not_field h)
  probes_injective (p ∷ ps) (q ∷ qs) r r' laws h =
      let (own, after) =
        fields_as_many (probe_fields duration_string itoa p) (probe_fields duration_string itoa q) _
          _ refl h in
      let rest : probes_text duration_string itoa ps (sep_block ∷ r)
          ≡ probes_text duration_string itoa qs (sep_block ∷ r') =
        cc in
      let (more, tail) = probes_injective ps qs r r' laws rest in
      (ap₂ ◌∷◌ (same_probe p q laws own) more, tail)

  -- What a rebuild depends on: the interval, the pings, the source label, the probes in the order of
  -- their names, and the groups but for the titles.
  pub record SameSchedule (c d : Config) : Type 0 where
    pub intervals : c.interval ≡ d.interval
    pub pings : c.pings ≡ d.pings
    pub sources : source_of c.cluster ≡ source_of d.cluster
    pub probes : sort_by (λ p. p.0) c.probes ≡ sort_by (λ p. p.0) d.probes
    pub groups : map untitled_group c.targets ≡ map untitled_group d.targets

  -- The text before the groups.
  abbrev before_groups : Config → Str → Str
  before_groups c rest = ended (duration_string c.interval) sep_field (
      ended (itoa c.pings) sep_block (
        source_text c.cluster (
          sep_block
          ∷ probes_text duration_string itoa (sort_by (λ p. p.0) c.probes) (sep_block ∷ rest))))

  probes_text-append :
      (ps : List (Str × Probe)) (x t : Str)
      → probes_text duration_string itoa ps x ++ t ≡ probes_text duration_string itoa ps (x ++ t)
  unfolding probes_text
  probes_text-append [] x t = refl
  probes_text-append (p ∷ ps) x t =
      fields-append (probe_fields duration_string itoa p) _ t
      ∙ ap (λ y. fields (probe_fields duration_string itoa p) (sep_entry ∷ y))
          (probes_text-append ps x t)

  source_text-append :
      (c : Option Cluster) (x t : Str) → source_text c x ++ t ≡ source_text c (x ++ t)
  unfolding source_text
  source_text-append none x t = refl
  source_text-append (some cl) x t = field-append cl.source x t

  fingerprint-append :
      (c : Config) (t : Str)
      → fingerprint duration_string itoa c ++ t ≡ before_groups c (groups_text c.targets ++ t)
  unfolding fingerprint
  fingerprint-append c t =
      append_assoc (duration_string c.interval) _ t
      ∙ ap (λ y. ended (duration_string c.interval) sep_field y)
          (append_assoc (itoa c.pings) _ t
            ∙ ap (λ y. ended (itoa c.pings) sep_block y)
                (source_text-append c.cluster _ t
                  ∙ ap (λ y. source_text c.cluster (sep_block ∷ y))
                      (probes_text-append (sort_by (λ p. p.0) c.probes)
                        (sep_block ∷ groups_text c.targets) t)))

  -- A fingerprint ends where a separator of blocks and something else follow it.
  pub fingerprint_before-SameSchedule :
      (c d : Config) (r r' : Str)
      → NumberText
      → fingerprint duration_string itoa c ++ sep_block ∷ r
        ≡ fingerprint duration_string itoa d ++ sep_block ∷ r'
      → SameSchedule c d × (r ≡ r')
  fingerprint_before-SameSchedule c d r r' laws h =
      let h0 : before_groups c (groups_before c.targets r)
          ≡ before_groups d (groups_before d.targets r') =
        sym (fingerprint-append c (sep_block ∷ r)) ∙ h ∙ fingerprint-append d (sep_block ∷ r') in
      let (intervals, _, h1) =
        ended_injective (duration_string c.interval) (duration_string d.interval) sep_field
          sep_field _ _ (laws.duration_clean c.interval) (laws.duration_clean d.interval) refl refl
          h0 in
      let (pings, _, h2) =
        ended_injective (itoa c.pings) (itoa d.pings) sep_block sep_block _ _
          (laws.number_clean c.pings) (laws.number_clean d.pings) refl refl h1 in
      let (sources, h3) = source_injective c.cluster d.cluster _ _ h2 in
      let (probes, h4) = probes_injective _ _ _ _ laws h3 in
      let (groups, rest) = groups_injective c.targets d.targets r r' h4 in
      (
        record {
          intervals = laws.durations_apart c.interval d.interval intervals;
          pings = laws.numbers_apart c.pings d.pings pings;
          sources = sources;
          probes = probes;
          groups = groups;
        },
        rest,
      )

  fingerprint-SameSchedule :
      (c d : Config)
      → NumberText
      → fingerprint duration_string itoa c ≡ fingerprint duration_string itoa d
      → SameSchedule c d
  fingerprint-SameSchedule c d laws h =
      (fingerprint_before-SameSchedule c d [] [] laws (ap (λ t. t ++ sep_block ∷ []) h)).0

  pub SameSchedule-fingerprint :
      (c d : Config)
      → SameSchedule c d
      → fingerprint duration_string itoa c ≡ fingerprint duration_string itoa d
  unfolding fingerprint
  SameSchedule-fingerprint c d same =
      rw
        (
          same.intervals,
          same.pings,
          same.probes,
          sym (groups_text_untitled c.targets),
          sym (groups_text_untitled d.targets),
          same.groups,
        )
        (ap (λ t. ended (duration_string d.interval) sep_field (ended (itoa d.pings) sep_block t))
          (source_text_of c.cluster d.cluster _ same.sources))

  -- If the texts of numbers tell them apart and hold no separator, two configurations have the same
  -- fingerprint exactly if they have the same schedule: an edit of the schedule rebuilds the
  -- scheduler, and no other edit does.
  pub fingerprint_iff :
      (c d : Config)
      → NumberText
      → (fingerprint duration_string itoa c ≡ fingerprint duration_string itoa d) ↔ SameSchedule c d
  fingerprint_iff c d laws = (fingerprint-SameSchedule c d laws, SameSchedule-fingerprint c d)
