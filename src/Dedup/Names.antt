-- ===== src/Dedup/Names.antt =====
-- internal/cluster/master/dedup.go: which sources have a window after each operation.
use smokeping_go.Common.{
  ℕ, ◌+◌, ◌%◌, ◌≡◌, refl, sym, ap, ◌∙◌, ◌⊎◌, inl, inr, Bool, true, false, ◌||◌, Option, none, some,
  List, arith, leb, if◌then◌else◌, if_elim, Bool-cases, Option-cases, Str, str_eq, str_beq,
  str_beq_iff, length,
}
use smokeping_go.Common.Map
use smokeping_go.Dedup.Sources.{still_held}
use smokeping_go.Limits.{u64_mod}
use smokeping_go.Dedup.{
  SourceWindow, CycleDedup, scan, evict_lru, make_room, window_for, admit, forget, forget_window,
  forget_source, max_sources,
}

-- The source has a window.
abbrev pub windowed : CycleDedup → Str → Bool
windowed d n = Map.has n d.by_source

-- No source has a window in the second that has none in the first.
abbrev pub Within : CycleDedup → CycleDedup → Type 0
Within d d' = (n : Str) → windowed d' n ≡ true → windowed d n ≡ true

has-delete-true :
    (n v : Str) (m : List (Str × SourceWindow))
    → Map.has n (Map.delete v m) ≡ true
    → Map.has n m ≡ true
has-delete-true n v m h = ground (arith, h, Map.has-delete n v m)

evict_lru-Within : (d : CycleDedup) → Within d (evict_lru d)
unfolding evict_lru
evict_lru-Within d n h = elim (Option-cases (scan d.registered none d.by_source)) [
  | inl nobody ↦ let h' : Map.has n d.by_source ≡ true = rw (nobody, evict_lru) at h in h'
  | inr (v, chosen) ↦
      let h' : Map.has n (Map.delete v.name d.by_source) ≡ true = rw (chosen, evict_lru) at h in
      has-delete-true n v.name d.by_source h'
]

make_room-Within : (d : CycleDedup) → Within d (make_room d)
unfolding make_room
make_room-Within d =
    if_elim (Within d) (leb max_sources (length d.by_source)) _ _ (evict_lru-Within d) (λ n h. h)

window_for-Within : (d : CycleDedup) (source : Str) → Within d (window_for d source).0
unfolding window_for
window_for-Within d source n h = elim (Option-cases (Map.lookup source d.by_source)) [
  | inl new ↦
      let h' : windowed (make_room d) n ≡ true = rw (new, window_for) at h in
      make_room-Within d n h'
  | inr (w, known) ↦ let h' : windowed d n ≡ true = rw (known, window_for) at h in h'
]

-- A window comes into being for the source of the cycle alone.
pub admit-windowed :
    (d : CycleDedup) (source target : Str) (nano : ℕ) (n : Str)
    → windowed (admit d source target nano).0 n ≡ true
    → (source ≡ n) ⊎ (windowed d n ≡ true)
unfolding admit
admit-windowed d source target nano n h =
    let d' = record d { clock = (d.clock + 1) % u64_mod } in
    let either : (str_beq source n || Map.has n (window_for d' source).0.by_source) ≡ true =
      sym (Map.has-insert n source _ (window_for d' source).0.by_source) ∙ h in
    elim (Bool-cases (str_beq source n)) [
      | inl same ↦ inl ((str_beq_iff source n).0 same)
      | inr other ↦
          let h' : Map.has n (window_for d' source).0.by_source ≡ true = rw other at either in
          inr (window_for-Within d' source n h')
    ]

-- The release of a cycle opens no window.
pub forget-windowed :
    (d : CycleDedup) (source target : Str) (nano : ℕ) → Within d (forget d source target nano)
unfolding forget
forget-windowed d source target nano n h = elim (Option-cases (Map.lookup source d.by_source)) [
  | inl none_there ↦ let h' : Map.has n d.by_source ≡ true = rw (none_there, forget) at h in h'
  | inr (w, there) ↦
      let h' : Map.has n (Map.insert source (forget_window w target nano) d.by_source) ≡ true =
        rw (there, forget) at h in
      ground (
        arith,
        h',
        Map.has-insert n source (forget_window w target nano) d.by_source,
        Map.lookup-has source w d.by_source there,
        str_beq_iff source n,
        ap (λ k. Map.has k d.by_source) {x = source} {y = n},
      )
]

-- What the release of a source leaves: the other windows, and its own if the registry holds it again.
pub forget_source-windowed :
    (d : CycleDedup) (source n : Str)
    → windowed (forget_source d source) n ≡ true
    → (windowed d n ≡ true) × ((str_beq source n ≡ false) ⊎ (still_held d.registered source ≡ true))
unfolding forget_source
forget_source-windowed d source n h = elim (Option-cases d.registered) [
  | inl alone ↦
      let h' : Map.has n (Map.delete source d.by_source) ≡ true = rw alone at h in
      ground (arith, h', Map.has-delete n source d.by_source)
  | inr (f, coupled) ↦ elim (Bool-cases (f source)) [
    | inl held ↦
        let h' : Map.has n d.by_source ≡ true = rw (coupled, held) at h in
        (h', inr (rw (coupled, held) refl))
    | inr gone ↦
        let h' : Map.has n (Map.delete source d.by_source) ≡ true = rw (coupled, gone) at h in
        ground (arith, h', Map.has-delete n source d.by_source)
  ]
]

still_registered :
    (d : CycleDedup) (source : Str) (o : Option (Str → Bool))
    → (elim o as (λ _. CycleDedup) [
      | none ↦ record d { by_source = Map.delete source d.by_source }
      | some f ↦ if f source then d else record d { by_source = Map.delete source d.by_source }
    ]).registered
      ≡ d.registered
still_registered d source none = refl
still_registered d source (some f) =
    if_elim (λ (d' : CycleDedup). d'.registered ≡ d.registered) (f source) d
      (record d { by_source = Map.delete source d.by_source }) refl refl

pub forget_source-registered :
    (d : CycleDedup) (source : Str) → (forget_source d source).registered ≡ d.registered
unfolding forget_source
forget_source-registered d source = still_registered d source d.registered
