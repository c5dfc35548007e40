-- ===== src/Dedup/Sources.antt =====
-- The set of windows: its ceiling, whose window an eviction drops, and that sources do not interfere.
use smokeping_go.Common.{
  ℕ, ◌+◌, ◌%◌, ◌≤◌, ◌<◌, ◌≡◌, ◌≢◌, refl, ◌∙◌, ◌⊎◌, inl, inr, Bool, true, false, not, ◌&&◌, Option,
  none, some, List, [], ◌∷◌, arith, leb, leb→le, if◌then◌else◌, Str, str_eq, str_beq, str_beq_iff,
  Bool-cases, Option-cases, ==_refl, length, All,
}
use smokeping_go.Common.Map
use smokeping_go.Limits.{u64_mod}
use smokeping_go.Dedup.{
  SourceWindow, CycleDedup, Victim, max_sources, empty_window, admit_window, holds, better, scan,
  evict_lru, make_room, offer, intern, trim, window_for, admit, forget_source,
}

abbrev pub as_victim : Option (Str → Bool) → Str → SourceWindow → Victim
as_victim reg name w = record { name = name; oldest = w.used; dead = not (holds reg name) }

-- `v` is at least as good a victim as `u`: gone if `u` is gone, and among equals not used later.
abbrev pub NoWorse : Victim → Victim → Type 0
NoWorse v u = (u.dead ≡ true → v.dead ≡ true) × (u.dead ≡ v.dead → v.oldest ≤ u.oldest)

NoWorse-trans : (t u v : Victim) → NoWorse t u → NoWorse u v → NoWorse t v
NoWorse-trans t u v (a, b) (c, d) = (λ h. a (c h), λ h. ground arith)

-- The victim is one of the windows, and no window is a better one.
abbrev pub Chosen : Option (Str → Bool) → Victim → List (Str × SourceWindow) → Type 0
Chosen reg v m = All (λ e. NoWorse v (as_victim reg e.0 e.1)) m

step-NoWorse :
    (u v : Victim)
    → ((better (some u) v.dead v.oldest ≡ true) × NoWorse v u)
      ⊎ ((better (some u) v.dead v.oldest ≡ false) × NoWorse u v)
unfolding better
step-NoWorse u v = ground arith

scan-best :
    (reg : Option (Str → Bool)) (u : Victim) (m : List (Str × SourceWindow))
    → (v : Victim) × (scan reg (some u) m ≡ some v)
      × NoWorse v u
      × Chosen reg v m
      × ((v ≡ u) ⊎ (Map.has v.name m ≡ true))
unfolding scan
scan-best reg u [] = (u, refl, (λ h. h, λ h. omega arith), tt, inl refl)
scan-best reg u ((name, w) ∷ rest) =
    let fresh = as_victim reg name w in
    elim (step-NoWorse u fresh) [
      | inl (take, better_one) ↦
          let (v, e, n, c, m) = scan-best reg fresh rest in
          (v, rw take e, NoWorse-trans v fresh u n better_one, (n, c), inr (found v fresh m))
      | inr (skip, worse_one) ↦
          let (v, e, n, c, m) = scan-best reg u rest in
          (v, rw skip e, n, (NoWorse-trans v u fresh n worse_one, c), kept v m)
    ]
  where
    found :
        (v fresh : Victim)
        → (v ≡ as_victim reg name w) ⊎ (Map.has v.name rest ≡ true)
        → Map.has v.name ((name, w) ∷ rest) ≡ true
    found v fresh m = unfold Map.has in ground (arith, str_beq_iff name v.name)

    kept :
        (v : Victim)
        → (v ≡ u) ⊎ (Map.has v.name rest ≡ true)
        → (v ≡ u) ⊎ (Map.has v.name ((name, w) ∷ rest) ≡ true)
    kept v (inl same) = inl same
    kept v (inr m) = inr (unfold Map.has in ground arith)

scan_lem :
    (reg : Option (Str → Bool)) (m : List (Str × SourceWindow))
    → m ≢ []
    → (v : Victim) × (scan reg none m ≡ some v) × Chosen reg v m × (Map.has v.name m ≡ true)
unfolding scan better
scan_lem reg [] h = absurd (h refl)
scan_lem reg ((name, w) ∷ rest) h =
    let (v, e, n, c, m) = scan-best reg (as_victim reg name w) rest in (v, e, (n, c), member v m)
  where
    member :
        (v : Victim)
        → (v ≡ as_victim reg name w) ⊎ (Map.has v.name rest ≡ true)
        → Map.has v.name ((name, w) ∷ rest) ≡ true
    member v m = unfold Map.has in ground (arith, str_beq_iff name v.name)

-- Where there is a window, an eviction drops the window of exactly one source that has one: it is of a
-- source that the registry no longer holds if any window is, and among such windows (or among all, if
-- no source is gone) it is one that was used least recently.
pub evict_lru_lem :
    (d : CycleDedup)
    → d.by_source ≢ []
    → (v : Victim) × (evict_lru d ≡ record d { by_source = Map.delete v.name d.by_source })
      × Chosen d.registered v d.by_source
      × (Map.has v.name d.by_source ≡ true)
unfolding evict_lru
evict_lru_lem d h =
    let (v, e, c, m) = scan_lem d.registered d.by_source h in (v, rw (e, evict_lru), c, m)

window_for_new :
    (d : CycleDedup) (source : Str)
    → Map.lookup source d.by_source ≡ none
    → window_for d source ≡ (make_room d, empty_window)
unfolding window_for
window_for_new d source h = rw (h, window_for)

window_for_known :
    (d : CycleDedup) (source : Str) (w : SourceWindow)
    → Map.lookup source d.by_source ≡ some w
    → window_for d source ≡ (d, w)
unfolding window_for
window_for_known d source w h = rw (h, window_for)

make_room_below : (d : CycleDedup) → length d.by_source < max_sources → make_room d ≡ d
unfolding make_room
make_room_below d h = ground arith

nonempty : (m : List (Str × SourceWindow)) → max_sources ≤ length m → m ≢ []
nonempty [] h e = absurd (omega arith)
nonempty (x ∷ m) h e = cc

-- Room is made by dropping one window at most.
make_room_lem :
    (d : CycleDedup)
    → (v : Str) × ((other : Str)
        → v ≢ other
        → Map.lookup other (make_room d).by_source ≡ Map.lookup other d.by_source)
      × (length d.by_source ≤ max_sources → length (make_room d).by_source < max_sources)
unfolding make_room
make_room_lem d = elim (Bool-cases (leb max_sources (length d.by_source))) [
  | inl full ↦
      let (v, e, _, m) = evict_lru_lem d (nonempty d.by_source (leb→le _ _ full)) in
      (
        v.name,
        λ other apart.
            rw (full, make_room, e) (Map.lookup-delete_ne other v.name d.by_source apart),
        λ h. rw (full, make_room, e) (omega (arith, Map.length-delete-lt v.name d.by_source m)),
      )
  | inr room ↦ ([], λ other apart. rw (room, make_room), λ h. ground arith)
]

empty_admits :
    (target : Str) (nano used : ℕ)
    → (admit_window (record empty_window { used = used }) target nano).1 ≡ true
unfolding admit_window offer Map.has Map.lookup intern trim
empty_admits target nano used = refl

-- A source that has a window is judged by that window alone, and no other window changes.
pub admit_known :
    (d : CycleDedup) (source target : Str) (nano : ℕ) (w : SourceWindow)
    → Map.lookup source d.by_source ≡ some w
    → let r = admit d source target nano in
      let own = admit_window (record w { used = (d.clock + 1) % u64_mod }) target nano in
      (r.1 ≡ own.1)
      × (Map.lookup source r.0.by_source ≡ some own.0)
      × ((other : Str)
          → source ≢ other
          → Map.lookup other r.0.by_source ≡ Map.lookup other d.by_source)
unfolding admit
admit_known d source target nano w h =
    rw (window_for_known (record d { clock = (d.clock + 1) % u64_mod }) source w h) (
      refl,
      Map.lookup-insert_self source _ d.by_source,
      λ other apart. Map.lookup-insert_ne other source _ d.by_source apart,
    )

-- A source that has no window gets an empty one, which admits its cycle. One other source at most
-- loses its window, and none does while fewer than 512 sources have one.
pub admit_newcomer :
    (d : CycleDedup) (source target : Str) (nano : ℕ)
    → Map.lookup source d.by_source ≡ none
    → let r = admit d source target nano in
      (r.1 ≡ true)
      × (Map.has source r.0.by_source ≡ true)
      × ((v : Str) × ((other : Str)
            → source ≢ other
            → (v ≢ other) ⊎ (length d.by_source < max_sources)
            → Map.lookup other r.0.by_source ≡ Map.lookup other d.by_source))
unfolding admit
admit_newcomer d source target nano h =
    let d' = record d { clock = (d.clock + 1) % u64_mod } in
    let (v, same, _) = make_room_lem d' in
    rw (window_for_new d' source h) (
      empty_admits target nano _,
      rw (Map.has-insert source source _ (make_room d').by_source, ==_refl source),
      (
        v,
        λ other apart. λ cases.
            Map.lookup-insert_ne other source _ (make_room d').by_source apart
            ∙ kept d' other cases (same other),
      ),
    )
  where
    kept :
        (d' : CycleDedup) (other : Str) {v : Str}
        → (v ≢ other) ⊎ (length d'.by_source < max_sources)
        → (v ≢ other → Map.lookup other (make_room d').by_source ≡ Map.lookup other d'.by_source)
        → Map.lookup other (make_room d').by_source ≡ Map.lookup other d'.by_source
    kept d' other (inl apart) f = f apart
    kept d' other (inr below) f = rw (make_room_below d' below)

-- The set never holds more than 512 windows.
pub admit_bounded :
    (d : CycleDedup) (source target : Str) (nano : ℕ)
    → length d.by_source ≤ max_sources
    → length (admit d source target nano).0.by_source ≤ max_sources
unfolding admit
admit_bounded d source target nano h =
    let d' = record d { clock = (d.clock + 1) % u64_mod } in
    elim (Option-cases (Map.lookup source d.by_source)) [
      | inl new ↦
          let (_, _, room) = make_room_lem d' in
          rw (window_for_new d' source new) (
            ground (
              arith,
              room h,
              Map.length-insert source
                  (admit_window (record empty_window { used = (d.clock + 1) % u64_mod }) target
                    nano).0
                  (make_room d').by_source,
            ))
      | inr (w, found) ↦
          rw (window_for_known d' source w found) (
            rw (Map.length-insert source _ d.by_source, Map.lookup-has source w d.by_source found)
              h)
    ]

-- The registry is coupled, and holds the source.
abbrev pub still_held : Option (Str → Bool) → Str → Bool
still_held none source = false
still_held (some f) source = f source

-- A source that the registry released loses its window, one that it holds again keeps it, and no other
-- source is touched.
pub lookup-forget_source :
    (d : CycleDedup) (source other : Str)
    → Map.lookup other (forget_source d source).by_source ≡ (
        if str_beq source other && not (still_held d.registered source)
        then none
        else Map.lookup other d.by_source)
unfolding forget_source
lookup-forget_source d source other = elim (Option-cases d.registered) [
  | inl alone ↦ ground (arith, Map.lookup-delete other source d.by_source)
  | inr (f, coupled) ↦ ground (arith, Map.lookup-delete other source d.by_source)
]
