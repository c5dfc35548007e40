-- ===== src/Dedup/Invariant.antt =====
-- What every operation of a source's window keeps.
use smokeping_go.Common.{
  ℕ, ◌+◌, ◌-◌, ◌%◌, ◌≤◌, ◌<◌, ◌≡◌, ◌≢◌, refl, sym, ◌∙◌, inl, inr, Option, none, some, List, [], ◌∷◌,
  ◌++◌, arith, ltb, ltb→lt, nat_beq, Str, str_eq, Bool-cases, Option-cases, length, get_elem?, set,
  length-append, length-set, get_elem?-set_self, get_elem?-set_ne, get_elem?-append_left,
  get_elem?-append_last,
}
use smokeping_go.Common.Map
use smokeping_go.Limits.{u64_mod}
use smokeping_go.Dedup.{
  evict, trim, intern, offer, admit_window, forget_window, put, CycleId, cycle_id_eq, SourceWindow,
  window_size, empty_window,
}

-- An identity that is remembered was inserted, at a position that no later one has overwritten, and
-- its slot of the ring holds it.
abbrev pub Remembered : List CycleId → ℕ → CycleId → ℕ → Type 0
Remembered ring inserted id p =
    (p < inserted) × (inserted ≤ p + window_size) × (get_elem? ring (p % window_size) ≡ some id)

pub record Inv (w : SourceWindow) : Type 0 where
  pub bounded : length w.ring ≤ window_size
  pub filling : length w.ring < window_size → w.inserted ≡ length w.ring
  pub wide : length w.ring ≤ w.inserted
  pub fresh :
      (id : CycleId) (p : ℕ) → Map.lookup id w.seen ≡ some p → Remembered w.ring w.inserted id p
  pub named : (k v : Str) → Map.lookup k w.names ≡ some v → k ≡ v

pub empty-Inv : Inv empty_window
unfolding Map.lookup
empty-Inv = record {
  bounded = omega arith;
  filling = λ _. refl;
  wide = omega arith;
  fresh = λ id p h. absurd (ground arith);
  named = λ k v h. absurd (ground arith);
}

-- While the ring fills.
append-fresh :
    (w : SourceWindow) (id : CycleId)
    → Inv w
    → length w.ring < window_size
    → (j : CycleId) (p : ℕ) → Map.lookup j (Map.insert id w.inserted w.seen) ≡ some p
    → Remembered (w.ring ++ id ∷ []) (w.inserted + 1) j p
append-fresh w id v room j p h = elim (Map.lookup-insert-some j id w.inserted p w.seen h) [
  | inl (same, at) ↦ rw (← at, ← same) (ground (arith, get_elem?-append_last w.ring id))
  | inr (other, old) ↦
      ground (arith, v.fresh j p old, get_elem?-append_left w.ring (id ∷ []) (p % window_size))
]

-- An overwrite forgets what its slot held if that is still the slot's own insertion, and nothing else.
evict-some :
    (seen : List (CycleId × ℕ)) (slot : Option CycleId) (pos p : ℕ) (j : CycleId)
    → window_size ≤ pos
    → pos < u64_mod
    → Map.lookup j (evict seen slot pos) ≡ some p
    → (Map.lookup j seen ≡ some p) × (slot ≡ some j → p + window_size ≢ pos)
unfolding evict
evict-some seen none pos p j full small h = (h, λ same. cc)
evict-some seen (some old) pos p j full small h = elim (Option-cases (Map.lookup old seen)) [
  | inl gone ↦
      let kept : Map.lookup j seen ≡ some p = rw (gone, evict) at h in
      (kept, λ same. absurd (ground arith))
  | inr (at, found) ↦ elim (Bool-cases (nat_beq at ((pos + u64_mod - window_size) % u64_mod))) [
    | inl due ↦
        let (other, kept) = Map.lookup-delete-some j old p seen (rw (found, due, evict) at h) in
        (kept, λ same. absurd (other (ground arith)))
    | inr newer ↦
        let kept : Map.lookup j seen ≡ some p = rw (found, newer, evict) at h in
        (kept, λ same. ground arith)
  ]
]

wrap : (p : ℕ) → (p + window_size) % window_size ≡ p % window_size
wrap p = omega arith

overwrite-fresh :
    (w : SourceWindow) (id : CycleId)
    → Inv w
    → length w.ring ≡ window_size
    → w.inserted < u64_mod
    → (j : CycleId) (p : ℕ)
    → Map.lookup j (
        Map.insert id w.inserted
          (evict w.seen (get_elem? w.ring (w.inserted % window_size)) w.inserted))
      ≡ some p
    → Remembered (set w.ring (w.inserted % window_size) id) (w.inserted + 1) j p
overwrite-fresh w id v full small j p h = elim (Map.lookup-insert-some j id w.inserted p _ h) [
  | inl (same, at) ↦
      rw (← at, ← same) (omega arith, omega arith, get_elem?-set_self w.ring _ id (omega arith))
  | inr (other, old) ↦
      let wide = v.wide in
      let (kept, later) = evict-some w.seen _ w.inserted p j (omega arith) small old in
      let (below, near, slot) = v.fresh j p kept in
      let apart : p + window_size ≢ w.inserted = λ due. later (rw (← due) (rw (wrap p) slot)) due in
      let other_slot : w.inserted % window_size ≢ p % window_size = omega arith in
      (omega arith, omega arith, rw (get_elem?-set_ne w.ring _ _ id other_slot) slot)
]

abbrev pub Named : List (Str × Str) → Type 0
Named names = (k v : Str) → Map.lookup k names ≡ some v → k ≡ v

insert-Named : (t : Str) (names : List (Str × Str)) → Named names → Named (Map.insert t t names)
insert-Named t names h k v found = elim (Map.lookup-insert-some k t t v names found) [
  | inl (same, at) ↦ sym same ∙ at
  | inr (other, old) ↦ h k v old
]

trim-Named : (names : List (Str × Str)) → Named names → Named (trim names)
unfolding trim Map.lookup
trim-Named names h k v found = elim (Bool-cases (ltb window_size (length names))) [
  | inl full ↦ cc (rw (full, trim) at found)
  | inr room ↦ h k v (rw (room, trim) at found)
]

-- Interning changes no target, and the table holds each target under its own spelling.
pub intern_lem :
    (names : List (Str × Str)) (t : Str)
    → Named names
    → ((intern names t).0 ≡ t) × Named (intern names t).1
unfolding intern
intern_lem names t h = elim (Option-cases (Map.lookup t names)) [
  | inl gone ↦ rw (gone, intern) (refl, insert-Named t names h)
  | inr (v, found) ↦ rw (found, intern) (sym (h t v found), h)
]

-- The table of spellings never outgrows the window by more than the entry that shows it.
pub length-intern :
    (names : List (Str × Str)) (t : Str) → length (intern (trim names) t).1 ≤ window_size + 1
unfolding intern trim
length-intern names t = ground (arith, Map.length-insert t t (trim names))

pub put-Inv : (w : SourceWindow) (id : CycleId) → Inv w → w.inserted + 1 < u64_mod → Inv (put w id)
unfolding put
put-Inv w id v small = elim (Bool-cases (ltb (length w.ring) window_size)) [
  | inl room ↦
      let fits : length w.ring < window_size = ltb→lt _ _ room in
      rw (room, put)
        (record {
          bounded = omega (arith, length-append w.ring (id ∷ []));
          filling = λ _. omega (arith, length-append w.ring (id ∷ []), v.filling fits);
          wide = omega (arith, length-append w.ring (id ∷ []), v.filling fits);
          fresh = λ j p h. rw next (append-fresh w id v fits j p h);
          named = v.named;
        })
  | inr full ↦
      let bounded = v.bounded in
      let wide = v.wide in
      let all : length w.ring ≡ window_size = ground arith in
      rw (full, put)
        (record {
          bounded = rw (length-set w.ring _ id) v.bounded;
          filling = λ h. absurd (omega (arith, length-set w.ring (w.inserted % window_size) id));
          wide = omega (arith, length-set w.ring (w.inserted % window_size) id);
          fresh = λ j p h. rw next (overwrite-fresh w id v all (omega arith) j p h);
          named = v.named;
        })
]
  where
    next : (w.inserted + 1) % u64_mod ≡ w.inserted + 1
    next = omega arith

pub offer-Inv :
    (w : SourceWindow) (id : CycleId) → Inv w → w.inserted + 1 < u64_mod → Inv (offer w id).0
unfolding offer
offer-Inv w id v small = ground (arith, put-Inv w id v small)

pub admit_window-Inv :
    (w : SourceWindow) (target : Str) (nano : ℕ)
    → Inv w
    → w.inserted + 1 < u64_mod
    → Inv (admit_window w target nano).0
unfolding admit_window
admit_window-Inv w target nano v small =
    let (_, table) = intern_lem (trim w.names) target (trim-Named w.names v.named) in
    offer-Inv _ _
      (record {
        bounded = v.bounded;
        filling = v.filling;
        wide = v.wide;
        fresh = v.fresh;
        named = table;
      })
      small

pub forget_window-Inv :
    (w : SourceWindow) (target : Str) (nano : ℕ) → Inv w → Inv (forget_window w target nano)
unfolding forget_window
forget_window-Inv w target nano v = record {
  bounded = v.bounded;
  filling = v.filling;
  wide = v.wide;
  fresh = λ j p h. v.fresh j p (Map.lookup-delete-some j _ p w.seen h).1;
  named = v.named;
}

-- What admit does, with the interning out of the way.
pub admit_window_lem :
    (w : SourceWindow) (target : Str) (nano : ℕ)
    → Named w.names
    → (table : List (Str × Str)) × (admit_window w target nano
        ≡ offer (record w { names = table }) (record { target = target; nano = nano }))
      × Named table
unfolding admit_window
admit_window_lem w target nano named =
    let (same, table) = intern_lem (trim w.names) target (trim-Named w.names named) in
    ((intern (trim w.names) target).1, rw same, table)
