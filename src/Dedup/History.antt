-- ===== src/Dedup/History.antt =====
-- What a window refuses was admitted before.
use smokeping_go.Common.{
  ◌≡◌, sym, subst, inl, inr, Bool, true, false, not, ◌&&◌, ◌||◌, Option, none, some, List, [], ◌∷◌,
  arith, str_eq, Bool-cases, get_elem?, ◌%◌, ℕ,
}
use smokeping_go.Common.Map
use smokeping_go.Dedup.{
  CycleId, cycle_id_eq, cycle_id_beq, SourceWindow, evict, put, window_size, offer, admit_window,
  forget_window, empty_window,
}
use smokeping_go.Dedup.Invariant.{Named, admit_window_lem}
use smokeping_go.Dedup.Retention.{Op, admits, forgets, apply, offer_new}

-- By the operations alone, newest first: the identity was offered, and not released since.
abbrev pub offered : CycleId → List Op → Bool
offered id [] = false
offered id (admits j ∷ earlier) = cycle_id_beq j id || offered id earlier
offered id (forgets j ∷ earlier) = not (cycle_id_beq j id) && offered id earlier

-- The window after operations that stand newest first.
abbrev pub after : List Op → SourceWindow
after [] = empty_window
after (op ∷ earlier) = apply (after earlier) op

evict-sub :
    (seen : List (CycleId × ℕ)) (slot : Option CycleId) (pos : ℕ) (j : CycleId)
    → Map.has j (evict seen slot pos) ≡ true
    → Map.has j seen ≡ true
unfolding evict
evict-sub seen none pos j h = h
evict-sub seen (some old) pos j h = ground (arith, Map.has-delete j old seen)

put-sub :
    (w : SourceWindow) (id j : CycleId)
    → Map.has j (put w id).seen ≡ true
    → (cycle_id_beq id j || Map.has j w.seen) ≡ true
unfolding put
put-sub w id j h = ground (
  arith,
  Map.has-insert j id w.inserted w.seen,
  Map.has-insert j id w.inserted
      (evict w.seen (get_elem? w.ring (w.inserted % window_size)) w.inserted),
  evict-sub w.seen (get_elem? w.ring (w.inserted % window_size)) w.inserted j,
)

offer-sub :
    (w : SourceWindow) (id j : CycleId)
    → Map.has j (offer w id).0.seen ≡ true
    → (cycle_id_beq id j || Map.has j w.seen) ≡ true
unfolding offer
offer-sub w id j h = ground (arith, put-sub w id j)

put-names : (w : SourceWindow) (id : CycleId) → (put w id).names ≡ w.names
unfolding put
put-names w id = ground arith

offer-names : (w : SourceWindow) (id : CycleId) → (offer w id).0.names ≡ w.names
unfolding offer
offer-names w id = ground (arith, put-names w id)

after-Named : (ops : List Op) → Named (after ops).names
unfolding forget_window
after-Named [] = λ k v h. unfold Map.lookup in cc
after-Named (admits id ∷ earlier) =
    let (table, same, named) =
      admit_window_lem (after earlier) id.target id.nano (after-Named earlier) in
    subst (λ r. Named r.0.names) (sym same)
      (subst Named (sym (offer-names (record (after earlier) { names = table }) id)) named)
after-Named (forgets id ∷ earlier) = after-Named earlier

seen-offered :
    (ops : List Op) (j : CycleId) → Map.has j (after ops).seen ≡ true → offered j ops ≡ true
unfolding forget_window
seen-offered [] j h = unfold Map.has in cc
seen-offered (admits id ∷ earlier) j h =
    let (table, same, named) =
      admit_window_lem (after earlier) id.target id.nano (after-Named earlier) in
    let inside : Map.has j (offer (record (after earlier) { names = table }) id).0.seen ≡ true =
      subst (λ r. Map.has j r.0.seen ≡ true) same h in
    ground (
      arith,
      offer-sub (record (after earlier) { names = table }) id j inside,
      seen-offered earlier j,
    )
seen-offered (forgets id ∷ earlier) j h =
    ground (arith, Map.has-delete j id (after earlier).seen, seen-offered earlier j)

-- A window that began empty refuses an identity only if, by the operations that it was given, that
-- identity was offered before and not released since; so no new measurement is lost.
pub refused_was_offered :
    (ops : List Op) (id : CycleId)
    → (admit_window (after ops) id.target id.nano).1 ≡ false
    → offered id ops ≡ true
refused_was_offered ops id refused =
    let (table, same, named) = admit_window_lem (after ops) id.target id.nano (after-Named ops) in
    let w = record (after ops) { names = table } in
    elim (Bool-cases (Map.has id (after ops).seen)) [
      | inl known ↦ seen-offered ops id known
      | inr new ↦ absurd (ground (arith, offer_new w id new, rw same at refused))
    ]
