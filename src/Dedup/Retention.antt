-- ===== src/Dedup/Retention.antt =====
-- How long a window recognises an identity that it admitted.
use smokeping_go.Common.{
  ℕ, suc, ◌+◌, ◌-◌, ◌%◌, ◌≤◌, ◌<◌, ◌≡◌, ◌≢◌, refl, sym, ap, subst, inl, inr, true, false, Option,
  none, some, List, [], ◌∷◌, arith, ltb, nat_beq, Str, str_eq, Bool-cases, Option-cases, length,
  All,
}
use native.Mathlib.Nat.{zero-add, suc-add, add-zero}
use smokeping_go.Common.Map
use smokeping_go.Limits.{u64_mod}
use smokeping_go.Dedup.{
  CycleId, cycle_id_eq, SourceWindow, window_size, evict, put, offer, admit_window, forget_window,
}
use smokeping_go.Dedup.Invariant.{Inv, Named, put-Inv, forget_window-Inv, admit_window_lem}

pub data Op : Type 0 where
  admits forgets : CycleId → Op

abbrev pub apply : SourceWindow → Op → SourceWindow
apply w (admits id) = (admit_window w id.target id.nano).0
apply w (forgets id) = forget_window w id.target id.nano

abbrev pub run : SourceWindow → List Op → SourceWindow
run w [] = w
run w (op ∷ ops) = run (apply w op) ops

pub offer_known :
    (w : SourceWindow) (id : CycleId) → Map.has id w.seen ≡ true → offer w id ≡ (w, false)
unfolding offer
offer_known w id h = rw h

pub offer_new :
    (w : SourceWindow) (id : CycleId) → Map.has id w.seen ≡ false → offer w id ≡ (put w id, true)
unfolding offer
offer_new w id h = rw h

evict-keeps :
    (seen : List (CycleId × ℕ)) (slot : Option CycleId) (pos p : ℕ) (j : CycleId)
    → window_size ≤ pos
    → pos < u64_mod
    → p + window_size ≢ pos
    → Map.lookup j seen ≡ some p
    → Map.lookup j (evict seen slot pos) ≡ some p
unfolding evict
evict-keeps seen none pos p j full small apart h = h
evict-keeps seen (some old) pos p j full small apart h = elim (Option-cases (Map.lookup old seen)) [
  | inl gone ↦ rw (gone, evict) h
  | inr (at, found) ↦ elim (Bool-cases (nat_beq at ((pos + u64_mod - window_size) % u64_mod))) [
    | inl due ↦
        let other : old ≢ j = λ same. apart (ground arith) in
        rw (found, due, evict) (rw (Map.lookup-delete_ne j old seen other) h)
    | inr newer ↦ rw (found, newer, evict) h
  ]
]

-- An insertion leaves every identity whose position it does not overwrite.
put-keeps :
    (w : SourceWindow) (id j : CycleId) (p : ℕ)
    → Inv w
    → w.inserted + 1 < u64_mod
    → w.inserted < p + window_size
    → id ≢ j
    → Map.lookup j w.seen ≡ some p
    → (Map.lookup j (put w id).seen ≡ some p) × ((put w id).inserted ≡ w.inserted + 1)
unfolding put
put-keeps w id j p v small near other h = elim (Bool-cases (ltb (length w.ring) window_size)) [
  | inl room ↦ rw (room, put) (rw (Map.lookup-insert_ne j id _ w.seen other) h, omega arith)
  | inr full ↦
      let bounded = v.bounded in
      let wide = v.wide in
      let pos : window_size ≤ w.inserted = ground arith in
      rw (full, put)
        (
          rw (Map.lookup-insert_ne j id _ (evict w.seen _ w.inserted) other)
              (evict-keeps w.seen _ w.inserted p j pos (omega arith) (omega arith) h),
          omega arith,
        )
]

-- One window remembers an identity, at a position that `k` more insertions do not overwrite.
abbrev pub Holds : SourceWindow → CycleId → ℕ → ℕ → Type 0
Holds w id p k =
    Inv w
    × (w.inserted + k < u64_mod)
    × (w.inserted + k < p + window_size + 1)
    × (Map.lookup id w.seen ≡ some p)

offer-Holds :
    (w : SourceWindow) (id j : CycleId) (p k : ℕ) → Holds w j p (suc k) → Holds (offer w id).0 j p k
offer-Holds w id j p k (v, small, near, h) = elim (Bool-cases (Map.has id w.seen)) [
  | inl known ↦ rw (offer_known w id known) (v, omega arith, omega arith, h)
  | inr new ↦
      let other : id ≢ j = λ same. cc (Map.lookup-has j p w.seen h, rw same at new) in
      let (kept, grown) = put-keeps w id j p v (omega arith) (omega arith) other h in
      rw (offer_new w id new)
        (put-Inv w id v (omega arith), omega (arith, grown), omega (arith, grown), kept)
]

with_names :
    (w : SourceWindow) (table : List (Str × Str))
    → Inv w
    → Named table
    → Inv (record w { names = table })
with_names w table v named = record {
  bounded = v.bounded;
  filling = v.filling;
  wide = v.wide;
  fresh = v.fresh;
  named = named;
}

step-Holds :
    (w : SourceWindow) (op : Op) (j : CycleId) (p k : ℕ)
    → op ≢ forgets j
    → Holds w j p (suc k)
    → Holds (apply w op) j p k
unfolding forget_window
step-Holds w (admits id) j p k other (v, small, near, h) =
    let (table, same, named) = admit_window_lem w id.target id.nano v.named in
    subst (λ r. Holds r.0 j p k) (sym same)
      (offer-Holds (record w { names = table }) id j p k
        (with_names w table v named, small, near, h))
step-Holds w (forgets id) j p k other (v, small, near, h) =
    (forget_window-Inv w id.target id.nano v, lower small, omega arith, kept)
  where
    lower : w.inserted + suc k < u64_mod → w.inserted + k < u64_mod
    lower s = omega arith

    kept : Map.lookup j (forget_window w id.target id.nano).seen ≡ some p
    kept = rw (Map.lookup-delete_ne j id w.seen (λ same. other (ap forgets same))) h

run-Holds :
    (ops : List Op) (w : SourceWindow) (j : CycleId) (p k : ℕ)
    → All (λ op. op ≢ forgets j) ops
    → Holds w j p (length ops + k)
    → Holds (run w ops) j p k
run-Holds [] w j p k other h = rw zero-add at h
run-Holds (op ∷ ops) w j p k other h =
    run-Holds ops (apply w op) j p k other.1
      (step-Holds w op j p (length ops + k) other.0 (rw suc-add at h))

put_self :
    (w : SourceWindow) (id : CycleId)
    → w.inserted + 1 < u64_mod
    → (Map.lookup id (put w id).seen ≡ some w.inserted) × ((put w id).inserted ≡ w.inserted + 1)
unfolding put
put_self w id small = elim (Bool-cases (ltb (length w.ring) window_size)) [
  | inl room ↦ rw (room, put) (Map.lookup-insert_self id w.inserted w.seen, omega arith)
  | inr full ↦ rw (full, put) (Map.lookup-insert_self id w.inserted _, omega arith)
]

offered-Holds :
    (w : SourceWindow) (id : CycleId) (k : ℕ)
    → Inv w
    → w.inserted + 1 + k < u64_mod
    → k < window_size
    → (offer w id).1 ≡ true
    → Holds (offer w id).0 id w.inserted k
offered-Holds w id k v small short ok = elim (Bool-cases (Map.has id w.seen)) [
  | inl known ↦ absurd (ground (arith, offer_known w id known))
  | inr new ↦
      let (found, grown) = put_self w id (omega arith) in
      rw (offer_new w id new)
        (put-Inv w id v (omega arith), omega (arith, grown), omega (arith, grown), found)
]

admitted-Holds :
    (w : SourceWindow) (id : CycleId) (k : ℕ)
    → Inv w
    → w.inserted + 1 + k < u64_mod
    → k < window_size
    → (admit_window w id.target id.nano).1 ≡ true
    → Holds (admit_window w id.target id.nano).0 id w.inserted k
admitted-Holds w id k v small short ok =
    let (table, same, named) = admit_window_lem w id.target id.nano v.named in
    subst (λ r. Holds r.0 id w.inserted k) (sym same)
      (offered-Holds (record w { names = table }) id k (with_names w table v named) small short
        (rw same at ok))

refused_of_Holds :
    (w : SourceWindow) (id : CycleId) (p k : ℕ)
    → Holds w id p k
    → (admit_window w id.target id.nano).1 ≡ false
refused_of_Holds w id p k (v, _, _, h) =
    let (table, same, named) = admit_window_lem w id.target id.nano v.named in
    rw same
      (ap (λ r. r.1) (offer_known (record w { names = table }) id (Map.lookup-has id p w.seen h)))

-- An identity that a window admitted is refused for as long as fewer than `window_size` (1024)
-- operations on the window follow, whatever they are, unless one of them releases that identity; the
-- count of insertions is assumed to stay below 2 ^ 64.
pub redelivery_refused :
    (w : SourceWindow) (id : CycleId) (ops : List Op)
    → Inv w
    → w.inserted + 1 + length ops < u64_mod
    → length ops < window_size
    → All (λ op. op ≢ forgets id) ops
    → (admit_window w id.target id.nano).1 ≡ true
    → (admit_window (run (admit_window w id.target id.nano).0 ops) id.target id.nano).1 ≡ false
redelivery_refused w id ops v small short other ok = refused_of_Holds _ id w.inserted 0 (
    run-Holds ops _ id w.inserted 0 other
      (rw add-zero (admitted-Holds w id (length ops) v small short ok)))

-- An identity that a window releases is admitted at the next offer, and takes a slot of its own.
pub released_admitted :
    (w : SourceWindow) (id : CycleId)
    → Inv w
    → w.inserted + 1 < u64_mod
    → let r = admit_window (forget_window w id.target id.nano) id.target id.nano in
      (r.1 ≡ true) × (Map.lookup id r.0.seen ≡ some w.inserted)
unfolding forget_window
released_admitted w id v small =
    let w' = forget_window w id.target id.nano in
    let v' = forget_window-Inv w id.target id.nano v in
    let (table, same, named) = admit_window_lem w' id.target id.nano v'.named in
    let gone : Map.has id w'.seen ≡ false =
      Map.lookup-has_not id _ (Map.lookup-delete_self id w.seen) in
    rw same (
      rw (offer_new (record w' { names = table }) id gone)
        (refl, (put_self (record w' { names = table }) id small).0))
