-- ===== src/PushSink/Strip.antt =====
-- stripOldestHops: it sheds the hops of the oldest cycle that carries any, and keeps its measurement.
use smokeping_go.Common.{
  ℕ, zero, suc, ◌+◌, ◌-◌, ◌≤◌, ◌<◌, ◌≡◌, ◌≢◌, refl, sym, ap, subst, ◌∙◌, inl, inr, Bool, true,
  false, map, arith, nat_beq, Bool-cases, length, get_or, set, take, All, length-set,
}
use smokeping_go.PushSink.{
  PushSink, zero_payload, read, hop_bytes, heap_of, at, slot, strip_at, strip_walk,
  strip_oldest_hops,
}
use smokeping_go.PushSink.Ring.{read-set, length-read, get_or-read}
use smokeping_go.PushSink.Entries.{
  entries, measured, bare, map-bare-set, Hopless, hopful, Inv, bytes_measured, heap_of-set,
  hopful-set, map-measured-set, shed_next, shed_set, All_of_take,
}

-- What the reclaim loop does not touch.
pub record SameFrame (p q : PushSink) : Type 0 where
  pub capacity : length q.buf ≡ length p.buf
  pub same_budget : q.budget ≡ p.budget
  pub same_markers : q.hop_markers ≡ p.hop_markers

-- A pass that stripped.
pub record Stripped (p q : PushSink) : Type 0 where
  pub inv : Inv q
  pub frame : SameFrame p q
  pub same_size : q.size ≡ p.size
  pub placed : q.strip_idx ≤ q.size
  pub place : ℕ
  pub older : All Hopless (take place (entries p))
  pub rewritten :
      entries q ≡ set (entries p) place (measured (get_or (entries p) place zero_payload))
  pub less : hopful (entries q) + 1 ≡ hopful (entries p)
  pub kept : map measured (entries q) ≡ map measured (entries p)
  pub bare_kept : map bare (entries q) ≡ map bare (entries p)

entries-strip_at :
    (p : PushSink)
    → Inv p
    → p.strip_idx < p.size
    → entries (strip_at p)
      ≡ set (entries p) p.strip_idx (measured (get_or (entries p) p.strip_idx zero_payload))
unfolding strip_at
entries-strip_at p v lt =
    ap (λ e. read (set p.buf (slot p p.strip_idx) (measured e)) p.head p.size)
      (sym (get_or-read p.buf p.head p.size p.strip_idx lt))
    ∙ read-set p.buf p.head p.size p.strip_idx _ v.within lt

module _ (p : PushSink) (v : Inv p) (lt : p.strip_idx < p.size) where
  here : at p p.strip_idx ≡ get_or (entries p) p.strip_idx zero_payload
  here = sym (get_or-read p.buf p.head p.size p.strip_idx lt)

  inside : p.strip_idx < length (entries p)
  inside = rw (length-read p.buf p.head p.size) lt

  charge : (strip_at p).heap ≡ p.heap - hop_bytes (at p p.strip_idx).hops
  unfolding strip_at
  charge = refl

  heap-strip_at : (strip_at p).heap ≡ heap_of (entries (strip_at p))
  heap-strip_at = omega (
    arith,
    charge,
    ap (λ e. hop_bytes e.hops) here,
    v.counted,
    ap heap_of (entries-strip_at p v lt),
    heap_of-set (entries p) p.strip_idx (measured (get_or (entries p) p.strip_idx zero_payload))
        inside,
    bytes_measured (get_or (entries p) p.strip_idx zero_payload),
  )

  strip_at-Stripped : length (at p p.strip_idx).hops.items ≢ 0 → Stripped p (strip_at p)
  unfolding strip_at
  strip_at-Stripped n = record {
    inv = record {
      room = rw (length-set p.buf (slot p p.strip_idx) (measured (at p p.strip_idx))) v.room;
      within = rw (length-set p.buf (slot p p.strip_idx) (measured (at p p.strip_idx))) v.within;
      headed = rw (length-set p.buf (slot p p.strip_idx) (measured (at p p.strip_idx))) v.headed;
      counted = heap-strip_at;
      shed =
          subst (λ es. All Hopless (take (p.strip_idx + 1) es)) (sym (entries-strip_at p v lt))
            (shed_set (entries p) p.strip_idx _ v.shed refl);
    };
    frame = record {
      capacity = length-set p.buf (slot p p.strip_idx) (measured (at p p.strip_idx));
      same_budget = refl;
      same_markers = refl;
    };
    same_size = refl;
    placed = omega arith;
    place = p.strip_idx;
    older = v.shed;
    rewritten = entries-strip_at p v lt;
    less =
        ap (λ es. hopful es + 1) (entries-strip_at p v lt)
        ∙ hopful-set (entries p) p.strip_idx inside
            (λ e. n (ap (λ x. length x.hops.items) here ∙ e));
    kept = ap (map measured) (entries-strip_at p v lt) ∙ map-measured-set (entries p) p.strip_idx;
    bare_kept =
        ap (map bare) (entries-strip_at p v lt)
        ∙ map-bare-set (entries p) p.strip_idx (λ e. n (ap (λ x. length x.hops.items) here ∙ e));
  }

  skip-Inv : Hopless (at p p.strip_idx) → Inv (record p { strip_idx = p.strip_idx + 1 })
  skip-Inv h = record {
    room = v.room;
    within = v.within;
    headed = v.headed;
    counted = v.counted;
    shed = shed_next (entries p) p.strip_idx v.shed (subst Hopless here h);
  }

-- Nothing was left to strip: only the walk's place moved.
pub record Exhausted (p q : PushSink) : Type 0 where
  pub inv : Inv q
  pub same : q ≡ record p { strip_idx = q.strip_idx }
  pub hopless : All Hopless (entries p)
  pub placed : p.strip_idx ≤ p.size → q.strip_idx ≤ q.size

pub data Walked (p : PushSink) : PushSink × Bool → Type 0 where
  stripped : (q : PushSink) → Stripped p q → Walked p (q, true)
  exhausted : (q : PushSink) → Exhausted p q → Walked p (q, false)

skipped :
    (p : PushSink) (r : PushSink × Bool)
    → p.strip_idx < p.size
    → Walked (record p { strip_idx = p.strip_idx + 1 }) r
    → Walked p r
skipped p r lt (stripped q s) = stripped q (record {
  inv = s.inv;
  frame = record {
    capacity = s.frame.capacity;
    same_budget = s.frame.same_budget;
    same_markers = s.frame.same_markers;
  };
  same_size = s.same_size;
  placed = s.placed;
  place = s.place;
  older = s.older;
  rewritten = s.rewritten;
  less = s.less;
  kept = s.kept;
  bare_kept = s.bare_kept;
})
skipped p r lt (exhausted q x) = exhausted q (record {
  inv = x.inv;
  same = x.same;
  hopless = x.hopless;
  placed = λ _. x.placed (omega arith);
})

walk-Walked :
    (fuel : ℕ) (p : PushSink) → Inv p → fuel ≡ p.size - p.strip_idx → Walked p (strip_walk fuel p)
unfolding strip_walk
walk-Walked zero p v e = exhausted p (record {
  inv = v;
  same = refl;
  hopless =
      All_of_take (entries p) p.strip_idx (rw (length-read p.buf p.head p.size) (omega arith))
        v.shed;
  placed = λ h. h;
})
walk-Walked (suc fuel) p v e =
    elim (Bool-cases (nat_beq (length (at p p.strip_idx).hops.items) 0)) [
      | inl none_here ↦ rw none_here (
          skipped p (strip_walk fuel (record p { strip_idx = p.strip_idx + 1 })) (omega arith) (
            walk-Walked fuel (record p { strip_idx = p.strip_idx + 1 })
              (skip-Inv p v (omega arith) (ground arith)) (omega arith)))
      | inr some_here ↦
          rw some_here
            (stripped (strip_at p) (strip_at-Stripped p v (omega arith) (λ h. ground arith)))
    ]

-- The walk strips the oldest cycle that carries hops, or finds that none does.
pub strip_oldest_hops-Walked : (p : PushSink) → Inv p → Walked p (strip_oldest_hops p)
unfolding strip_oldest_hops
strip_oldest_hops-Walked p v = walk-Walked (p.size - p.strip_idx) p v refl
