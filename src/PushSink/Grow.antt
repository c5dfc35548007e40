-- ===== src/PushSink/Grow.antt =====
-- resize, growFor and shrinkIfIdle: the array changes, the buffered cycles do not.
use smokeping_go.Common.{
  ℕ, ◌+◌, ◌-◌, ◌*◌, ◌≤◌, ◌<◌, ◌≡◌, refl, sym, ap, subst, ◌∙◌, inl, inr, ◌++◌, arith, ltb, leb,
  nat_beq, Bool-cases, length, take, All, replicate, length-append, length-replicate, nat_beq_iff,
  ltb→lt,
}
use smokeping_go.PushSink.{
  PushSink, zero_payload, read, heap_of, double_until, entries_for, resize, grow_for,
  shrink_if_idle, initial_ring_entries,
}
use smokeping_go.PushSink.Ring.{length-read, read_front}
use smokeping_go.PushSink.Entries.{entries, Hopless, Inv}
use smokeping_go.PushSink.Room.{
  double_until-ge, double_until-have_le, entries_for-ge, entries_for-have_le,
}

-- The same cycles in another array.
pub record Moved (p q : PushSink) : Type 0 where
  pub inv : Inv q
  pub same_entries : entries q ≡ entries p
  pub same_size : q.size ≡ p.size
  pub same_place : q.strip_idx ≡ p.strip_idx
  pub same_heap : q.heap ≡ p.heap
  pub same_budget : q.budget ≡ p.budget
  pub same_markers : q.hop_markers ≡ p.hop_markers

unmoved : (p : PushSink) → Inv p → Moved p p
unmoved p v = record {
  inv = v;
  same_entries = refl;
  same_size = refl;
  same_place = refl;
  same_heap = refl;
  same_budget = refl;
  same_markers = refl;
}

length-resize : (p : PushSink) (n : ℕ) → p.size ≤ n → length (resize p n).buf ≡ n
unfolding resize
length-resize p n h = omega (
  arith,
  length-append (read p.buf p.head p.size) (replicate (n - p.size) zero_payload),
  length-read p.buf p.head p.size,
  length-replicate (n - p.size) zero_payload,
)

entries-resize : (p : PushSink) (n : ℕ) → entries (resize p n) ≡ entries p
unfolding resize
entries-resize p n =
    ap (read (entries p ++ replicate (n - p.size) zero_payload) 0)
      (sym (length-read p.buf p.head p.size))
    ∙ read_front (entries p) (replicate (n - p.size) zero_payload)

resize-Moved : (p : PushSink) (n : ℕ) → Inv p → 0 < n → p.size ≤ n → Moved p (resize p n)
resize-Moved p n v pos h = record {
  inv = record {
    room = rw (length-resize p n h) pos;
    within = rw (length-resize p n h) (unfold resize in h);
    headed = rw (length-resize p n h) (unfold resize in pos);
    counted = unfold resize in v.counted ∙ ap heap_of (sym (entries-resize p n));
    shed =
        unfold resize in
        subst (λ es. All Hopless (take p.strip_idx es)) (sym (entries-resize p n)) v.shed;
  };
  same_entries = entries-resize p n;
  same_size = unfold resize in refl;
  same_place = unfold resize in refl;
  same_heap = unfold resize in refl;
  same_budget = unfold resize in refl;
  same_markers = unfold resize in refl;
}

-- Growing gives the ring the size that `fits` reckoned with, which holds `n` more entries.
pub grow_for-Moved :
    (p : PushSink) (n : ℕ)
    → Inv p
    → Moved p (grow_for p n)
      × (length (grow_for p n).buf ≡ entries_for (length p.buf) p.size n)
      × (p.size + n ≤ length (grow_for p n).buf)
unfolding grow_for
grow_for-Moved p n v =
    elim (Bool-cases (nat_beq (entries_for (length p.buf) p.size n) (length p.buf))) [
      | inl same ↦
          let e = (nat_beq_iff _ _).0 same in rw same (unmoved p v, sym e, omega (arith, e, holds))
      | inr other ↦
          let capacity =
            length-resize p (entries_for (length p.buf) p.size n) (omega (arith, holds)) in
          rw other (
            resize-Moved p (entries_for (length p.buf) p.size n) v (omega (arith, v.room, grown))
                (omega (arith, holds)),
            capacity,
            omega (arith, capacity, holds),
          )
    ]
  where
    holds : p.size + n ≤ entries_for (length p.buf) p.size n
    holds = entries_for-ge (length p.buf) p.size n v.room

    grown : length p.buf ≤ entries_for (length p.buf) p.size n
    grown = entries_for-have_le (length p.buf) p.size n

-- Shrinking keeps the buffered cycles, and never makes the ring larger.
pub shrink_if_idle-Moved :
    (p : PushSink)
    → Inv p
    → Moved p (shrink_if_idle p) × (length (shrink_if_idle p).buf ≤ length p.buf)
unfolding shrink_if_idle
shrink_if_idle-Moved p v = elim (Bool-cases (leb (length p.buf) initial_ring_entries)) [
  | inl small ↦ rw small (unmoved p v, omega arith)
  | inr large ↦ rw large (elim (Bool-cases (leb (length p.buf) (p.size * 4))) [
    | inl busy ↦ rw busy (unmoved p v, omega arith)
    | inr idle ↦ rw idle (elim (Bool-cases (ltb target (length p.buf))) [
      | inl less ↦ rw less (
        resize-Moved p target v (omega (arith, room)) (omega (arith, holds)),
        rw (length-resize p target (omega (arith, holds))) (omega (arith, ltb→lt _ _ less)),
      )
      | inr same ↦ rw same (unmoved p v, omega arith)
    ])
  ])
]
  where
    target : ℕ
    target = double_until (p.size * 2) initial_ring_entries (p.size * 2)

    holds : p.size * 2 ≤ target
    holds =
        double_until-ge (p.size * 2) initial_ring_entries (p.size * 2) (omega arith) (omega arith)

    room : initial_ring_entries ≤ target
    room = double_until-have_le (p.size * 2) initial_ring_entries (p.size * 2)
