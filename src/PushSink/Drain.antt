-- ===== src/PushSink/Drain.antt =====
-- Drain: the oldest cycles leave in order, and what they were charged is given back.
use native.Mathlib.Nat.{mod-lt, mod-mod, add-zero}
use smokeping_go.Common.{
  Pairwise, str_beq, str_beq_iff, false, true, Bool, subst, ℕ, zero, suc, ◌+◌, ◌-◌, ◌%◌, ◌≤◌, ◌<◌,
  ◌≡◌, refl, sym, ap, ap₂, subst, ◌∙◌, inl, inr, ◌&&◌, List, [], ◌∷◌, ◌++◌, map, arith, ltb,
  nat_beq, nat_beq_iff, if◌then◌else◌, Bool-cases, length, take, drop, set, All, length-set,
}
use smokeping_go.Cluster.{CyclePayload}
use smokeping_go.PushSink.{
  PushSink, zero_payload, read, at, slot, payload_heap_bytes, heap_of, outgoing, drain_loop, drain,
  shrink_if_idle, total,
}
use smokeping_go.PushSink.Ring.{
  length-read, read-add, read-cong, read-set_outside, slots_apart, take-append,
}
use smokeping_go.PushSink.Entries.{entries, Hopless, heap_of-append}
use smokeping_go.PushSink.Grow.{shrink_if_idle-Moved}
use smokeping_go.SlaveHealth.{health_group, is_health_group}
use smokeping_go.PushSink.Store.{Withheld, Ready}

-- What the copying loop does to the entries from offset `i` on.
record Copied (n i : ℕ) (p q : PushSink) (out : List CyclePayload) : Type 0 where
  copies : out ≡ map (outgoing p.hop_markers) (read p.buf (p.head + i) n)
  paid : q.heap + heap_of (read p.buf (p.head + i) n) ≡ p.heap
  capacity : length q.buf ≡ length p.buf
  beyond :
      (m : ℕ)
      → i + n + m ≤ length p.buf
      → read q.buf (p.head + (i + n)) m ≡ read p.buf (p.head + (i + n)) m
  rest : q ≡ record p { heap = q.heap; buf = q.buf }

-- The first entry of the loop, out of the way of those behind it.
module _ (i m : ℕ) (p : PushSink) (fits : i + 1 + m ≤ length p.buf) where
  cleared : PushSink
  cleared = record p {
    heap = p.heap - payload_heap_bytes (at p i);
    buf = set p.buf (slot p i) zero_payload;
  }

  -- What stands behind a cleared slot is untouched.
  behind :
      (j k : ℕ)
      → i < j
      → j + k ≤ i + 1 + m
      → read (set p.buf (slot p i) zero_payload) (p.head + j) k ≡ read p.buf (p.head + j) k
  behind j k lt le = read-set_outside p.buf (p.head + j) k (slot p i) zero_payload (λ l below e.
      slots_apart p.head i (j + l) (length p.buf) (omega arith) (omega arith)
        (e ∙ ap (λ t. t % length p.buf) (omega arith)))

  tail_same :
      read (set p.buf (slot p i) zero_payload) (p.head + (i + 1)) m ≡ read p.buf (p.head + i + 1) m
  tail_same = behind (i + 1) m (omega arith) (omega arith) ∙ ap (λ t. read p.buf t m) (omega arith)

Copied-more :
    (n i : ℕ) (p q : PushSink) (out : List CyclePayload) (fits : i + 1 + n ≤ length p.buf)
    → payload_heap_bytes (at p i) ≤ p.heap
    → Copied n (i + 1) (cleared i n p fits) q out
    → Copied (suc n) i p q (outgoing p.hop_markers (at p i) ∷ out)
unfolding read heap_of cleared
Copied-more n i p q out fits afford c = record {
  copies =
      ap (◌∷◌ (outgoing p.hop_markers (at p i)))
        (c.copies ∙ ap (map (outgoing p.hop_markers)) (tail_same i n p fits));
  paid = omega (arith, c.paid, ap heap_of (tail_same i n p fits));
  capacity = c.capacity ∙ length-set p.buf (slot p i) zero_payload;
  beyond = λ m h.
      ap (λ t. read q.buf (p.head + t) m) (omega arith)
      ∙ c.beyond m (rw (length-set p.buf (slot p i) zero_payload) (omega arith))
      ∙ behind i (n + m) p (omega arith) (i + 1 + n) m (omega arith) (omega arith)
      ∙ ap (λ t. read p.buf (p.head + t) m) (omega arith);
  rest = c.rest;
}

drain_loop-Copied :
    (n i : ℕ) (p : PushSink)
    → i + n ≤ length p.buf
    → heap_of (read p.buf (p.head + i) n) ≤ p.heap
    → Copied n i p (drain_loop n i p).0 (drain_loop n i p).1
unfolding drain_loop read heap_of cleared
drain_loop-Copied zero i p fits paid = record {
  copies = refl;
  paid = omega arith;
  capacity = refl;
  beyond = λ m h. refl;
  rest = refl;
}
drain_loop-Copied (suc n) i p fits paid = Copied-more n i p _ _ (omega arith) (omega arith) (
    drain_loop-Copied n (i + 1) (cleared i n p (omega arith))
      (rw (length-set p.buf (slot p i) zero_payload) (omega arith))
      (omega (arith, paid, ap heap_of (tail_same i n p (omega arith)))))

-- How many cycles a drain takes.
unfoldable pub batch_size : PushSink → ℕ → ℕ
batch_size p limit = if ltb 0 limit && ltb limit p.size then limit else p.size

batch_size-le : (p : PushSink) (limit : ℕ) → batch_size p limit ≤ p.size
unfolding batch_size
batch_size-le p limit = ground arith

-- The ring after the loop, before it may shrink.
module _ (p : PushSink) (r : Ready p) (n : ℕ) (le : n ≤ p.size) where
  taken : PushSink
  taken =
      let q = (drain_loop n 0 p).0 in
      record q {
        head = (q.head + n) % length q.buf;
        size = q.size - n;
        strip_idx = q.strip_idx - n;
      }

  halves : entries p ≡ read p.buf p.head n ++ read p.buf (p.head + n) (p.size - n)
  halves = ap (read p.buf p.head) (omega arith) ∙ read-add p.buf p.head n (p.size - n)

  copied : Copied n 0 p (drain_loop n 0 p).0 (drain_loop n 0 p).1
  copied = drain_loop-Copied n 0 p (omega (arith, r.inv.within)) (
      rw (add-zero p.head) (
        omega (
          arith,
          r.inv.counted,
          ap heap_of halves,
          heap_of-append (read p.buf p.head n) (read p.buf (p.head + n) (p.size - n)),
        )))

  entries-taken : entries taken ≡ read p.buf (p.head + n) (p.size - n)
  unfolding taken
  entries-taken =
      ap₂ (λ h m. read q.buf ((h + n) % length q.buf) (m - n)) same_head same_size
      ∙ read-cong q.buf ((p.head + n) % length q.buf) (p.head + n) (p.size - n)
          (mod-mod (p.head + n) (length q.buf))
      ∙ ap (λ t. read q.buf t (p.size - n)) (omega arith)
      ∙ copied.beyond (p.size - n) (omega (arith, r.inv.within))
      ∙ ap (λ t. read p.buf t (p.size - n)) (omega arith)
    where
      q : PushSink
      q = (drain_loop n 0 p).0

      same_head : q.head ≡ p.head
      same_head = ap (λ x. x.head) copied.rest

      same_size : q.size ≡ p.size
      same_size = ap (λ x. x.size) copied.rest

  taken-heap : taken.heap ≡ heap_of (read p.buf (p.head + n) (p.size - n))
  unfolding taken
  taken-heap = omega (
    arith,
    copied.paid,
    ap (λ t. heap_of (read p.buf t n)) (add-zero p.head),
    r.inv.counted,
    ap heap_of halves,
    heap_of-append (read p.buf p.head n) (read p.buf (p.head + n) (p.size - n)),
  )

  later_shed :
      (xs ys : List CyclePayload) (i : ℕ)
      → All Hopless (take i (xs ++ ys))
      → All Hopless (take (i - length xs) ys)
  later_shed [] ys i h = subst (λ m. All Hopless (take m ys)) (omega arith) h
  later_shed (x ∷ xs) ys zero h = subst (λ m. All Hopless (take m ys)) {x = 0} (omega arith) tt
  later_shed (x ∷ xs) ys (suc i) h =
      subst (λ m. All Hopless (take m ys)) (omega arith) (later_shed xs ys i h.1)

  taken-Ready : Ready taken
  taken-Ready = record {
    inv = record {
      room = unfold taken in rw copied.capacity r.inv.room;
      within = unfold taken in omega (arith, copied.capacity, same_size, r.inv.within);
      headed = unfold taken in mod-lt (_ + n) (rw copied.capacity r.inv.room);
      counted = taken-heap ∙ ap heap_of (sym entries-taken);
      shed =
          subst (λ es. All Hopless (take taken.strip_idx es)) (sym entries-taken)
            (unfold taken in
              subst (λ m. All Hopless (take m (read p.buf (p.head + n) (p.size - n))))
                (omega (arith, length-read p.buf p.head n, ap (λ x. x.strip_idx) copied.rest))
                (later_shed (read p.buf p.head n) _ p.strip_idx
                  (subst (λ es. All Hopless (take p.strip_idx es)) halves r.inv.shed)));
    };
    placed = unfold taken in omega (arith, r.placed, same_size, ap (λ x. x.strip_idx) copied.rest);
  }
    where
      same_size : (drain_loop n 0 p).0.size ≡ p.size
      same_size = ap (λ x. x.size) copied.rest

outgoing-Withheld : (markers : Bool) (e : CyclePayload) → Withheld markers e (outgoing markers e)
unfolding outgoing is_health_group
outgoing-Withheld true e = record {
  others_same = refl;
  hidden = λ g off. absurd (ground (arith, off));
  shown = λ any. refl;
}
outgoing-Withheld false e = elim (Bool-cases (str_beq e.group health_group)) [
  | inl health ↦ rw health (record {
    others_same = refl;
    hidden = λ g off. refl;
    shown = λ any. elim any [
      | inl other ↦ absurd (other ((str_beq_iff e.group health_group).0 health))
      | inr on ↦ absurd (ground (arith, on))
    ];
  })
  | inr other ↦ rw other (record {
    others_same = refl;
    hidden = λ g off. absurd (ground (arith, (str_beq_iff e.group health_group).1 g, other));
    shown = λ any. refl;
  })
]

Pairwise-outgoing :
    (markers : Bool) (es : List CyclePayload)
    → Pairwise (Withheld markers) es (map (outgoing markers) es)
Pairwise-outgoing markers [] = tt
Pairwise-outgoing markers (e ∷ es) = (outgoing-Withheld markers e, Pairwise-outgoing markers es)

redacted_by :
    (markers : Bool) (es out : List CyclePayload)
    → out ≡ map (outgoing markers) es
    → Pairwise (Withheld markers) es out
redacted_by markers es out sent =
    subst (Pairwise (Withheld markers) es) (sym sent) (Pairwise-outgoing markers es)

-- What a drain gives: the `n` oldest cycles in order, as they may go on the wire, and a ring that
-- holds the others.
pub record Drained (n : ℕ) (p q : PushSink) (out : List CyclePayload) : Type 0 where
  pub ready : Ready q
  pub sent : out ≡ map (outgoing p.hop_markers) (take n (entries p))
  pub redacted : Pairwise (Withheld p.hop_markers) (take n (entries p)) out
  pub remaining : entries q ≡ drop n (entries p)
  pub no_larger : total q ≤ total p
  pub same_budget : q.budget ≡ p.budget

drop-append : (xs ys : List CyclePayload) → drop (length xs) (xs ++ ys) ≡ ys
drop-append [] ys = refl
drop-append (x ∷ xs) ys = drop-append xs ys

module _ (p : PushSink) (r : Ready p) (n : ℕ) (le : n ≤ p.size) where
  first_half : take n (entries p) ≡ read p.buf p.head n
  first_half =
      ap₂ take (sym (length-read p.buf p.head n)) (halves p r n le)
      ∙ take-append (read p.buf p.head n) _

  second_half : drop n (entries p) ≡ read p.buf (p.head + n) (p.size - n)
  second_half =
      ap₂ drop (sym (length-read p.buf p.head n)) (halves p r n le)
      ∙ drop-append (read p.buf p.head n) _

  total-taken : total (taken p r n le) ≤ total p
  unfolding taken
  total-taken = omega (arith, (copied p r n le).paid, (copied p r n le).capacity)

  copies_sent : (drain_loop n 0 p).1 ≡ map (outgoing p.hop_markers) (take n (entries p))
  copies_sent =
      (copied p r n le).copies
      ∙ ap (λ t. map (outgoing p.hop_markers) (read p.buf t n)) (add-zero p.head)
      ∙ ap (map (outgoing p.hop_markers)) (sym first_half)

  finished : Drained n p (shrink_if_idle (taken p r n le)) (drain_loop n 0 p).1
  finished =
      let (m, less) = shrink_if_idle-Moved (taken p r n le) (taken-Ready p r n le).inv in
      record {
        ready = record {
          inv = m.inv;
          placed = omega (arith, (taken-Ready p r n le).placed, m.same_place, m.same_size);
        };
        sent = copies_sent;
        redacted = redacted_by p.hop_markers (take n (entries p)) _ copies_sent;
        remaining = m.same_entries ∙ entries-taken p r n le ∙ sym second_half;
        no_larger = omega (arith, total-taken, m.same_heap, less);
        same_budget = m.same_budget ∙ (unfold taken in ap (λ x. x.budget) (copied p r n le).rest);
      }

-- Drain takes the oldest cycles, as many as its limit allows (all of them for a limit of 0), hands
-- them out in order with a health target's hops withheld where the master has no markers, and keeps
-- the others; the accounted bytes do not grow.
pub drain-Drained :
    (p : PushSink) (limit : ℕ)
    → Ready p
    → Drained (batch_size p limit) p (drain p limit).0 (drain p limit).1
unfolding drain batch_size taken
drain-Drained p limit r = elim (Bool-cases (nat_beq p.size 0)) [
  | inl none_left ↦
      let e = (nat_beq_iff p.size 0).0 none_left in
      rw none_left (record {
        ready = r;
        sent = nothing_sent (batch_size p limit) (omega (arith, batch_size-le p limit));
        redacted =
            redacted_by p.hop_markers _ _
              (nothing_sent (batch_size p limit) (omega (arith, batch_size-le p limit)));
        remaining = ap (λ m. drop m (entries p)) {x = 0} (omega (arith, batch_size-le p limit));
        no_larger = omega arith;
        same_budget = refl;
      })
  | inr some_left ↦ rw some_left (finished p r (batch_size p limit) (batch_size-le p limit))
]
  where
    nothing_sent :
        (n : ℕ)
        → n ≡ 0
        → ◌≡◌ {A = List CyclePayload} [] (map (outgoing p.hop_markers) (take n (entries p)))
    nothing_sent n e = rw e
