-- ===== src/PushSink/Requeue.antt =====
-- Requeue: a batch that could not be pushed goes back ahead of the cycles that came after it.
use native.Mathlib.Nat.{mod-lt, mod-mod, mod-add-mod, add-mod_right}
use smokeping_go.Common.{
  ℕ, suc, ◌+◌, ◌-◌, ◌*◌, ◌%◌, ◌≤◌, ◌<◌, ◌≡◌, refl, sym, ap, ap₂, ◌∙◌, ◌⊎◌, inl, inr, true, List, [],
  ◌∷◌, ◌++◌, map, arith, leb→le, length, set, get_or, All, length-set,
}
use smokeping_go.Cluster.{CyclePayload}
use smokeping_go.PushSink.{
  PushSink, zero_payload, read, heap_of, payload_struct_bytes, entries_for, fits, drop_newest,
  grow_for, make_room, report, prepend, requeue_batch, requeue, total,
}
use smokeping_go.PushSink.Ring.{read-cong, read-set_outside, slots_apart, get_or-set_self}
use smokeping_go.PushSink.Entries.{entries, measured, bare, Hopless, heap_of-append}
use smokeping_go.PushSink.Cuts.{from_back, drop_back}
use smokeping_go.PushSink.Room.{Made, needs, make_room_back}
use smokeping_go.PushSink.Grow.{Moved, grow_for-Moved}
use smokeping_go.PushSink.Store.{Ready}

-- What the loop of Requeue does.
record Prepended (es : List CyclePayload) (p q : PushSink) : Type 0 where
  contents : entries q ≡ es ++ entries p
  larger : q.size ≡ p.size + length es
  capacity : length q.buf ≡ length p.buf
  headed : q.head < length q.buf
  rest : q ≡ record p { head = q.head; buf = q.buf; size = q.size }

-- The slot in front of the head.
abbrev before : PushSink → ℕ
before q = (q.head + length q.buf - 1) % length q.buf

module _ (q : PushSink) (e : CyclePayload) (room : q.size < length q.buf) where
  back_one : ((before q) + 1) % length q.buf ≡ q.head % length q.buf
  back_one =
      mod-add-mod (q.head + length q.buf - 1) (length q.buf) 1
      ∙ ap (λ t. t % length q.buf) (omega arith)
      ∙ add-mod_right q.head (length q.buf)

  entries-prepend_one : read (set q.buf (before q) e) (before q) (q.size + 1) ≡ e ∷ entries q
  unfolding read
  entries-prepend_one =
      ap (read (set q.buf (before q) e) (before q)) {y = suc q.size} (omega arith)
      ∙ ap₂ ◌∷◌ newest behind
    where
      newest :
          get_or
            (set q.buf (before q) e)
            ((before q) % length (set q.buf (before q) e))
            zero_payload
          ≡ e
      newest = rw (length-set q.buf (before q) e) (
          ap (λ t. get_or (set q.buf (before q) e) t zero_payload)
            (mod-mod (q.head + length q.buf - 1) (length q.buf))
          ∙ get_or-set_self q.buf (before q) e zero_payload (mod-lt _ (omega arith)))

      behind : read (set q.buf (before q) e) ((before q) + 1) q.size ≡ entries q
      behind =
          read-cong (set q.buf (before q) e) ((before q) + 1) q.head q.size
            (rw (length-set q.buf (before q) e) back_one)
          ∙ read-set_outside q.buf q.head q.size (before q) e (λ k lt same.
            slots_apart q.head k (length q.buf - 1) (length q.buf) (omega arith) (omega arith)
              (sym same ∙ (ap (λ t. t % length q.buf) (omega arith))))

prepend-Prepended :
    (es : List CyclePayload) (p : PushSink)
    → p.head < length p.buf
    → p.size + length es ≤ length p.buf
    → Prepended es p (prepend es p)
unfolding prepend
prepend-Prepended [] p h room = record {
  contents = refl;
  larger = omega arith;
  capacity = refl;
  headed = h;
  rest = refl;
}
prepend-Prepended (e ∷ es) p h room =
    let c = prepend-Prepended es p h (omega arith) in
    let q = prepend es p in
    let fits : q.size < length q.buf = omega (arith, c.larger, c.capacity) in
    record {
      contents = (entries-prepend_one q e fits) ∙ ap (◌∷◌ e) c.contents;
      larger = omega (arith, c.larger);
      capacity = length-set q.buf _ e ∙ c.capacity;
      headed =
          rw (length-set q.buf ((q.head + length q.buf - 1) % length q.buf) e)
            (mod-lt _ (omega arith));
      rest =
          ap {A = PushSink}
            (λ x. record x {
              head = (q.head + length q.buf - 1) % length q.buf;
              buf = set q.buf ((q.head + length q.buf - 1) % length q.buf) e;
              size = q.size + 1;
            })
            c.rest;
    }

-- What Requeue does with a batch: it stands first, in its order and whole; behind it stand the cycles
-- that came since, of which the `lost` newest were dropped; a cycle is dropped only if no survivor of
-- those carries hops; and the bytes are within the budget, but for a batch that is alone.
pub record Requeued (p q : PushSink) (batch : List CyclePayload) : Type 0 where
  pub ready : Ready q
  pub survivors : List CyclePayload
  pub lost : ℕ
  pub contents : entries q ≡ batch ++ survivors
  pub kept : map measured survivors ≡ drop_back lost (map measured (entries p))
  pub last_resort : 0 < lost → All Hopless survivors
  pub needed :
      (k : ℕ)
      → lost ≡ suc k
      → p.budget
        < needs
            (length p.buf)
            (p.size - k)
            (heap_of (drop_back k (map bare (entries p))))
            (heap_of batch)
            (length batch)
  pub untouched :
      needs (length p.buf) p.size p.heap (heap_of batch) (length batch) ≤ p.budget
      → survivors ≡ entries p
  pub in_budget : (total q ≤ q.budget) ⊎ (survivors ≡ [])

module _ (p : PushSink) (batch : List CyclePayload) (r : Ready p) where
  mid : PushSink
  mid = make_room p (heap_of batch) (length batch) drop_newest

  made : Made from_back p mid (heap_of batch) (length batch)
  unfolding mid
  made = make_room_back p (heap_of batch) (length batch) r.inv

  grown : PushSink
  grown = grow_for mid (length batch)

  grown-Moved :
      Moved mid grown
      × (length grown.buf ≡ entries_for (length mid.buf) mid.size (length batch))
      × (mid.size + length batch ≤ length grown.buf)
  unfolding grown
  grown-Moved = grow_for-Moved mid (length batch) made.inv

  front : Prepended batch grown (prepend batch grown)
  front =
      let (m, _, room) = grown-Moved in
      prepend-Prepended batch grown m.inv.headed (omega (arith, m.same_size, room))

  same_heap : (prepend batch grown).heap ≡ mid.heap
  same_heap = ap (λ x. x.heap) front.rest ∙ grown-Moved.0.same_heap

  same_budget : (prepend batch grown).budget ≡ mid.budget
  same_budget = ap (λ x. x.budget) front.rest ∙ grown-Moved.0.same_budget

  contents : entries (prepend batch grown) ≡ batch ++ entries mid
  contents = front.contents ∙ ap (◌++◌ batch) grown-Moved.0.same_entries

  empty : mid.size ≡ 0 → entries mid ≡ []
  unfolding read
  empty h = rw h

  spent :
      fits mid (heap_of batch) (length batch) ≡ true
      → length (prepend batch grown).buf * payload_struct_bytes
          + ((prepend batch grown).heap + heap_of batch)
        ≤ (prepend batch grown).budget
  unfolding fits
  spent h =
      let (m, capacity, room) = grown-Moved in
      omega (arith, leb→le _ _ h, capacity, front.capacity, same_heap, same_budget)

  batch-Requeued : Requeued p (requeue_batch p batch) batch
  unfolding requeue_batch grown mid
  batch-Requeued =
      let (m, _, room) = grown-Moved in
      record {
        ready = record {
          inv = record {
            room = omega (arith, front.capacity, m.inv.room);
            within = omega (arith, front.capacity, front.larger, m.same_size, room);
            headed = front.headed;
            counted = omega (
              arith,
              same_heap,
              made.inv.counted,
              ap heap_of contents,
              heap_of-append batch (entries mid),
            );
            shed = tt;
          };
          placed = omega arith;
        };
        survivors = entries mid;
        lost = made.dropped_count;
        contents = contents;
        kept = made.kept;
        last_resort = made.last_resort;
        needed = made.needed;
        untouched = made.untouched;
        in_budget = elim made.enough [
          | inl none_left ↦ inr (empty none_left)
          | inr ok ↦ inl (spent ok)
        ];
      }

-- Requeue puts a batch that is not empty back as the oldest cycles, whole and in order. The cycles that
-- came since keep their order and measurements behind it, except for the `lost` newest; one is lost
-- only where no survivor of them has hops, and where all cycles without hops, with one fewer lost, are
-- over the budget; where the batch fits beside the others they stay as they are; and the accounted
-- bytes end within the budget unless the batch is alone.
pub requeue-Requeued :
    (p : PushSink) (e : CyclePayload) (es : List CyclePayload)
    → Ready p
    → Requeued p (requeue p (e ∷ es)).0 (e ∷ es)
unfolding requeue report
requeue-Requeued p e es r =
    let s = batch-Requeued p (e ∷ es) r in
    record {
      ready = record {
        inv = record {
          room = s.ready.inv.room;
          within = s.ready.inv.within;
          headed = s.ready.inv.headed;
          counted = s.ready.inv.counted;
          shed = s.ready.inv.shed;
        };
        placed = s.ready.placed;
      };
      survivors = s.survivors;
      lost = s.lost;
      contents = s.contents;
      kept = s.kept;
      last_resort = s.last_resort;
      needed = s.needed;
      untouched = s.untouched;
      in_budget = s.in_budget;
    }
