-- ===== src/PushSink/Store.antt =====
-- OnCycle: the newest cycle is always buffered; what makes room for it loses hops first.
use smokeping_go.Common.{
  ℕ, zero, suc, ◌+◌, ◌≤◌, ◌<◌, ◌≡◌, refl, sym, ap, subst, ◌∙◌, ◌⊎◌, inl, inr, true, List, [], ◌∷◌,
  ◌++◌, map, arith, ◌-◌, ◌≢◌, false, Bool, Bool-cases, str_beq, str_beq_iff, leb→le, length, take,
  drop, set, All, length-set,
}
use smokeping_go.Cycle.{Cycle}
use smokeping_go.Cluster.{CyclePayload, from_cycle}
use smokeping_go.PushSink.{
  PushSink, read, slot, payload_heap_bytes, heap_of, entries_for, fits, drop_oldest, grow_for,
  make_room, report, withhold, store, on_cycle, total,
}
use smokeping_go.PushSink.Ring.{length-read, read-set_end}
use smokeping_go.PushSink.Entries.{entries, measured, bare, Hopless, Inv, heap_of-append}
use smokeping_go.PushSink.Cuts.{from_front}
use smokeping_go.PushSink.Room.{Made, needs, make_room_front}
use smokeping_go.SlaveHealth.{health_group, is_health_group}
use smokeping_go.PushSink.Grow.{Moved, grow_for-Moved}

-- Between operations the walk's place lies among the live entries.
pub record Ready (p : PushSink) : Type 0 where
  pub inv : Inv p
  pub placed : p.strip_idx ≤ p.size

shed_append :
    (es : List CyclePayload) (e : CyclePayload) (i : ℕ)
    → i ≤ length es
    → All Hopless (take i es)
    → All Hopless (take i (es ++ e ∷ []))
shed_append es e zero le h = tt
shed_append [] e (suc i) le h = elim le [ ]
shed_append (x ∷ es) e (suc i) le h = (h.0, shed_append es e i (omega arith) h.1)

-- One entry more at the end of a ring that has room for it.
module _ (q : PushSink) (e : CyclePayload) (r : Ready q) (room : q.size + 1 ≤ length q.buf) where
  abbrev appended : PushSink
  appended = record q {
    buf = set q.buf (slot q q.size) e;
    size = q.size + 1;
    heap = q.heap + payload_heap_bytes e;
  }

  entries-appended : entries appended ≡ entries q ++ e ∷ []
  entries-appended = read-set_end q.buf q.head q.size e (omega arith)

  appended-heap : q.heap + payload_heap_bytes e ≡ heap_of (entries q ++ e ∷ [])
  unfolding heap_of
  appended-heap = omega (arith, r.inv.counted, heap_of-append (entries q) (e ∷ []))

  appended-Ready : Ready appended
  appended-Ready = record {
    inv = record {
      room = rw (length-set q.buf (slot q q.size) e) r.inv.room;
      within = rw (length-set q.buf (slot q q.size) e) room;
      headed = rw (length-set q.buf (slot q q.size) e) r.inv.headed;
      counted = appended-heap ∙ ap heap_of (sym entries-appended);
      shed =
          subst (λ es. All Hopless (take q.strip_idx es)) (sym entries-appended)
            (shed_append (entries q) e q.strip_idx
              (omega (arith, r.placed, length-read q.buf q.head q.size)) r.inv.shed);
    };
    placed = omega (arith, r.placed);
  }

-- What OnCycle does with a cycle: it is the newest of the buffered ones; before it stand the others in
-- their order, of which the `lost` oldest were dropped, with the measurements that they had; a cycle
-- is dropped only if no survivor carries hops, and if all of them without hops and one cycle more were
-- over the budget; nothing is shed where all fit; and the bytes are within the budget, but for a cycle
-- that is alone.
pub record Stored (p q : PushSink) (e : CyclePayload) : Type 0 where
  pub ready : Ready q
  pub survivors : List CyclePayload
  pub lost : ℕ
  pub contents : entries q ≡ survivors ++ e ∷ []
  pub kept : map measured survivors ≡ drop lost (map measured (entries p))
  pub last_resort : 0 < lost → All Hopless survivors
  pub needed :
      (k : ℕ)
      → lost ≡ suc k
      → p.budget
        < needs
            (length p.buf)
            (p.size - k)
            (heap_of (drop k (map bare (entries p))))
            (payload_heap_bytes e)
            1
  pub untouched :
      needs (length p.buf) p.size p.heap (payload_heap_bytes e) 1 ≤ p.budget → survivors ≡ entries p
  pub in_budget : (total q ≤ q.budget) ⊎ (survivors ≡ [])

module _ (p : PushSink) (e : CyclePayload) (r : Ready p) where
  mid : PushSink
  mid = make_room p (payload_heap_bytes e) 1 drop_oldest

  made : Made from_front p mid (payload_heap_bytes e) 1
  unfolding mid
  made = make_room_front p (payload_heap_bytes e) 1 r.inv

  grown : PushSink
  grown = grow_for mid 1

  grown-Moved :
      Moved mid grown
      × (length grown.buf ≡ entries_for (length mid.buf) mid.size 1)
      × (mid.size + 1 ≤ length grown.buf)
  unfolding grown
  grown-Moved = grow_for-Moved mid 1 made.inv

  grown-Ready : Ready grown
  grown-Ready =
      let m = grown-Moved.0 in
      record {
        inv = m.inv;
        placed = omega (arith, made.placed refl r.placed, m.same_place, m.same_size);
      }

  grown-room : grown.size + 1 ≤ length grown.buf
  grown-room = let (m, _, room) = grown-Moved in omega (arith, m.same_size, room)

  spent :
      fits mid (payload_heap_bytes e) 1 ≡ true
      → total (appended grown e grown-Ready grown-room) ≤ grown.budget
  unfolding fits
  spent h =
      let (m, capacity, room) = grown-Moved in
      omega (
        arith,
        leb→le _ _ h,
        capacity,
        m.same_heap,
        m.same_budget,
        length-set grown.buf (slot grown grown.size) e,
      )

  empty : mid.size ≡ 0 → entries mid ≡ []
  unfolding read
  empty h = rw h

  store-Stored : Stored p (store p e) e
  unfolding store grown mid
  store-Stored =
      let (m, _, _) = grown-Moved in
      record {
        ready = appended-Ready grown e grown-Ready grown-room;
        survivors = entries mid;
        lost = made.dropped_count;
        contents =
            entries-appended grown e grown-Ready grown-room
            ∙ ap (λ es. es ++ e ∷ []) m.same_entries;
        kept = made.kept;
        last_resort = made.last_resort;
        needed = made.needed;
        untouched = made.untouched;
        in_budget = elim made.enough [
          | inl none_left ↦ inr (empty none_left)
          | inr ok ↦ inl (spent ok)
        ];
      }

reported : (p q : PushSink) (e : CyclePayload) → Stored p q e → Stored p (report q).0 e
unfolding report
reported p q e s = record {
  ready = record {
    inv = record {
      room = s.ready.inv.room;
      within = s.ready.inv.within;
      headed = s.ready.inv.headed;
      counted = s.ready.inv.counted;
      shed = s.ready.inv.shed;
    };
    placed = s.ready.placed;
  };
  survivors = s.survivors;
  lost = s.lost;
  contents = s.contents;
  kept = s.kept;
  last_resort = s.last_resort;
  needed = s.needed;
  untouched = s.untouched;
  in_budget = s.in_budget;
}

-- What a master may be told of a cycle: the hops of a health target are withheld from one that has no
-- hop markers, and nothing else changes.
pub record Withheld (markers : Bool) (e out : CyclePayload) : Type 0 where
  pub others_same : measured out ≡ measured e
  pub hidden : e.group ≡ health_group → markers ≡ false → out.hops.items ≡ []
  pub shown : (e.group ≢ health_group) ⊎ (markers ≡ true) → out ≡ e

withhold-Withheld :
    (p : PushSink) (c : Cycle) → Withheld p.hop_markers (from_cycle c) (from_cycle (withhold p c))
unfolding withhold from_cycle is_health_group
withhold-Withheld p c = elim (Bool-cases (str_beq c.target.group health_group)) [
  | inl health ↦ elim (Bool-cases p.hop_markers) [
    | inl on ↦
        rw (health, on)
          (record {
            others_same = refl;
            hidden = λ g off. absurd (ground (arith, off));
            shown = λ any. refl;
          })
    | inr off ↦
        rw (health, off)
          (record {
            others_same = refl;
            hidden = λ g o. refl;
            shown = λ any. elim any [
              | inl other ↦ absurd (other ((str_beq_iff c.target.group health_group).0 health))
              | inr on ↦ absurd (ground (arith, on))
            ];
          })
  ]
  | inr other ↦ rw other (record {
    others_same = refl;
    hidden = λ g off. absurd (ground (arith, (str_beq_iff c.target.group health_group).1 g, other));
    shown = λ any. refl;
  })
]

-- OnCycle buffers the cycle that it is given as the newest, in the wire form and with a health target's
-- hops withheld where the master has no markers. The cycles before it keep their order and their
-- measurements (all but hops), except for the `lost` oldest; one is lost only where no survivor has
-- hops, and where all cycles without hops, with one fewer lost, are over the budget; where the new
-- cycle fits beside the others they stay as they are; and the accounted bytes end within the budget
-- unless the new cycle is alone.
pub on_cycle-Stored :
    (p : PushSink) (c : Cycle)
    → Ready p
    → (e : CyclePayload) × Withheld p.hop_markers (from_cycle c) e × Stored p (on_cycle p c).0 e
unfolding on_cycle
on_cycle-Stored p c r =
    let e = from_cycle (withhold p c) in
    (e, withhold-Withheld p c, reported p (store p e) e (store-Stored p e r))
