-- ===== src/PushSink/Room.antt =====
-- entriesFor, fits and the reclaim loop makeRoom.
use smokeping_go.Common.{
  ℕ, zero, suc, ◌+◌, ◌-◌, ◌*◌, ◌≤◌, ◌<◌, ◌≡◌, refl, sym, ap, ap₂, false, subst, ◌∙◌, ◌⊎◌, inl, inr,
  Bool, true, not, ◌&&◌, map, arith, ltb, if◌then◌else◌, Bool-cases, length, All,
}
use smokeping_go.PushSink.{
  PushSink, double_until, entries_for, fits, strip_oldest_hops, drop_oldest, drop_newest,
  make_room_loop, make_room, payload_struct_bytes, heap_of,
}
use smokeping_go.PushSink.Ring.{length-read}
use smokeping_go.PushSink.Entries.{
  entries, measured, bare, map-bare-Hopless, Hopless, hopful, Inv, hopful-le, hopful_zero,
}
use smokeping_go.PushSink.Strip.{
  SameFrame, Stripped, Walked, stripped, exhausted, strip_oldest_hops-Walked,
}
use smokeping_go.PushSink.Cuts.{Cut, from_front, from_back}
use smokeping_go.PushSink.Evict.{Evicted, drop_oldest-Evicted, drop_newest-Evicted}

pub double_until-ge :
    (fuel have need : ℕ) → 0 < have → need ≤ have + fuel → need ≤ double_until fuel have need
unfolding double_until
double_until-ge zero have need pos h = omega arith
double_until-ge (suc fuel) have need pos h = ground (arith, double_until-ge fuel (have * 2) need)

pub double_until-have_le : (fuel have need : ℕ) → have ≤ double_until fuel have need
unfolding double_until
double_until-have_le zero have need = omega arith
double_until-have_le (suc fuel) have need =
    ground (arith, double_until-have_le fuel (have * 2) need)

-- The fuel of the doubling loop is enough: the ring that it gives holds the entries.
pub entries_for-ge : (have size n : ℕ) → 0 < have → size + n ≤ entries_for have size n
unfolding entries_for
entries_for-ge have size n pos = double_until-ge (size + n) have (size + n) pos (omega arith)

pub entries_for-have_le : (have size n : ℕ) → have ≤ entries_for have size n
unfolding entries_for
entries_for-have_le have size n = double_until-have_le (size + n) have (size + n)

-- The bytes that a ring takes with `size` cycles of `held` bytes and `n` more of `heap` bytes.
abbrev pub needs : ℕ → ℕ → ℕ → ℕ → ℕ → ℕ
needs capacity size held heap n = entries_for capacity size n * payload_struct_bytes + held + heap

-- What the reclaim loop leaves: `k` measurements were dropped at the end where it evicts, all that
-- are left are as they were but for hops, and none that is left has hops if one was dropped. Each drop
-- was needed: with all hops shed, and one measurement fewer dropped, the payloads are over the budget.
-- Nothing changes where they fit from the start.
pub record Made (c : Cut) (p q : PushSink) (heap n : ℕ) : Type 0 where
  pub inv : Inv q
  pub frame : SameFrame p q
  pub dropped_count : ℕ
  pub balance : q.size + dropped_count ≡ p.size
  pub kept : map measured (entries q) ≡ c.cut dropped_count (map measured (entries p))
  pub bare_kept : map bare (entries q) ≡ c.cut dropped_count (map bare (entries p))
  pub needed :
      (k : ℕ)
      → dropped_count ≡ suc k
      → p.budget
        < needs (length p.buf) (p.size - k) (heap_of (c.cut k (map bare (entries p)))) heap n
  pub untouched : needs (length p.buf) p.size p.heap heap n ≤ p.budget → entries q ≡ entries p
  pub last_resort : 0 < dropped_count → All Hopless (entries q)
  pub still : All Hopless (entries p) → All Hopless (entries q)
  pub placed : c.at_front ≡ true → p.strip_idx ≤ p.size → q.strip_idx ≤ q.size
  pub enough : (q.size ≡ 0) ⊎ (fits q heap n ≡ true)

SameFrame-trans : {p q r : PushSink} → SameFrame p q → SameFrame q r → SameFrame p r
SameFrame-trans a b = record {
  capacity = b.capacity ∙ a.capacity;
  same_budget = b.same_budget ∙ a.same_budget;
  same_markers = b.same_markers ∙ a.same_markers;
}

-- A loop that evicts by `evict`, which cuts by `c`.
module _ (c : Cut) (evict : PushSink → PushSink)
    (evicts : (p : PushSink) (n : ℕ) → Inv p → p.size ≡ suc n → Evicted c p (evict p))
    (heap n : ℕ) where
  abbrev Over : PushSink → Type 0
  Over p = p.budget < needs (length p.buf) p.size p.heap heap n

  not_fits-Over : (p : PushSink) → fits p heap n ≡ false → Over p
  unfolding fits
  not_fits-Over p h = ground (arith, h)

  stop : (p : PushSink) → Inv p → (p.size ≡ 0) ⊎ (fits p heap n ≡ true) → Made c p p heap n
  stop p v e = record {
    inv = v;
    frame = record { capacity = refl; same_budget = refl; same_markers = refl };
    dropped_count = 0;
    balance = omega arith;
    kept = sym (c.cut_zero _);
    bare_kept = sym (c.cut_zero _);
    needed = λ k e. absurd (ground (arith, e));
    untouched = λ _. refl;
    last_resort = λ h. elim h [ ];
    still = λ h. h;
    placed = λ _ h. h;
    enough = e;
  }

  after_strip : (p q r : PushSink) → Over p → Stripped p q → Made c q r heap n → Made c p r heap n
  after_strip p q r over s m = record {
    inv = m.inv;
    frame = SameFrame-trans s.frame m.frame;
    dropped_count = m.dropped_count;
    balance = omega (arith, m.balance, s.same_size);
    kept = m.kept ∙ ap (c.cut m.dropped_count) s.kept;
    bare_kept = m.bare_kept ∙ ap (c.cut m.dropped_count) s.bare_kept;
    needed = λ k e.
        let held = ap (λ es. heap_of (c.cut k es)) s.bare_kept in
        let slots = ap₂ (λ a b. entries_for a b n) s.frame.capacity (ap (λ t. t - k) s.same_size) in
        omega (arith, m.needed k e, held, slots, s.frame.same_budget);
    untouched = λ fitting. absurd (omega (arith, over, fitting));
    last_resort = m.last_resort;
    still = λ h. absurd (omega (arith, hopful_zero (entries p) h, s.less));
    placed = λ front _. m.placed front s.placed;
    enough = m.enough;
  }

  after_evict :
      (p q r : PushSink)
      → Inv p
      → Over p
      → All Hopless (entries p)
      → Evicted c p q
      → Made c q r heap n
      → Made c p r heap n
  after_evict p q r v over h x m = record {
    inv = m.inv;
    frame = SameFrame-trans x.frame m.frame;
    dropped_count = m.dropped_count + 1;
    balance = omega (arith, m.balance, x.smaller);
    kept =
        m.kept
        ∙ ap (λ es. c.cut m.dropped_count (map measured es)) x.rest
        ∙ ap (c.cut m.dropped_count) (c.map-cut measured 1 (entries p))
        ∙ c.cut_more m.dropped_count (map measured (entries p));
    bare_kept = m.bare_kept ∙ bare_cut m.dropped_count;
    needed = λ k e. short k m.dropped_count (omega (arith, e)) refl;
    untouched = λ fitting. absurd (omega (arith, over, fitting));
    last_resort = λ _. bare_left;
    still = λ _. bare_left;
    placed = λ front h. m.placed front (x.placed front h);
    enough = m.enough;
  }
    where
      bare_left : All Hopless (entries r)
      bare_left = m.still (subst (All Hopless) (sym x.rest) (c.All-cut (entries p) h))

      bare_cut : (k : ℕ) → c.cut k (map bare (entries q)) ≡ c.cut (k + 1) (map bare (entries p))
      bare_cut k =
          ap (λ es. c.cut k (map bare es)) x.rest
          ∙ ap (c.cut k) (c.map-cut bare 1 (entries p))
          ∙ c.cut_more k (map bare (entries p))

      short :
          (k d : ℕ)
          → k ≡ d
          → d ≡ m.dropped_count
          → p.budget
            < needs (length p.buf) (p.size - k) (heap_of (c.cut k (map bare (entries p)))) heap n
      short zero d e f =
          let held =
            ap heap_of (c.cut_zero (map bare (entries p)) ∙ map-bare-Hopless (entries p) h) in
          let slots =
            ap (λ b. entries_for (length p.buf) b n) {x = p.size - 0} {y = p.size} (omega arith) in
          omega (arith, over, held, slots, v.counted)
      short (suc j) d e f =
          let held = ap heap_of (bare_cut j) in
          let one =
            ap (λ t. heap_of (c.cut t (map bare (entries p)))) {x = j + 1} {y = suc j}
              (omega arith) in
          let slots : entries_for (length q.buf) (q.size - j) n
              ≡ entries_for (length p.buf) (p.size - suc j) n =
            ap₂ (λ a b. entries_for a b n) x.frame.capacity (omega (arith, x.smaller)) in
          omega (arith, m.needed j (omega (arith, e, f)), held, one, slots, x.frame.same_budget)

  pass :
      (fuel : ℕ) (p : PushSink) (r : PushSink × Bool)
      → Inv p
      → Over p
      → 0 < p.size
      → p.size + hopful (entries p) ≤ suc fuel
      → Walked p r
      → ((q : PushSink)
          → Inv q
          → q.size + hopful (entries q) ≤ fuel
          → Made c q (make_room_loop fuel q heap n evict) heap n)
      → Made c p (make_room_loop fuel (if r.1 then r.0 else evict r.0) heap n evict) heap n
  pass fuel p r v over live h (stripped q s) again =
      after_strip p q _ over s (again q s.inv (omega (arith, s.less, s.same_size)))
  pass fuel p r v over live h (exhausted q x) again =
      let same_size : q.size ≡ p.size = ap (λ t. t.size) x.same in
      let same : entries q ≡ entries p = ap entries x.same in
      let gone = evicts q (p.size - 1) x.inv (omega arith) in
      let frame = gone.frame in
      let hopless = x.hopless in
      let less : hopful (entries (evict q)) ≡ 0 = hopful_zero _ (
        subst (All Hopless) (sym (gone.rest ∙ ap (c.cut 1) same))
          (c.All-cut (entries p) hopless)) in
      after_evict p (evict q) _ v over hopless
        (record {
          inv = gone.inv;
          frame =
              SameFrame-trans
                (record {
                  capacity = ap (λ t. length t.buf) x.same;
                  same_budget = ap (λ t. t.budget) x.same;
                  same_markers = ap (λ t. t.hop_markers) x.same;
                })
                gone.frame;
          smaller = gone.smaller ∙ same_size;
          placed = λ front h. gone.placed front (x.placed h);
          rest = gone.rest ∙ ap (c.cut 1) same;
        })
        (again (evict q) gone.inv (omega (arith, less, gone.smaller, same_size)))

  loop-Made :
      (fuel : ℕ) (p : PushSink)
      → Inv p
      → p.size + hopful (entries p) ≤ fuel
      → Made c p (make_room_loop fuel p heap n evict) heap n
  unfolding make_room_loop
  loop-Made zero p v h = stop p v (inl (omega arith))
  loop-Made (suc fuel) p v h = elim (Bool-cases (ltb 0 p.size && not (fits p heap n))) [
    | inl over ↦ rw over (
        pass fuel p (strip_oldest_hops p) v (not_fits-Over p (ground (arith, over))) (ground arith)
          h (strip_oldest_hops-Walked p v) (loop-Made fuel))
    | inr fine ↦ rw fine (stop p v (ground arith))
  ]

-- Twice the live entries are passes enough: the reclaim loop that evicts the oldest ends because the
-- payloads fit or nothing is left. What is left keeps its order and its measurements, and a cycle was
-- dropped only if no cycle that is left has hops, and if all cycles without hops, with one fewer
-- dropped, are over the budget; where the payloads fit from the start nothing changes.
pub make_room_front :
    (p : PushSink) (heap n : ℕ) → Inv p → Made from_front p (make_room p heap n drop_oldest) heap n
unfolding make_room
make_room_front p heap n v =
    loop-Made from_front drop_oldest (λ p n v live. drop_oldest-Evicted p v n live) heap n
      (p.size + p.size) p v (enough_passes p)
  where
    enough_passes : (p : PushSink) → p.size + hopful (entries p) ≤ p.size + p.size
    enough_passes p = omega (arith, hopful-le (entries p), length-read p.buf p.head p.size)

pub make_room_back :
    (p : PushSink) (heap n : ℕ) → Inv p → Made from_back p (make_room p heap n drop_newest) heap n
unfolding make_room
make_room_back p heap n v =
    loop-Made from_back drop_newest (λ p n v live. drop_newest-Evicted p v n live) heap n
      (p.size + p.size) p v (omega (arith, hopful-le (entries p), length-read p.buf p.head p.size))
