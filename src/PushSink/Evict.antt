-- ===== src/PushSink/Evict.antt =====
-- dropOldest and dropNewest: one cycle leaves at an end of the ring.
use native.Mathlib.Nat.{mod-lt, mod-eq_of_lt, mod-mod, add-zero}
use smokeping_go.Common.{
  ℕ, zero, suc, ◌+◌, ◌-◌, ◌%◌, ◌≤◌, ◌≡◌, refl, sym, ap, subst, ◌∙◌, true, List, [], ◌∷◌, ◌++◌,
  arith, length, get_or, set, take, drop, All, length-set,
}
use smokeping_go.Cluster.{CyclePayload}
use smokeping_go.PushSink.{
  PushSink, zero_payload, read, payload_heap_bytes, heap_of, at, slot, drop_oldest, drop_newest,
}
use smokeping_go.PushSink.Ring.{read-add, read_one, read-cong, read-set_outside, slots_apart}
use smokeping_go.PushSink.Entries.{entries, Hopless, Inv, heap_of-append}
use smokeping_go.PushSink.Strip.{SameFrame}
use smokeping_go.PushSink.Cuts.{Cut, from_front, from_back, drop_back, init_cut}

-- An eviction removes one entry and leaves a ring that is well formed.
pub record Evicted (c : Cut) (p q : PushSink) : Type 0 where
  pub inv : Inv q
  pub frame : SameFrame p q
  pub smaller : q.size + 1 ≡ p.size
  pub placed : c.at_front ≡ true → p.strip_idx ≤ p.size → q.strip_idx ≤ q.size
  pub rest : entries q ≡ c.cut 1 (entries p)

module _ (p : PushSink) (v : Inv p) (n : ℕ) (live : p.size ≡ suc n) where
  front : get_or p.buf (p.head % length p.buf) zero_payload ≡ get_or p.buf p.head zero_payload
  front = ap (λ t. get_or p.buf t zero_payload) (mod-eq_of_lt v.headed)

  -- The entries with the oldest split off.
  entries_front : entries p ≡ get_or p.buf p.head zero_payload ∷ read p.buf (p.head + 1) n
  unfolding read
  entries_front = rw live (ap (λ e. e ∷ read p.buf (p.head + 1) n) front)

  entries-drop_oldest : entries (drop_oldest p) ≡ read p.buf (p.head + 1) n
  unfolding drop_oldest
  entries-drop_oldest =
      ap (read emptied next) (omega arith)
      ∙ read-cong emptied next (p.head + 1) n
          (rw (length-set p.buf p.head zero_payload) (mod-mod (p.head + 1) (length p.buf)))
      ∙ read-set_outside p.buf (p.head + 1) n p.head zero_payload (λ k lt e.
        slots_apart p.head 0 (suc k) (length p.buf) (omega arith) (omega (arith, v.within)) (
          ap (λ t. t % length p.buf) (add-zero p.head)
          ∙ mod-eq_of_lt v.headed
          ∙ e
          ∙ ap (λ t. t % length p.buf) (omega arith)))
    where
      emptied : List CyclePayload
      emptied = set p.buf p.head zero_payload

      next : ℕ
      next = (p.head + 1) % length p.buf

  entries_back : entries p ≡ read p.buf p.head n ++ at p n ∷ []
  entries_back =
      ap (read p.buf p.head) (live ∙ omega arith)
      ∙ read-add p.buf p.head n 1
      ∙ ap (◌++◌ (read p.buf p.head n)) (read_one p.buf (p.head + n))

  entries-drop_newest : entries (drop_newest p) ≡ read p.buf p.head n
  unfolding drop_newest
  entries-drop_newest =
      ap (λ m. read (set p.buf (slot p m) zero_payload) p.head m) (omega arith)
      ∙ read-set_outside p.buf p.head n (slot p n) zero_payload
          (λ k lt e. slots_apart p.head k n (length p.buf) lt (omega (arith, v.within)) (sym e))

  paid_front :
      payload_heap_bytes (get_or p.buf p.head zero_payload) + heap_of (read p.buf (p.head + 1) n)
      ≡ p.heap
  unfolding heap_of
  paid_front = sym (v.counted ∙ ap heap_of entries_front)

  paid_back : heap_of (read p.buf p.head n) + payload_heap_bytes (at p n) ≡ p.heap
  unfolding heap_of
  paid_back = omega (
    arith,
    v.counted,
    ap heap_of entries_back,
    heap_of-append (read p.buf p.head n) (at p n ∷ []),
  )

  oldest-heap : (drop_oldest p).heap ≡ heap_of (entries (drop_oldest p))
  unfolding drop_oldest
  oldest-heap = omega (arith, paid_front, ap heap_of entries-drop_oldest)

  newest-heap : (drop_newest p).heap ≡ heap_of (entries (drop_newest p))
  newest-heap = omega (arith, charge, paid_back, ap heap_of entries-drop_newest)
    where
      charge : (drop_newest p).heap ≡ p.heap - payload_heap_bytes (at p n)
      charge = unfold drop_newest in ap (λ m. p.heap - payload_heap_bytes (at p m)) (omega arith)

tail_shed :
    (e : CyclePayload) (es : List CyclePayload) (i : ℕ)
    → All Hopless (take i (e ∷ es))
    → All Hopless (take (i - 1) es)
tail_shed e es zero h = tt
tail_shed e es (suc i) h = ap_take es (omega arith) h.1
  where
    ap_take :
        (es : List CyclePayload) {a b : ℕ}
        → a ≡ b
        → All Hopless (take a es)
        → All Hopless (take b es)
    ap_take es p = subst (λ m. All Hopless (take m es)) p

init_shed :
    (es fs : List CyclePayload) (i : ℕ) → All Hopless (take i (es ++ fs)) → All Hopless (take i es)
init_shed es fs zero h = tt
init_shed [] fs (suc i) h = tt
init_shed (e ∷ es) fs (suc i) h = (h.0, init_shed es fs i h.1)

module _ (p : PushSink) (v : Inv p) (n : ℕ) (live : p.size ≡ suc n) where
  pub drop_oldest-Evicted : Evicted from_front p (drop_oldest p)
  drop_oldest-Evicted = record {
    inv = record {
      room = unfold drop_oldest in rw (length-set p.buf p.head zero_payload) v.room;
      within = unfold drop_oldest in omega (arith, v.within, length-set p.buf p.head zero_payload);
      headed =
          unfold drop_oldest in
          rw (length-set p.buf p.head zero_payload) (mod-lt (p.head + 1) v.room);
      counted = oldest-heap p v n live;
      shed =
          subst (λ es. All Hopless (take (drop_oldest p).strip_idx es))
            (sym (entries-drop_oldest p v n live))
            (unfold drop_oldest in
              tail_shed (get_or p.buf p.head zero_payload) _ p.strip_idx (
                subst (λ es. All Hopless (take p.strip_idx es)) (entries_front p v n live) v.shed));
    };
    frame =
        unfold drop_oldest in
        record {
          capacity = length-set p.buf p.head zero_payload;
          same_budget = refl;
          same_markers = refl;
        };
    smaller = unfold drop_oldest in omega arith;
    placed = λ _ h. unfold drop_oldest in omega arith;
    rest = entries-drop_oldest p v n live ∙ sym (ap (drop 1) (entries_front p v n live));
  }

  pub drop_newest-Evicted : Evicted from_back p (drop_newest p)
  drop_newest-Evicted = record {
    inv = record {
      room = unfold drop_newest in rw (length-set p.buf (slot p (p.size - 1)) zero_payload) v.room;
      within =
          unfold drop_newest in
          omega (arith, v.within, length-set p.buf (slot p (p.size - 1)) zero_payload);
      headed =
          unfold drop_newest in rw (length-set p.buf (slot p (p.size - 1)) zero_payload) v.headed;
      counted = newest-heap p v n live;
      shed =
          subst (λ es. All Hopless (take (drop_newest p).strip_idx es))
            (sym (entries-drop_newest p v n live))
            (unfold drop_newest in
              init_shed (read p.buf p.head n) (at p n ∷ []) p.strip_idx
                (subst (λ es. All Hopless (take p.strip_idx es)) (entries_back p v n live) v.shed));
    };
    frame =
        unfold drop_newest in
        record {
          capacity = length-set p.buf (slot p (p.size - 1)) zero_payload;
          same_budget = refl;
          same_markers = refl;
        };
    smaller = unfold drop_newest in omega arith;
    placed = λ front _. absurd (ground arith);
    rest =
        entries-drop_newest p v n live
        ∙ sym
            (ap (drop_back 1) (entries_back p v n live) ∙ init_cut (read p.buf p.head n) (at p n));
  }
