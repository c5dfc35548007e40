-- ===== src/Cache/Bounds.antt =====
-- internal/storage/cache.go: how many entries and how many calls the cache holds.
use smokeping_go.Common.{
  ℕ, zero, suc, ◌+◌, ◌-◌, ◌≤◌, ◌≡◌, refl, ℤ, inl, inr, Bool, true, Option, none, some, List, [],
  ◌∷◌, arith, ltb, leb, length, Bool-cases, Eq, nat_eq,
}
use smokeping_go.Common.Map
use smokeping_go.Cache.{
  Cache, Entry, Outcome, Event, looking, entering, completing, max_inflight_leaders, new_cache,
  drop_back, evict, move_to_front, lookup, lookup_entry, join, recall, enter, count_hit, look,
  store_locked, release, complete, lead, step, run,
}

length-drop_back : {A : Type 0} (xs : List A) → length (drop_back xs) ≡ length xs - 1
unfolding drop_back
length-drop_back [] = refl
length-drop_back (x ∷ []) = refl
length-drop_back (x ∷ y ∷ xs) = omega (arith, length-drop_back (y ∷ xs))

-- The fuel of the eviction is enough.
length-evict :
    {A : Type 0} (fuel max : ℕ) (xs : List A)
    → length xs ≤ max + fuel
    → length (evict fuel max xs) ≤ max
unfolding evict
length-evict zero max xs h = omega (arith, h)
length-evict (suc fuel) max xs h =
    let ih = length-evict fuel max (drop_back xs) (omega (arith, h, length-drop_back xs)) in
    ground (arith, ih)

module _ {K V : Type 0} ⦃e : Eq K⦄ where
  pub record Bounded (max : ℕ) (c : Cache K V) : Type 0 where
    pub same_max : c.max ≡ max
    pub entries : length c.order ≤ max
    pub calls : length c.inflight ≤ max_inflight_leaders

  move_to_front-Bounded :
      (max : ℕ) (k : K) (x : Entry V) (c : Cache K V)
      → Map.has k c.order ≡ true
      → Bounded max c
      → Bounded max (move_to_front k x c)
  unfolding move_to_front
  move_to_front-Bounded max k x c there h = record {
    same_max = h.same_max;
    entries = omega (arith, h.entries, Map.length-delete-lt k c.order there);
    calls = h.calls;
  }

  lookup_entry-Bounded :
      (max : ℕ) (k : K) (now : ℕ) (found : Option (Entry V)) (c : Cache K V)
      → Map.lookup k c.order ≡ found
      → Bounded max c
      → Bounded max (lookup_entry k now found c).1
  lookup_entry-Bounded max k now none c f h = h
  lookup_entry-Bounded max k now (some x) c f h = elim (Bool-cases (ltb x.expires now)) [
    | inl late ↦ rw late h
    | inr fresh ↦ rw fresh (move_to_front-Bounded max k x c (Map.lookup-has k x c.order f) h)
  ]

  lookup-Bounded :
      (max : ℕ) (k : K) (now : ℕ) (c : Cache K V) → Bounded max c → Bounded max (lookup k now c).1
  unfolding lookup
  lookup-Bounded max k now c h = lookup_entry-Bounded max k now _ c refl h

  hits-Bounded : (max n : ℕ) (c : Cache K V) → Bounded max c → Bounded max (record c { hits = n })
  hits-Bounded max n c h = record { same_max = h.same_max; entries = h.entries; calls = h.calls }

  look-Bounded :
      (max : ℕ) (k : K) (now : ℕ) (c : Cache K V) → Bounded max c → Bounded max (look k now c).1
  unfolding look
  look-Bounded max k now c h = counted (lookup k now c) (lookup-Bounded max k now c h)
    where
      counted : (r : Option V × Cache K V) → Bounded max r.1 → Bounded max (count_hit r).1
      counted (some v, d) b = hits-Bounded max (suc d.hits) d b
      counted (none, d) b = b

  join-Bounded :
      (max : ℕ) (k : K) (call : Option ℕ) (c : Cache K V)
      → Bounded max c
      → Bounded max (join k call c).1
  join-Bounded max k (some call) c h = h
  join-Bounded max k none c h = elim (Bool-cases (leb max_inflight_leaders (length c.inflight))) [
    | inl full ↦ rw full h
    | inr room ↦ rw room (record {
      same_max = h.same_max;
      entries = h.entries;
      calls = ground (arith, room, Map.length-insert k c.misses c.inflight);
    })
  ]

  enter-Bounded :
      (max : ℕ) (k : K) (now : ℕ) (c : Cache K V) → Bounded max c → Bounded max (enter k now c).1
  unfolding enter
  enter-Bounded max k now c h = recalled (lookup k now c) (lookup-Bounded max k now c h)
    where
      recalled : (r : Option V × Cache K V) → Bounded max r.1 → Bounded max (recall k r).1
      recalled (some v, d) b = hits-Bounded max (suc d.hits) d b
      recalled (none, d) b = join-Bounded max k _ d b

  store_locked-Bounded :
      (max : ℕ) (k : K) (v : V) (ttl now : ℕ) (c : Cache K V)
      → Bounded max c
      → Bounded max (store_locked k v ttl now c)
  unfolding store_locked
  store_locked-Bounded max k v ttl now c h = elim (Bool-cases (Map.has k c.order)) [
    | inl there ↦ rw there (move_to_front-Bounded max k _ c there h)
    | inr new ↦ rw new (record {
      same_max = h.same_max;
      entries = rw (h.same_max) (
          length-evict (suc (length c.order)) max
            ((k, record { points = v; expires = now + ttl }) ∷ c.order) (omega arith));
      calls = h.calls;
    })
  ]

  release-Bounded :
      (max : ℕ) (k : K) (call : ℕ) (answer : Outcome V) (c : Cache K V)
      → Bounded max c
      → Bounded max (release k call answer c)
  unfolding release
  release-Bounded max k call answer c h = record {
    same_max = h.same_max;
    entries = h.entries;
    calls = omega (arith, h.calls, Map.length-delete-le k c.inflight);
  }

module _ {K V : Type 0} ⦃e : Eq K⦄ (is_empty : V → Bool) where
  lead-Bounded :
      (max : ℕ) (k : K) (ttl now : ℕ) (outcome : Outcome V) (call : Option ℕ) (c : Cache K V)
      → Bounded max c
      → Bounded max (lead is_empty k ttl now outcome call c)
  unfolding complete
  lead-Bounded max k ttl now outcome none c h = h
  lead-Bounded max k ttl now (Outcome.found v) (some call) c h =
      release-Bounded max k call _ _ (store_locked-Bounded max k v ttl now c h)
  lead-Bounded max k ttl now (Outcome.failed err) (some call) c h = release-Bounded max k call _ _ h

  step-Bounded :
      (max : ℕ) (c : Cache K V) (x : Event K V) → Bounded max c → Bounded max (step is_empty c x)
  unfolding step
  step-Bounded max c (looking k now) h = look-Bounded max k now c h
  step-Bounded max c (entering k now) h = enter-Bounded max k now c h
  step-Bounded max c (completing k ttl now outcome) h = lead-Bounded max k ttl now outcome _ c h

  run-Bounded :
      (max : ℕ) (c : Cache K V) (xs : List (Event K V))
      → Bounded max c
      → Bounded max (run is_empty c xs)
  unfolding run
  run-Bounded max c [] h = h
  run-Bounded max c (x ∷ xs) h = run-Bounded max (step is_empty c x) xs (step-Bounded max c x h)

  -- Over any interleaving of lookups, fetches and completions, a cache that NewCachingReader made holds at
  -- most as many entries as its limit, and at most 32 calls are in flight.
  pub cache_bounded :
      (def : ℕ) (limit : ℤ) (xs : List (Event K V))
      → let start : Cache K V = new_cache def limit in
        let c = run is_empty start xs in
        (length c.order ≤ start.max) × (length c.inflight ≤ max_inflight_leaders)
  cache_bounded def limit xs =
      let start : Cache K V = new_cache def limit in
      let b =
        run-Bounded start.max start xs
          (record { same_max = refl; entries = omega arith; calls = omega arith }) in
      (b.entries, b.calls)
