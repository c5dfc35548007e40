-- ===== src/Cache/Contents.antt =====
-- internal/storage/cache.go: what the cache answers from. An unbounded table of what the queries
-- returned last is what it stands for.
use smokeping_go.Common.{
  ℕ, zero, suc, ◌+◌, ◌≤◌, ◌≡◌, refl, sym, ◌∙◌, ℤ, inl, inr, Bool, Option, none, some, List, [], ◌∷◌,
  arith, if◌then◌else◌, ltb, length, Bool-cases, Eq, ◌==◌, nat_eq,
}
use smokeping_go.Common.Map
use smokeping_go.Cache.{
  Cache, Entry, Outcome, Event, looking, entering, completing, new_cache, drop_back, evict,
  move_to_front, lookup, lookup_entry, join, recall, enter, count_hit, look, store_locked, release,
  complete, lead, step, run,
}

module _ {K V : Type 0} ⦃e : Eq K⦄ where
  -- The entries of an order are those of a table.
  abbrev pub Within : List (K × Entry V) → List (K × Entry V) → Type 0
  Within order table =
      (k : K) (x : Entry V) → Map.lookup k order ≡ some x → Map.lookup k table ≡ some x

  lookup-drop_back :
      (k : K) (x : Entry V) (xs : List (K × Entry V))
      → Map.lookup k (drop_back xs) ≡ some x
      → Map.lookup k xs ≡ some x
  unfolding drop_back Map.lookup
  lookup-drop_back k x [] h = h
  lookup-drop_back k x ((j, y) ∷ []) h = absurd (ground (arith, h))
  lookup-drop_back k x ((j, y) ∷ z ∷ xs) h = ground (arith, h, lookup-drop_back k x (z ∷ xs))

  lookup-evict :
      (fuel max : ℕ) (k : K) (x : Entry V) (xs : List (K × Entry V))
      → Map.lookup k (evict fuel max xs) ≡ some x
      → Map.lookup k xs ≡ some x
  unfolding evict
  lookup-evict zero max k x xs h = h
  lookup-evict (suc fuel) max k x xs h = elim (Bool-cases (ltb max (length xs))) [
    | inl over ↦ lookup-drop_back k x xs (lookup-evict fuel max k x (drop_back xs) (rw over at h))
    | inr fits ↦ rw fits at h
  ]

  lookup-front :
      (j k : K) (x : Entry V) (order : List (K × Entry V))
      → Map.lookup j ((k, x) ∷ Map.delete k order) ≡ Map.lookup j (Map.insert k x order)
  unfolding Map.lookup
  lookup-front j k x order =
      ground (arith, Map.lookup-delete j k order, Map.lookup-insert j k x order)

  lookup-cons :
      (j k : K) (x : Entry V) (order : List (K × Entry V))
      → Map.lookup j ((k, x) ∷ order) ≡ (if k == j then some x else Map.lookup j order)
  unfolding Map.lookup
  lookup-cons j k x order = refl

  -- A move to the front leaves every entry as it was.
  move_to_front-Within :
      (k : K) (x : Entry V) (c : Cache K V) (table : List (K × Entry V))
      → Map.lookup k c.order ≡ some x
      → Within c.order table
      → Within (move_to_front k x c).order table
  unfolding move_to_front
  move_to_front-Within k x c table there h j y f =
      elim (Map.lookup-insert-some j k x y c.order (sym (lookup-front j k x c.order) ∙ f)) [
        | inl (same, value) ↦ h j y (cc)
        | inr (_, old) ↦ h j y old
      ]

  lookup_entry-Within :
      (k : K) (now : ℕ) (entry : Option (Entry V)) (c : Cache K V) (table : List (K × Entry V))
      → Map.lookup k c.order ≡ entry
      → Within c.order table
      → Within (lookup_entry k now entry c).1.order table
  lookup_entry-Within k now none c table f h = h
  lookup_entry-Within k now (some x) c table f h = elim (Bool-cases (ltb x.expires now)) [
    | inl late ↦ rw late h
    | inr fresh ↦ rw fresh (move_to_front-Within k x c table f h)
  ]

  lookup-Within :
      (k : K) (now : ℕ) (c : Cache K V) (table : List (K × Entry V))
      → Within c.order table
      → Within (lookup k now c).1.order table
  unfolding lookup
  lookup-Within k now c table h = lookup_entry-Within k now _ c table refl h

  look-Within :
      (k : K) (now : ℕ) (c : Cache K V) (table : List (K × Entry V))
      → Within c.order table
      → Within (look k now c).1.order table
  unfolding look
  look-Within k now c table h = counted (lookup k now c) (lookup-Within k now c table h)
    where
      counted :
          (r : Option V × Cache K V) → Within r.1.order table → Within (count_hit r).1.order table
      counted (some v, d) w = w
      counted (none, d) w = w

  join-order : (k : K) (call : Option ℕ) (c : Cache K V) → (join k call c).1.order ≡ c.order
  join-order k (some call) c = refl
  join-order k none c = ground arith

  enter-Within :
      (k : K) (now : ℕ) (c : Cache K V) (table : List (K × Entry V))
      → Within c.order table
      → Within (enter k now c).1.order table
  unfolding enter
  enter-Within k now c table h = recalled (lookup k now c) (lookup-Within k now c table h)
    where
      recalled :
          (r : Option V × Cache K V) → Within r.1.order table → Within (recall k r).1.order table
      recalled (some v, d) w = w
      recalled (none, d) w = rw (join-order k (Map.lookup k d.inflight) d) w

  -- A store puts its entry in both.
  store_locked-Within :
      (k : K) (v : V) (ttl now : ℕ) (c : Cache K V) (table : List (K × Entry V))
      → Within c.order table
      → Within
          (store_locked k v ttl now c).order
          (Map.insert k (record { points = v; expires = now + ttl }) table)
  unfolding store_locked move_to_front
  store_locked-Within k v ttl now c table h j y f = elim (Bool-cases (Map.has k c.order)) [
    | inl there ↦ both (sym (lookup-front j k x c.order) ∙ (rw there at f))
    | inr new ↦
        newest (lookup-evict (suc (length c.order)) c.max j y ((k, x) ∷ c.order) (rw new at f))
  ]
    where
      x : Entry V
      x = record { points = v; expires = now + ttl }

      both :
          Map.lookup j (Map.insert k x c.order) ≡ some y
          → Map.lookup j (Map.insert k x table) ≡ some y
      both g = elim (Map.lookup-insert-some j k x y c.order g) [
        | inl (same, value) ↦ ground (arith, same, value, Map.lookup-insert_self k x table)
        | inr (other, old) ↦ Map.lookup-insert_ne j k x table other ∙ h j y old
      ]

      newest :
          Map.lookup j ((k, x) ∷ c.order) ≡ some y → Map.lookup j (Map.insert k x table) ≡ some y
      newest g = elim (Bool-cases (k == j)) [
        | inl same ↦
            rw (Map.lookup-insert j k x table, same)
              (rw same at (sym (lookup-cons j k x c.order) ∙ g))
        | inr other ↦
            rw (Map.lookup-insert j k x table, other)
              (h j y (rw other at (sym (lookup-cons j k x c.order) ∙ g)))
      ]

module _ {K V : Type 0} ⦃e : Eq K⦄ (is_empty : V → Bool) where
  -- What a completion adds to the table: the result of a query that succeeded.
  abbrev pub note : Option ℕ → Event K V → List (K × Entry V) → List (K × Entry V)
  note (some call) (completing k ttl now (Outcome.found v)) table =
      Map.insert k (record { points = v; expires = now + ttl }) table
  note (some call) (completing k ttl now (Outcome.failed err)) table = table
  note none (completing k ttl now outcome) table = table
  note slot (looking k now) table = table
  note slot (entering k now) table = table

  abbrev pub slot_of : Cache K V → Event K V → Option ℕ
  slot_of c (looking k now) = none
  slot_of c (entering k now) = none
  slot_of c (completing k ttl now outcome) = Map.lookup k c.inflight

  -- The table: the last result of each key's queries, none forgotten.
  unfoldable pub results : Cache K V → List (Event K V) → List (K × Entry V) → List (K × Entry V)
  unfolding step Map.lookup Map.insert
  results c [] table = table
  results c (x ∷ xs) table = results (step is_empty c x) xs (note (slot_of c x) x table)

  lead-Within :
      (k : K) (ttl now : ℕ) (outcome : Outcome V) (call : Option ℕ) (c : Cache K V)
      (table : List (K × Entry V))
      → Within c.order table
      → Within
          (lead is_empty k ttl now outcome call c).order
          (note call (completing k ttl now outcome) table)
  unfolding complete release
  lead-Within k ttl now (Outcome.found v) none c table h = h
  lead-Within k ttl now (Outcome.failed err) none c table h = h
  lead-Within k ttl now (Outcome.found v) (some call) c table h =
      store_locked-Within k v ttl now c table h
  lead-Within k ttl now (Outcome.failed err) (some call) c table h = h

  step-Within :
      (c : Cache K V) (x : Event K V) (table : List (K × Entry V))
      → Within c.order table
      → Within (step is_empty c x).order (note (slot_of c x) x table)
  unfolding step
  step-Within c (looking k now) table h = look-Within k now c table h
  step-Within c (entering k now) table h = enter-Within k now c table h
  step-Within c (completing k ttl now outcome) table h =
      lead-Within k ttl now outcome (Map.lookup k c.inflight) c table h

  run-Within :
      (c : Cache K V) (xs : List (Event K V)) (table : List (K × Entry V))
      → Within c.order table
      → Within (run is_empty c xs).order (results c xs table)
  unfolding run results
  run-Within c [] table h = h
  run-Within c (x ∷ xs) table h = run-Within (step is_empty c x) xs _ (step-Within c x table h)

  lookup_entry-found :
      (k : K) (now : ℕ) (v : V) (entry : Option (Entry V)) (c : Cache K V)
      → (lookup_entry k now entry c).0 ≡ some v
      → (x : Entry V) × (entry ≡ some x) × (x.points ≡ v) × (now ≤ x.expires)
  lookup_entry-found k now v none c h = absurd (ground (arith, h))
  lookup_entry-found k now v (some x) c h = elim (Bool-cases (ltb x.expires now)) [
    | inl late ↦ absurd (ground (arith, late, h))
    | inr fresh ↦ (x, refl, ground (arith, fresh, h), ground (arith, fresh))
  ]

  -- The cache implements an unbounded table of results: after any interleaving of lookups, fetches and
  -- completions, a lookup that hits answers the result that the last successful query of its key returned,
  -- and that result has not expired.
  pub hit_is_last_result :
      (def : ℕ) (limit : ℤ) (xs : List (Event K V)) (k : K) (now : ℕ) (v : V)
      → let start : Cache K V = new_cache def limit in
        (lookup k now (run is_empty start xs)).0 ≡ some v
        → (x : Entry V) × (Map.lookup k (results start xs []) ≡ some x)
          × (x.points ≡ v)
          × (now ≤ x.expires)
  unfolding lookup Map.lookup
  hit_is_last_result def limit xs k now v h =
      let start : Cache K V = new_cache def limit in
      let c = run is_empty start xs in
      let (x, there, value, fresh) = lookup_entry-found k now v (Map.lookup k c.order) c h in
      (x, run-Within start xs [] (λ j y f. absurd (ground (arith, f))) k x there, value, fresh)
