-- ===== src/Cache.antt =====
-- internal/storage/cache.go: the cache of query results with one inner query for each key at a time. The
-- code has it twice, for cycles and for hops; the two differ in the result type and in what an empty
-- result is, which are arguments here. The recency list holds the entries, and the index from keys to
-- its elements is the search of the list. Times are nanoseconds.
pub mod Bounds
pub mod Contents
pub mod Calls
pub mod Keys
pub mod Examples
use smokeping_go.Common.{
  ℕ, zero, suc, ◌+◌, ◌-◌, ◌*◌, ◌/◌, ℤ, pos, negsuc, Bool, true, false, not, Option, none, some,
  List, [], ◌∷◌, arith, if◌then◌else◌, ltb, leb, nat_beq, length, Eq, ◌==◌, nat_eq,
}
use smokeping_go.Common.Map

abbrev pub max_inflight_leaders : ℕ
max_inflight_leaders = 32

abbrev pub ttl_live : ℕ
ttl_live = 60000000000

abbrev pub ttl_historic : ℕ
ttl_historic = 300000000000

abbrev pub live_boundary : ℕ
live_boundary = 60000000000

-- A window that ends in the future is live too: the difference of the two clocks is not positive.
unfoldable pub ttl_for : ℕ → ℕ → ℕ
ttl_for now to = if ltb (now - to) live_boundary then ttl_live else ttl_historic

pub record Entry (V : Type 0) : Type 0 where
  pub points : V
  pub expires : ℕ

pub data QueryError : Type 0 where
  truncated : QueryError  -- ErrHopsTruncated
  panicked : QueryError  -- errLeaderPanicked
  unavailable : QueryError  -- any other

unfoldable pub is_refusal : QueryError → Bool
is_refusal truncated = true
is_refusal panicked = true
is_refusal unavailable = false

-- What the inner query returned, and what a call's waiters read.
pub data Outcome (V : Type 0) : Type 0 where
  found : V → Outcome V
  failed : QueryError → Outcome V

-- A call is known by the number of calls before it, which is the count of misses.
pub record Cache (K V : Type 0) : Type 0 where
  pub max : ℕ
  pub order : List (K × Entry V)
  pub inflight : List (K × ℕ)
  pub answers : List (ℕ × Outcome V)
  pub hits : ℕ
  pub misses : ℕ

pub data Entered (V : Type 0) : Type 0 where
  hit : V → Entered V
  joined : ℕ → Entered V
  leads : ℕ → Entered V
  overloaded : Entered V

abbrev pub or_default : ℕ → ℤ → ℕ
or_default def (negsuc n) = def
or_default def (pos n) = if nat_beq n 0 then def else n

abbrev pub new_cache : {K V : Type 0} → ℕ → ℤ → Cache K V
new_cache def max = record {
  max = or_default def max;
  order = [];
  inflight = [];
  answers = [];
  hits = 0;
  misses = 0;
}

-- order.Remove(order.Back())
unfoldable pub drop_back : {A : Type 0} → List A → List A
drop_back [] = []
drop_back (x ∷ []) = []
drop_back (x ∷ y ∷ xs) = x ∷ drop_back (y ∷ xs)

-- The eviction loop, with fuel.
unfoldable pub evict : {A : Type 0} → ℕ → ℕ → List A → List A
unfolding drop_back
evict zero max order = order
evict (suc fuel) max order =
    let rest = evict fuel max (drop_back order) in if ltb max (length order) then rest else order

-- The entry that stands in for an error.
unfoldable pub stand_in : {V : Type 0} → (V → Bool) → QueryError → Option (Entry V) → Outcome V
unfolding is_refusal
stand_in is_empty err none = failed err
stand_in is_empty err (some x) =
    if is_refusal err then failed err else if is_empty x.points then failed err else found x.points

module _ {K V : Type 0} ⦃e : Eq K⦄ where
  unfoldable pub move_to_front : K → Entry V → Cache K V → Cache K V
  unfolding Map.delete
  move_to_front k x c = record c { order = (k, x) ∷ Map.delete k c.order }

  abbrev pub lookup_entry : K → ℕ → Option (Entry V) → Cache K V → Option V × Cache K V
  lookup_entry k now none c = (none, c)
  lookup_entry k now (some x) c =
      if ltb x.expires now then (none, c) else (some x.points, move_to_front k x c)

  unfoldable pub lookup : K → ℕ → Cache K V → Option V × Cache K V
  unfolding Map.lookup move_to_front
  lookup k now c = lookup_entry k now (Map.lookup k c.order) c

  -- Join the call of the key, or begin one.
  abbrev pub join : K → Option ℕ → Cache K V → Entered V × Cache K V
  join k (some call) c = (joined call, c)
  join k none c = if leb max_inflight_leaders (length c.inflight) then (overloaded, c) else (
    leads c.misses,
    record c { inflight = Map.insert k c.misses c.inflight; misses = suc c.misses },
  )

  abbrev pub recall : K → Option V × Cache K V → Entered V × Cache K V
  recall k (some v, c) = (hit v, record c { hits = suc c.hits })
  recall k (none, c) = join k (Map.lookup k c.inflight) c

  -- The fetch's part under the lock.
  unfoldable pub enter : K → ℕ → Cache K V → Entered V × Cache K V
  unfolding lookup Map.lookup Map.insert
  enter k now c = recall k (lookup k now c)

  abbrev pub count_hit : Option V × Cache K V → Option V × Cache K V
  count_hit (some v, c) = (some v, record c { hits = suc c.hits })
  count_hit (none, c) = (none, c)

  -- The query's first lookup, before the fetch.
  unfoldable pub look : K → ℕ → Cache K V → Option V × Cache K V
  unfolding lookup
  look k now c = count_hit (lookup k now c)

  unfoldable pub store_locked : K → V → ℕ → ℕ → Cache K V → Cache K V
  unfolding move_to_front Map.has evict
  store_locked k v ttl now c =
      let x : Entry V = record { points = v; expires = now + ttl } in
      if Map.has k c.order
      then move_to_front k x c
      else record c { order = evict (suc (length c.order)) c.max ((k, x) ∷ c.order) }

  unfoldable pub release : K → ℕ → Outcome V → Cache K V → Cache K V
  unfolding Map.delete Map.insert
  release k call answer c = record c {
    inflight = Map.delete k c.inflight;
    answers = Map.insert call answer c.answers;
  }

  -- The leader's part under the lock, and the answer that it leaves for the waiters.
  unfoldable pub complete : (V → Bool) → K → ℕ → ℕ → ℕ → Outcome V → Cache K V → Cache K V
  unfolding store_locked stand_in release Map.lookup
  complete is_empty k call ttl now (found v) c =
      release k call (found v) (store_locked k v ttl now c)
  complete is_empty k call ttl now (failed err) c =
      release k call (stand_in is_empty err (Map.lookup k c.order)) c

pub data Event (K V : Type 0) : Type 0 where
  looking : K → ℕ → Event K V
  entering : K → ℕ → Event K V
  completing : K → ℕ → ℕ → Outcome V → Event K V

module _ {K V : Type 0} ⦃e : Eq K⦄ (is_empty : V → Bool) where
  -- A key has a leader as long as it has a slot.
  abbrev pub lead : K → ℕ → ℕ → Outcome V → Option ℕ → Cache K V → Cache K V
  lead k ttl now outcome none c = c
  lead k ttl now outcome (some call) c = complete is_empty k call ttl now outcome c

  unfoldable pub step : Cache K V → Event K V → Cache K V
  unfolding look enter complete Map.lookup
  step c (looking k now) = (look k now c).1
  step c (entering k now) = (enter k now c).1
  step c (completing k ttl now outcome) = lead k ttl now outcome (Map.lookup k c.inflight) c

  unfoldable pub run : Cache K V → List (Event K V) → Cache K V
  unfolding step
  run c [] = c
  run c (x ∷ xs) = run (step c x) xs
