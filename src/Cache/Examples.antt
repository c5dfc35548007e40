-- ===== src/Cache/Examples.antt =====
-- A cache of two entries, over a few fetches.
use smokeping_go.Common.{
  ℕ, ◌≤◌, ◌≡◌, refl, pos, negsuc, Bool, none, some, List, [], ◌∷◌, bytes, nat_beq, length, nat_eq,
}
use smokeping_go.Common.Map
use smokeping_go.Cycle.{TargetRef}
use smokeping_go.Cache.{
  Cache, Entry, Outcome, Event, looking, entering, completing, max_inflight_leaders, new_cache,
  drop_back, evict, move_to_front, lookup, enter, look, store_locked, stand_in, is_refusal, release,
  complete, step, run, QueryError,
}
use smokeping_go.Cache.Bounds.{cache_bounded}
use smokeping_go.Cache.Contents.{results, hit_is_last_result}
use smokeping_go.Cache.Keys.{
  QueryFilter, SameWindow, cycle_key, floor_unix, ceil_unix, whole, truncate, cycle_keys_close,
}

abbrev no_points : ℕ → Bool
no_points n = nat_beq n 0

abbrev start : Cache ℕ ℕ
start = new_cache 256 (pos 2)

-- Three keys of which the first is evicted, a refresh of the second, and an outage.
abbrev busy : List (Event ℕ ℕ)
busy =
    entering 1 10
    ∷ completing 1 60 20 (Outcome.found 7)
    ∷ entering 2 30
    ∷ completing 2 60 40 (Outcome.found 8)
    ∷ entering 3 50
    ∷ completing 3 60 60 (Outcome.found 9)
    ∷ looking 2 70
    ∷ entering 2 110
    ∷ completing 2 60 120 (Outcome.failed QueryError.unavailable)
    ∷ entering 2 130
    ∷ completing 2 60 140 (Outcome.found 6)
    ∷ entering 1 150
    ∷ []

cache_bounded_example :
    let c = run no_points start busy in
    (length c.order ≤ 2) × (length c.inflight ≤ max_inflight_leaders)
cache_bounded_example = cache_bounded no_points 256 (pos 2) busy

hits : (lookup 2 150 (run no_points start busy)).0 ≡ some 6
unfolding lookup run step look enter complete store_locked move_to_front evict drop_back release
    stand_in is_refusal Map.lookup Map.insert Map.delete Map.has
hits = refl

hit_is_last_result_example :
    (x : Entry ℕ) × (Map.lookup 2 (results no_points start busy []) ≡ some x)
    × (x.points ≡ 6)
    × (150 ≤ x.expires)
hit_is_last_result_example = hit_is_last_result no_points 256 (pos 2) busy 2 150 6 hits

abbrev a_ref : TargetRef
a_ref = record {
  group = bytes "g";
  target = record {
    name = bytes "t";
    probe = bytes "icmp";
    host = bytes "h";
    url = [];
    family = [];
    slaves = [];
    alerts = [];
    title = [];
  };
}

abbrev raw : QueryFilter
raw = record { source = []; step = 0; latest_since = none }

-- Around the epoch the quantum of the start is twice as wide: these are 598 seconds apart.
shared :
    cycle_key a_ref (negsuc 298999999999) (pos 900000000000) raw
    ≡ cycle_key a_ref (pos 299000000000) (pos 890000000000) raw
unfolding cycle_key floor_unix ceil_unix whole truncate
shared = refl

cycle_keys_close_example :
    SameWindow a_ref a_ref
      (negsuc 298999999999)
      (pos 299000000000)
      (pos 900000000000)
      (pos 890000000000)
      raw
      raw
cycle_keys_close_example =
    cycle_keys_close a_ref a_ref (negsuc 298999999999) (pos 299000000000) (pos 900000000000)
      (pos 890000000000) raw raw shared
