-- ===== src/Dedup.antt =====
-- internal/cluster/master/dedup.go: the window of recent cycle identities that ingest keeps for each
-- source, and the set of windows. `nano` is an int64 that the code only compares, so it stands here
-- as a number; `inserted`, `used` and `clock` are uint64 and wrap.
pub mod Invariant
pub mod Retention
pub mod History
pub mod Sources
pub mod Names
pub mod Examples
use smokeping_go.Common.{
  ℕ, ◌+◌, ◌-◌, ◌%◌, ◌≡◌, ◌↔◌, Bool, true, false, not, ◌&&◌, Option, none, some, List, [], ◌∷◌, ◌++◌,
  arith, ltb, leb, nat_beq, if◌then◌else◌, Str, str_beq, str_beq_iff, str_eq, Eq, length, get_elem?,
  set,
}
use smokeping_go.Common.Map
use smokeping_go.Limits.{max_cycles_per_batch, max_registered_slaves, u64_mod}

pub record CycleId : Type 0 where
  pub target : Str
  pub nano : ℕ

abbrev pub cycle_id_beq : CycleId → CycleId → Bool
cycle_id_beq a b = str_beq a.target b.target && nat_beq a.nano b.nano

pub cycle_id_beq_iff : (a b : CycleId) → (cycle_id_beq a b ≡ true) ↔ (a ≡ b)
cycle_id_beq_iff a b = ground (arith, str_beq_iff a.target b.target)

instance abbrev pub cycle_id_eq : Eq CycleId
cycle_id_eq = record { beq = cycle_id_beq; beq_iff = cycle_id_beq_iff }

abbrev pub window_size : ℕ
window_size = max_cycles_per_batch

abbrev pub max_sources : ℕ
max_sources = max_registered_slaves

pub record SourceWindow : Type 0 where
  pub seen : List (CycleId × ℕ)
  pub names : List (Str × Str)
  pub ring : List CycleId
  pub inserted : ℕ  -- uint64
  pub used : ℕ  -- uint64

-- The window that the dedup's admit makes for a source that it has not met.
abbrev pub empty_window : SourceWindow
empty_window = record { seen = []; names = []; ring = []; inserted = 0; used = 0 }

-- The table of spellings is cleared once it has outgrown the window.
unfoldable pub trim : List (Str × Str) → List (Str × Str)
trim names = if ltb window_size (length names) then [] else names

-- The interned spelling of a target, and the table that holds it.
unfoldable pub intern : List (Str × Str) → Str → Str × List (Str × Str)
intern names target = elim (Map.lookup target names) [
  | some canonical ↦ (canonical, names)
  | none ↦ (target, Map.insert target target names)
]

-- What the overwritten slot held is deleted from `seen` if no later insertion has superseded it.
unfoldable pub evict : List (CycleId × ℕ) → Option CycleId → ℕ → List (CycleId × ℕ)
evict seen none pos = seen
evict seen (some evicted) pos = elim (Map.lookup evicted seen) [
  | none ↦ seen
  | some at ↦
      if nat_beq at ((pos + u64_mod - window_size) % u64_mod) then Map.delete evicted seen else seen
]

-- An identity that is new takes the next slot. The ring is full in the second branch, so its slot
-- is in range.
unfoldable pub put : SourceWindow → CycleId → SourceWindow
unfolding evict
put w id =
    let pos = w.inserted in
    let idx = pos % window_size in
    if ltb (length w.ring) window_size
    then record w {
      ring = w.ring ++ id ∷ [];
      seen = Map.insert id pos w.seen;
      inserted = (pos + 1) % u64_mod;
    }
    else record w {
      ring = set w.ring idx id;
      seen = Map.insert id pos (evict w.seen (get_elem? w.ring idx) pos);
      inserted = (pos + 1) % u64_mod;
    }

unfoldable pub offer : SourceWindow → CycleId → SourceWindow × Bool
offer w id = if Map.has id w.seen then (w, false) else (put w id, true)

unfoldable pub admit_window : SourceWindow → Str → ℕ → SourceWindow × Bool
admit_window w target nano =
    let (canonical, table) = intern (trim w.names) target in
    offer (record w { names = table }) (record { target = canonical; nano = nano })

-- The body of `forget` on the window of its source.
unfoldable pub forget_window : SourceWindow → Str → ℕ → SourceWindow
forget_window w target nano = record w {
  seen = Map.delete (record { target = target; nano = nano }) w.seen;
}

pub record CycleDedup : Type 0 where
  pub clock : ℕ  -- uint64
  pub by_source : List (Str × SourceWindow)
  pub registered : Option (Str → Bool)

abbrev pub new_dedup : CycleDedup
new_dedup = record { clock = 0; by_source = []; registered = none }

abbrev pub holds : Option (Str → Bool) → Str → Bool
holds none name = true
holds (some f) name = f name

-- What the loop of `evictLRU` has found: the victim, its `used`, and whether its source is gone.
pub record Victim : Type 0 where
  pub name : Str
  pub oldest : ℕ
  pub dead : Bool

unfoldable pub better : Option Victim → Bool → ℕ → Bool
better none dead used = true
better (some v) true used = if v.dead then ltb used v.oldest else true
better (some v) false used = not v.dead && ltb used v.oldest

unfoldable pub scan :
    Option (Str → Bool) → Option Victim → List (Str × SourceWindow) → Option Victim
scan reg best [] = best
scan reg best ((name, w) ∷ rest) =
    let dead = not (holds reg name) in
    scan reg
      (if better best dead w.used
        then some (record { name = name; oldest = w.used; dead = dead })
        else best)
      rest

unfoldable pub evict_lru : CycleDedup → CycleDedup
evict_lru d = elim (scan d.registered none d.by_source) [
  | none ↦ d
  | some v ↦ record d { by_source = Map.delete v.name d.by_source }
]

-- A newcomer at the ceiling drops another source's window.
unfoldable pub make_room : CycleDedup → CycleDedup
make_room d = if leb max_sources (length d.by_source) then evict_lru d else d

unfoldable pub window_for : CycleDedup → Str → CycleDedup × SourceWindow
window_for d source = elim (Map.lookup source d.by_source) [
  | some w ↦ (d, w)
  | none ↦ (make_room d, empty_window)
]

unfoldable pub admit : CycleDedup → Str → Str → ℕ → CycleDedup × Bool
admit d source target nano =
    let now = (d.clock + 1) % u64_mod in
    let (d', w) = window_for (record d { clock = now }) source in
    let (w', fresh) = admit_window (record w { used = now }) target nano in
    (record d' { by_source = Map.insert source w' d'.by_source }, fresh)

unfoldable pub forget : CycleDedup → Str → Str → ℕ → CycleDedup
forget d source target nano = elim (Map.lookup source d.by_source) [
  | none ↦ d
  | some w ↦ record d { by_source = Map.insert source (forget_window w target nano) d.by_source }
]

unfoldable pub forget_source : CycleDedup → Str → CycleDedup
forget_source d source = elim d.registered [
  | none ↦ record d { by_source = Map.delete source d.by_source }
  | some f ↦ if f source then d else record d { by_source = Map.delete source d.by_source }
]
