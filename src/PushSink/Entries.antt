-- ===== src/PushSink/Entries.antt =====
-- The buffered cycles as a list, oldest first, and what shedding does to such a list.
use native.Mathlib.Numerals.{add-one}
use smokeping_go.Common.{
  ℕ, zero, suc, ◌+◌, ◌≤◌, ◌<◌, ◌≡◌, ◌≢◌, refl, ap, List, [], ◌∷◌, ◌++◌, map, arith, nat_beq,
  if◌then◌else◌, length, get_or, set, take, All, nat_beq_iff, Bool-cases, inl, inr,
}
use smokeping_go.Cycle.{no_items}
use smokeping_go.Cluster.{CyclePayload}
use smokeping_go.PushSink.{PushSink, zero_payload, read, hop_bytes, payload_heap_bytes, heap_of}

abbrev pub entries : PushSink → List CyclePayload
entries p = read p.buf p.head p.size

-- A cycle without its path history: its counters, RTTs and summary.
abbrev pub measured : CyclePayload → CyclePayload
measured e = record e { hops = no_items }

-- What shedding leaves of a cycle: one that has no hops is left alone.
abbrev pub bare : CyclePayload → CyclePayload
bare e = if nat_beq (length e.hops.items) 0 then e else measured e

abbrev pub Hopless : CyclePayload → Type 0
Hopless e = length e.hops.items ≡ 0

-- How many cycles carry hops.
unfoldable pub hopful : List CyclePayload → ℕ
hopful [] = 0
hopful (e ∷ es) = (if nat_beq (length e.hops.items) 0 then 0 else 1) + hopful es

-- What holds between operations.
pub record Inv (p : PushSink) : Type 0 where
  pub room : 0 < length p.buf
  pub within : p.size ≤ length p.buf
  pub headed : p.head < length p.buf
  pub counted : p.heap ≡ heap_of (entries p)
  pub shed : All Hopless (take p.strip_idx (entries p))

pub bytes_measured :
    (e : CyclePayload) → payload_heap_bytes (measured e) + hop_bytes e.hops ≡ payload_heap_bytes e
unfolding payload_heap_bytes
bytes_measured e = omega arith

pub heap_of-set :
    (es : List CyclePayload) (i : ℕ) (v : CyclePayload)
    → i < length es
    → heap_of (set es i v) + payload_heap_bytes (get_or es i zero_payload)
      ≡ heap_of es + payload_heap_bytes v
unfolding heap_of
heap_of-set [] i v h = elim h [ ]
heap_of-set (e ∷ es) zero v h = omega arith
heap_of-set (e ∷ es) (suc i) v h = omega (arith, heap_of-set es i v (omega arith))

pub heap_of-append : (es fs : List CyclePayload) → heap_of (es ++ fs) ≡ heap_of es + heap_of fs
unfolding heap_of
heap_of-append [] fs = omega arith
heap_of-append (e ∷ es) fs = omega (arith, heap_of-append es fs)

pub hopful-set :
    (es : List CyclePayload) (i : ℕ)
    → i < length es
    → length (get_or es i zero_payload).hops.items ≢ 0
    → hopful (set es i (measured (get_or es i zero_payload))) + 1 ≡ hopful es
unfolding hopful
hopful-set [] i h n = elim h [ ]
hopful-set (e ∷ es) zero h n = ground arith
hopful-set (e ∷ es) (suc i) h n = omega (arith, hopful-set es i (omega arith) n)

pub hopful-le : (es : List CyclePayload) → hopful es ≤ length es
unfolding hopful
hopful-le [] = omega arith
hopful-le (e ∷ es) = ground (arith, hopful-le es)

pub map-measured-set :
    (es : List CyclePayload) (i : ℕ)
    → map measured (set es i (measured (get_or es i zero_payload))) ≡ map measured es
map-measured-set [] i = refl
map-measured-set (e ∷ es) zero = refl
map-measured-set (e ∷ es) (suc i) = ap (◌∷◌ (measured e)) (map-measured-set es i)

pub map-bare-set :
    (es : List CyclePayload) (i : ℕ)
    → length (get_or es i zero_payload).hops.items ≢ 0
    → map bare (set es i (measured (get_or es i zero_payload))) ≡ map bare es
map-bare-set [] i n = refl
map-bare-set (e ∷ es) zero n = elim (Bool-cases (nat_beq (length e.hops.items) 0)) [
  | inl none_left ↦ absurd (n ((nat_beq_iff (length e.hops.items) 0).0 none_left))
  | inr some_left ↦ rw some_left refl
]
map-bare-set (e ∷ es) (suc i) n = ap (◌∷◌ (bare e)) (map-bare-set es i n)

pub map-bare-Hopless : (es : List CyclePayload) → All Hopless es → map bare es ≡ es
map-bare-Hopless [] h = refl
map-bare-Hopless (e ∷ es) h =
    let gone = (nat_beq_iff (length e.hops.items) 0).1 h.0 in
    rw gone (ap (◌∷◌ e) (map-bare-Hopless es h.1))

-- The shed prefix grows by an entry that has no hops, or has just lost them.
pub shed_next :
    (es : List CyclePayload) (i : ℕ)
    → All Hopless (take i es)
    → Hopless (get_or es i zero_payload)
    → All Hopless (take (i + 1) es)
shed_next es i h k = rw (add-one i) (go es i h k)
  where
    go :
        (es : List CyclePayload) (i : ℕ)
        → All Hopless (take i es)
        → Hopless (get_or es i zero_payload)
        → All Hopless (take (suc i) es)
    go [] i h k = tt
    go (e ∷ es) zero h k = (k, tt)
    go (e ∷ es) (suc i) h k = (h.0, go es i h.1 k)

pub shed_set :
    (es : List CyclePayload) (i : ℕ) (v : CyclePayload)
    → All Hopless (take i es)
    → Hopless v
    → All Hopless (take (i + 1) (set es i v))
shed_set es i v h k = rw (add-one i) (go es i h)
  where
    go :
        (es : List CyclePayload) (i : ℕ)
        → All Hopless (take i es)
        → All Hopless (take (suc i) (set es i v))
    go [] i h = tt
    go (e ∷ es) zero h = (k, tt)
    go (e ∷ es) (suc i) h = (h.0, go es i h.1)

pub All_of_take :
    (es : List CyclePayload) (i : ℕ) → length es ≤ i → All Hopless (take i es) → All Hopless es
All_of_take [] i le h = tt
All_of_take (e ∷ es) zero le h = elim le [ ]
All_of_take (e ∷ es) (suc i) le h = (h.0, All_of_take es i (omega arith) h.1)

pub take_of_All : (es : List CyclePayload) (i : ℕ) → All Hopless es → All Hopless (take i es)
take_of_All es zero h = tt
take_of_All [] (suc i) h = tt
take_of_All (e ∷ es) (suc i) h = (h.0, take_of_All es i h.1)

pub hopful_zero : (es : List CyclePayload) → All Hopless es → hopful es ≡ 0
unfolding hopful
hopful_zero [] h = refl
hopful_zero (e ∷ es) h = ground (arith, hopful_zero es h.1)
