-- ===== src/PushSink/Cuts.antt =====
-- The two ends at which a list of buffered cycles loses its measurements.
use native.Mathlib.Numerals.{add-one}
use smokeping_go.Common.{
  Bool, true, false, ℕ, zero, suc, ◌+◌, ◌-◌, ◌≤◌, ◌≡◌, refl, sym, ap, ◌∙◌, List, [], ◌∷◌, ◌++◌, map,
  arith, length, take, drop, All, length-append, length-map,
}
use smokeping_go.Cluster.{CyclePayload}
use smokeping_go.PushSink.Ring.{take-append}
use smokeping_go.PushSink.Entries.{Hopless}

-- How an eviction cuts the list of entries: at the front or at the back.
pub record Cut : Type 0 where
  pub at_front : Bool
  pub cut : ℕ → List CyclePayload → List CyclePayload
  pub cut_zero : (es : List CyclePayload) → cut 0 es ≡ es
  pub cut_more : (k : ℕ) (es : List CyclePayload) → cut k (cut 1 es) ≡ cut (k + 1) es
  pub map-cut :
      (f : CyclePayload → CyclePayload) (k : ℕ) (es : List CyclePayload)
      → map f (cut k es) ≡ cut k (map f es)
  pub All-cut : (es : List CyclePayload) → All Hopless es → All Hopless (cut 1 es)

pub drop-drop : (k : ℕ) (es : List CyclePayload) → drop k (drop 1 es) ≡ drop (k + 1) es
drop-drop k [] = rw add-one (nothing k)
  where
    nothing : (k : ℕ) → ◌≡◌ {A = List CyclePayload} (drop k []) []
    nothing zero = refl
    nothing (suc k) = refl
drop-drop k (e ∷ es) = rw add-one

pub map-drop :
    (f : CyclePayload → CyclePayload) (k : ℕ) (es : List CyclePayload)
    → map f (drop k es) ≡ drop k (map f es)
map-drop f zero es = refl
map-drop f (suc k) [] = refl
map-drop f (suc k) (e ∷ es) = map-drop f k es

take-take : (a b : ℕ) (es : List CyclePayload) → a ≤ b → take a (take b es) ≡ take a es
take-take zero b es h = refl
take-take (suc a) zero es h = elim h [ ]
take-take (suc a) (suc b) [] h = refl
take-take (suc a) (suc b) (e ∷ es) h = ap (◌∷◌ e) (take-take a b es (omega arith))

pub map-take :
    (f : CyclePayload → CyclePayload) (k : ℕ) (es : List CyclePayload)
    → map f (take k es) ≡ take k (map f es)
map-take f zero es = refl
map-take f (suc k) [] = refl
map-take f (suc k) (e ∷ es) = ap (◌∷◌ (f e)) (map-take f k es)

pub take_all : (n : ℕ) (es : List CyclePayload) → length es ≤ n → take n es ≡ es
take_all zero [] h = refl
take_all zero (e ∷ es) h = elim h [ ]
take_all (suc n) [] h = refl
take_all (suc n) (e ∷ es) h = ap (◌∷◌ e) (take_all n es (omega arith))

pub All-take : (k : ℕ) (es : List CyclePayload) → All Hopless es → All Hopless (take k es)
All-take zero es h = tt
All-take (suc k) [] h = tt
All-take (suc k) (e ∷ es) h = (h.0, All-take k es h.1)

pub All-drop_one : (es : List CyclePayload) → All Hopless es → All Hopless (drop 1 es)
All-drop_one [] h = tt
All-drop_one (e ∷ es) h = h.1

pub length-take_le : (k : ℕ) (es : List CyclePayload) → k ≤ length es → length (take k es) ≡ k
length-take_le zero es h = refl
length-take_le (suc k) [] h = elim h [ ]
length-take_le (suc k) (e ∷ es) h = ap suc (length-take_le k es (omega arith))

-- The oldest entries go.
abbrev pub from_front : Cut
from_front = record {
  at_front = true;
  cut = drop;
  cut_zero = λ es. refl;
  cut_more = drop-drop;
  map-cut = map-drop;
  All-cut = All-drop_one;
}

abbrev pub drop_back : ℕ → List CyclePayload → List CyclePayload
drop_back k es = take (length es - k) es

pub drop_back-drop_back :
    (k : ℕ) (es : List CyclePayload) → drop_back k (drop_back 1 es) ≡ drop_back (k + 1) es
drop_back-drop_back k es =
    take-take (length (drop_back 1 es) - k) (length es - 1) es (omega (arith, shorter))
    ∙ ap (λ m. take m es) (omega (arith, shorter))
  where
    shorter : length (drop_back 1 es) ≡ length es - 1
    shorter = length-take_le (length es - 1) es (omega arith)

-- The newest entries go.
abbrev pub from_back : Cut
from_back = record {
  at_front = false;
  cut = drop_back;
  cut_zero = λ es. take_all (length es - 0) es (omega arith);
  cut_more = drop_back-drop_back;
  map-cut = λ f k es.
      map-take f (length es - k) es ∙ ap (λ m. take (m - k) (map f es)) (sym (length-map f es));
  All-cut = λ es. All-take (length es - 1) es;
}

-- The last entry is what a cut at the back takes.
pub init_cut : (es : List CyclePayload) (e : CyclePayload) → drop_back 1 (es ++ e ∷ []) ≡ es
init_cut es e =
    ap (λ m. take m (es ++ e ∷ [])) (omega (arith, length-append es (e ∷ [])))
    ∙ take-append es (e ∷ [])
