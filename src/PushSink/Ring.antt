-- ===== src/PushSink/Ring.antt =====
-- The ring as a list: what reads through the modular indices see of a write.
use native.Mathlib.Nat.{mod-add-mod, mod-eq_of_lt, mod-lt, add-zero, zero-add, suc-add}
use smokeping_go.Common.{
  ℕ, zero, suc, ◌+◌, ◌%◌, ◌≤◌, ◌<◌, ◌≡◌, ◌≢◌, refl, sym, ap, ap₂, ◌∙◌, List, [], ◌∷◌, ◌++◌, arith,
  length, get_or, set, take, drop, length-set, length-append,
}
use smokeping_go.Cluster.{CyclePayload}
use smokeping_go.PushSink.{zero_payload, read}

pub mod_step : (a b l : ℕ) → a % l ≡ b % l → (a + 1) % l ≡ (b + 1) % l
mod_step a b l h = sym (mod-add-mod a l 1) ∙ ap (λ t. (t + 1) % l) h ∙ mod-add-mod b l 1

pub slots_apart : (h i j l : ℕ) → i < j → j < i + l → (h + i) % l ≢ (h + j) % l
slots_apart h i j l lt near same = grind arith

pub read-cong :
    (buf : List CyclePayload) (a b n : ℕ)
    → a % length buf ≡ b % length buf
    → read buf a n ≡ read buf b n
unfolding read
read-cong buf a b zero h = refl
read-cong buf a b (suc n) h =
    ap₂ ◌∷◌ (ap (λ i. get_or buf i zero_payload) h)
      (read-cong buf (a + 1) (b + 1) n (mod_step a b (length buf) h))

pub length-read : (buf : List CyclePayload) (h n : ℕ) → length (read buf h n) ≡ n
unfolding read
length-read buf h zero = refl
length-read buf h (suc n) = ap suc (length-read buf (h + 1) n)

-- A split of a read, and its last entry.
pub read-add :
    (buf : List CyclePayload) (h n m : ℕ) → read buf h (n + m) ≡ read buf h n ++ read buf (h + n) m
unfolding read
read-add buf h zero m = rw (zero-add, add-zero)
read-add buf h (suc n) m = rw (suc-add n m) (
    ap (◌∷◌ (get_or buf (h % length buf) zero_payload))
      (read-add buf (h + 1) n m ∙ ap (λ t. read buf (h + 1) n ++ read buf t m) (omega arith)))

pub read_one :
    (buf : List CyclePayload) (h : ℕ) → read buf h 1 ≡ get_or buf (h % length buf) zero_payload ∷ []
unfolding read
read_one buf h = refl

pub get_or-set_self {ℓ} :
    {A : Type ℓ} (xs : List A) (i : ℕ) (v d : A) → i < length xs → get_or (set xs i v) i d ≡ v
get_or-set_self [] i v d h = elim h [ ]
get_or-set_self (x ∷ xs) zero v d h = refl
get_or-set_self (x ∷ xs) (suc i) v d h = get_or-set_self xs i v d (omega arith)

pub get_or-set_ne {ℓ} :
    {A : Type ℓ} (xs : List A) (i j : ℕ) (v d : A) → i ≢ j → get_or (set xs i v) j d ≡ get_or xs j d
get_or-set_ne [] i j v d h = refl
get_or-set_ne (x ∷ xs) zero zero v d h = absurd (h refl)
get_or-set_ne (x ∷ xs) zero (suc j) v d h = refl
get_or-set_ne (x ∷ xs) (suc i) zero v d h = refl
get_or-set_ne (x ∷ xs) (suc i) (suc j) v d h = get_or-set_ne xs i j v d (λ e. h (ap suc e))

-- A write outside the entries that are read is not seen.
pub read-set_outside :
    (buf : List CyclePayload) (h n j : ℕ) (v : CyclePayload)
    → ((k : ℕ) → k < n → j ≢ (h + k) % length buf)
    → read (set buf j v) h n ≡ read buf h n
unfolding read
read-set_outside buf h zero j v apart = refl
read-set_outside buf h (suc n) j v apart = rw (length-set buf j v) (
    ap₂ ◌∷◌
      (get_or-set_ne buf j (h % length buf) v zero_payload
        (λ e. apart zero (omega arith) (e ∙ ap (λ t. t % length buf) (omega arith))))
      (read-set_outside buf (h + 1) n j v
        (λ k lt e. apart (suc k) (omega arith) (e ∙ ap (λ t. t % length buf) (omega arith)))))

-- A write at offset `i` replaces the entry there.
pub read-set :
    (buf : List CyclePayload) (h n i : ℕ) (v : CyclePayload)
    → n ≤ length buf
    → i < n
    → read (set buf ((h + i) % length buf) v) h n ≡ set (read buf h n) i v
unfolding read
read-set buf h zero i v fits lt = elim lt [ ]
read-set buf h (suc n) zero v fits lt =
    ap (λ t. read (set buf (t % length buf) v) h (suc n)) (add-zero h)
    ∙ rw (length-set buf (h % length buf) v) (
        ap₂ ◌∷◌ (get_or-set_self buf (h % length buf) v zero_payload (mod-lt h (omega arith))) (
          read-set_outside buf (h + 1) n (h % length buf) v (λ k lt' e.
            slots_apart h 0 (suc k) (length buf) (omega arith) (omega arith) (
              ap (λ t. t % length buf) (omega arith)
              ∙ e
              ∙ ap (λ t. t % length buf) (omega arith)))))
read-set buf h (suc n) (suc i) v fits lt = rw (length-set buf ((h + suc i) % length buf) v) (
    ap₂ ◌∷◌
      (get_or-set_ne buf ((h + suc i) % length buf) (h % length buf) v zero_payload (λ e.
        slots_apart h 0 (suc i) (length buf) (omega arith) (omega arith)
          (ap (λ t. t % length buf) (omega arith) ∙ sym e)))
      (ap (λ t. read (set buf t v) (h + 1) n) (ap (λ t. t % length buf) (omega arith))
        ∙ read-set buf (h + 1) n i v (omega arith) (omega arith)))

-- A write just behind the entries appends one.
pub read-set_end :
    (buf : List CyclePayload) (h n : ℕ) (v : CyclePayload)
    → n < length buf
    → read (set buf ((h + n) % length buf) v) h (n + 1) ≡ read buf h n ++ v ∷ []
read-set_end buf h n v room =
    read-add (set buf ((h + n) % length buf) v) h n 1
    ∙ ap₂ ◌++◌
        (read-set_outside buf h n ((h + n) % length buf) v
          (λ k lt e. slots_apart h k n (length buf) lt (omega arith) (sym e)))
        (read_one _ (h + n)
          ∙ ap (λ x. x ∷ [])
              (rw (length-set buf ((h + n) % length buf) v)
                (get_or-set_self buf _ v zero_payload (mod-lt (h + n) (omega arith)))))

drop_cons :
    (buf : List CyclePayload) (h : ℕ)
    → h < length buf
    → drop h buf ≡ get_or buf h zero_payload ∷ drop (suc h) buf
drop_cons [] h lt = elim lt [ ]
drop_cons (x ∷ buf) zero lt = refl
drop_cons (x ∷ buf) (suc h) lt = drop_cons buf h (omega arith)

-- Entries that do not wrap round the end.
pub read_straight :
    (buf : List CyclePayload) (h n : ℕ) → h + n ≤ length buf → read buf h n ≡ take n (drop h buf)
unfolding read
read_straight buf h zero lt = refl
read_straight buf h (suc n) lt = rw (drop_cons buf h (omega arith)) (
    ap₂ ◌∷◌ (ap (λ t. get_or buf t zero_payload) (mod-eq_of_lt (omega arith)))
      (ap (λ t. read buf t n) (omega arith) ∙ read_straight buf (suc h) n (omega arith)))

pub take-append : (xs ys : List CyclePayload) → take (length xs) (xs ++ ys) ≡ xs
take-append [] ys = refl
take-append (x ∷ xs) ys = ap (◌∷◌ x) (take-append xs ys)

-- A list read from its own start, whatever stands behind it.
pub read_front : (xs ys : List CyclePayload) → read (xs ++ ys) 0 (length xs) ≡ xs
read_front xs ys =
    read_straight (xs ++ ys) 0 (length xs) (omega (arith, length-append xs ys)) ∙ take-append xs ys

-- The entry at an offset.
pub get_or-read :
    (buf : List CyclePayload) (h n i : ℕ)
    → i < n
    → get_or (read buf h n) i zero_payload ≡ get_or buf ((h + i) % length buf) zero_payload
unfolding read
get_or-read buf h zero i lt = elim lt [ ]
get_or-read buf h (suc n) zero lt = rw (add-zero h)
get_or-read buf h (suc n) (suc i) lt =
    get_or-read buf (h + 1) n i (omega arith)
    ∙ ap (λ t. get_or buf (t % length buf) zero_payload) (omega arith)
