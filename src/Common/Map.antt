-- ===== src/Common/Map.antt =====
-- Go maps as association lists. A key is written once, in place or at the end, and `range` walks the
-- list: a theorem that holds of every list holds of every iteration order.
use Prim.Native.Nat.{suc, ◌≤◌, ◌<◌}
use mathlib.Core.Path.{◌≡◌, refl, ap, ◌∙◌}
use mathlib.Core.Logic.{◌≢◌, ◌⊎◌, inl, inr}
use mathlib.Core.Bool.{Bool, true, false, ◌&&◌, ◌||◌, not}
use mathlib.Core.List.{List, [], ◌∷◌}
use mathlib.Core.Option.{Option, none, some}
use native.Mathlib.Omega.{arith}
use smokeping_go.Common.Tests.{if◌then◌else◌, Eq, ◌==◌, ==_refl, Bool-cases}
use smokeping_go.Common.Lists.{length}

module _ {ℓ κ} {K : Type ℓ} {V : Type κ} ⦃e : Eq K⦄ where
  unfoldable pub lookup : K → List (K × V) → Option V
  lookup k [] = none
  lookup k ((j, v) ∷ m) = if j == k then some v else lookup k m

  unfoldable pub insert : K → V → List (K × V) → List (K × V)
  insert k v [] = (k, v) ∷ []
  insert k v ((j, w) ∷ m) = if j == k then (k, v) ∷ m else (j, w) ∷ insert k v m

  unfoldable pub delete : K → List (K × V) → List (K × V)
  delete k [] = []
  delete k ((j, w) ∷ m) = if j == k then delete k m else (j, w) ∷ delete k m

  unfoldable pub has : K → List (K × V) → Bool
  has k [] = false
  has k ((j, w) ∷ m) = if j == k then true else has k m

  -- The entries that pass a test: Go deletes in a `range` loop.
  unfoldable pub retain : (K → V → Bool) → List (K × V) → List (K × V)
  retain p [] = []
  retain p ((j, w) ∷ m) = if p j w then (j, w) ∷ retain p m else retain p m

  -- No key stands twice.
  abbrev pub IsMap : List (K × V) → Type 0
  IsMap [] = Unit
  IsMap ((j, w) ∷ m) = (has j m ≡ false) × IsMap m

module _ {ℓ κ} {K : Type ℓ} {V : Type κ} ⦃e : Eq K⦄ where
  pub lookup-insert :
      (j k : K) (v : V) (m : List (K × V))
      → lookup j (insert k v m) ≡ (if k == j then some v else lookup j m)
  unfolding lookup insert
  lookup-insert j k v [] = refl
  lookup-insert j k v ((i, w) ∷ m) =
      ground (arith, e.beq_iff k j, e.beq_iff i k, e.beq_iff i j, lookup-insert j k v m)

  pub lookup-insert_self : (k : K) (v : V) (m : List (K × V)) → lookup k (insert k v m) ≡ some v
  lookup-insert_self k v m = rw (lookup-insert k k v m, ==_refl k)

  pub lookup-delete :
      (j k : K) (m : List (K × V)) → lookup j (delete k m) ≡ (if k == j then none else lookup j m)
  unfolding lookup delete
  lookup-delete j k [] = ground arith
  lookup-delete j k ((i, w) ∷ m) =
      ground (arith, e.beq_iff k j, e.beq_iff i k, e.beq_iff i j, lookup-delete j k m)

  pub lookup-delete_self : (k : K) (m : List (K × V)) → lookup k (delete k m) ≡ none
  lookup-delete_self k m = rw (lookup-delete k k m, ==_refl k)

  pub has-lookup : (k : K) (m : List (K × V)) → has k m ≡ true → (v : V) × (lookup k m ≡ some v)
  unfolding lookup has
  has-lookup k [] h = absurd (ground arith)
  has-lookup k ((j, w) ∷ m) h = elim (Bool-cases (j == k)) [
    | inl e ↦ (w, rw e)
    | inr n ↦ rw n (has-lookup k m (ground arith))
  ]

  pub lookup-has : (k : K) (v : V) (m : List (K × V)) → lookup k m ≡ some v → has k m ≡ true
  unfolding lookup has
  lookup-has k v [] h = ground arith
  lookup-has k v ((j, w) ∷ m) h = ground (arith, lookup-has k v m)

  pub lookup-has_not : (k : K) (m : List (K × V)) → lookup k m ≡ none → has k m ≡ false
  unfolding lookup has
  lookup-has_not k [] h = refl
  lookup-has_not k ((j, w) ∷ m) h = ground (arith, lookup-has_not k m)

  pub length-insert :
      (k : K) (v : V) (m : List (K × V))
      → length (insert k v m) ≡ (if has k m then length m else suc (length m))
  unfolding insert has
  length-insert k v [] = refl
  length-insert k v ((j, w) ∷ m) = ground (arith, length-insert k v m)

  pub has-insert : (j k : K) (v : V) (m : List (K × V)) → has j (insert k v m) ≡ (k == j || has j m)
  unfolding insert has
  has-insert j k v [] = ground arith
  has-insert j k v ((i, w) ∷ m) =
      ground (arith, e.beq_iff k j, e.beq_iff i k, e.beq_iff i j, has-insert j k v m)

  pub has-delete : (j k : K) (m : List (K × V)) → has j (delete k m) ≡ (not (k == j) && has j m)
  unfolding delete has
  has-delete j k [] = ground arith
  has-delete j k ((i, w) ∷ m) =
      ground (arith, e.beq_iff k j, e.beq_iff i k, e.beq_iff i j, has-delete j k m)

  pub insert-IsMap : (k : K) (v : V) (m : List (K × V)) → IsMap m → IsMap (insert k v m)
  unfolding insert has
  insert-IsMap k v [] h = (refl, tt)
  insert-IsMap k v ((j, w) ∷ m) h =
      ground (arith, e.beq_iff j k, e.beq_iff k j, has-insert j k v m, insert-IsMap k v m h.1)

  pub delete-IsMap : (k : K) (m : List (K × V)) → IsMap m → IsMap (delete k m)
  unfolding delete has
  delete-IsMap k [] h = tt
  delete-IsMap k ((j, w) ∷ m) h = ground (arith, has-delete j k m, delete-IsMap k m h.1)

  pub length-delete-le : (k : K) (m : List (K × V)) → length (delete k m) ≤ length m
  unfolding delete
  length-delete-le k [] = omega arith
  length-delete-le k ((j, w) ∷ m) = ground (arith, length-delete-le k m)

  pub length-delete-lt :
      (k : K) (m : List (K × V)) → has k m ≡ true → length (delete k m) < length m
  unfolding delete has
  length-delete-lt k [] h = absurd (ground arith)
  length-delete-lt k ((j, w) ∷ m) h = ground (arith, length-delete-le k m, length-delete-lt k m)

  pub length-retain-le : (p : K → V → Bool) (m : List (K × V)) → length (retain p m) ≤ length m
  unfolding retain
  length-retain-le p [] = omega arith
  length-retain-le p ((j, w) ∷ m) = ground (arith, length-retain-le p m)

  -- What a lookup that succeeds after a write or a deletion says.
  pub lookup-insert-some :
      (j k : K) (v u : V) (m : List (K × V))
      → lookup j (insert k v m) ≡ some u
      → ((k ≡ j) × (v ≡ u)) ⊎ ((k ≢ j) × (lookup j m ≡ some u))
  lookup-insert-some j k v u m h = elim (Bool-cases (k == j)) [
    | inl same ↦ inl ((e.beq_iff k j).0 same, ground (arith, lookup-insert j k v m))
    | inr other ↦ inr (λ p. cc ((e.beq_iff k j).1 p), ground (arith, lookup-insert j k v m))
  ]

  pub lookup-insert_ne :
      (j k : K) (v : V) (m : List (K × V)) → k ≢ j → lookup j (insert k v m) ≡ lookup j m
  lookup-insert_ne j k v m h = elim (Bool-cases (k == j)) [
    | inl same ↦ absurd (h ((e.beq_iff k j).0 same))
    | inr other ↦ rw (lookup-insert j k v m, other)
  ]

  pub lookup-delete-some :
      (j k : K) (u : V) (m : List (K × V))
      → lookup j (delete k m) ≡ some u
      → (k ≢ j) × (lookup j m ≡ some u)
  lookup-delete-some j k u m h = elim (Bool-cases (k == j)) [
    | inl same ↦ absurd (ground (arith, lookup-delete j k m))
    | inr other ↦ (λ p. cc ((e.beq_iff k j).1 p), ground (arith, lookup-delete j k m))
  ]

  pub lookup-delete_ne : (j k : K) (m : List (K × V)) → k ≢ j → lookup j (delete k m) ≡ lookup j m
  lookup-delete_ne j k m h = elim (Bool-cases (k == j)) [
    | inl same ↦ absurd (h ((e.beq_iff k j).0 same))
    | inr other ↦ rw (lookup-delete j k m, other)
  ]

  pub lookup-retain :
      (k : K) (v : V) (p : K → V → Bool) (m : List (K × V))
      → lookup k m ≡ some v
      → p k v ≡ true
      → lookup k (retain p m) ≡ some v
  unfolding lookup retain
  lookup-retain k v p [] h good = h
  lookup-retain k v p ((j, w) ∷ m) h good = elim (Bool-cases (j == k)) [
    | inl same ↦ rw (holds same, same) (rw same at h)
    | inr other ↦ elim (Bool-cases (p j w)) [
      | inl stays ↦ rw (stays, other) (lookup-retain k v p m (ground arith) good)
      | inr goes ↦ rw goes (lookup-retain k v p m (ground arith) good)
    ]
  ]
    where
      holds : (j == k) ≡ true → p j w ≡ true
      holds same = ap (p j) (same_value same) ∙ ap (λ i. p i v) ((e.beq_iff j k).0 same) ∙ good
        where
          same_value : (j == k) ≡ true → w ≡ v
          same_value same = ground arith

  -- A test on keys alone decides for each key whether its entry stands.
  pub lookup-retain_by_key :
      (k : K) (p : K → Bool) (m : List (K × V))
      → lookup k (retain (λ j v. p j) m) ≡ (if p k then lookup k m else none)
  unfolding lookup retain
  lookup-retain_by_key k p [] = ground arith
  lookup-retain_by_key k p ((j, w) ∷ m) =
      ground (arith, lookup-retain_by_key k p m, e.beq_iff j k, ap p {x = j} {y = k})
