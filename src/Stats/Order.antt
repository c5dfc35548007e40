-- ===== src/Stats/Order.antt =====
-- internal/stats/stats.go: what a summary says of the samples, and that it does not depend on the order
-- in which they came in.
use mathlib.Core.List.{Perm, Permᴰ}
use mathlib.Core.Logic.{∥∥₁_elim}
use native.Mathlib.Nat.{ℕ_set}
use smokeping_go.Common.{
  ℕ, suc, ◌-◌, ◌≤◌, ◌≡◌, refl, sym, subst, false, nat_beq, ap, ap₂, ◌∙◌, inl, inr, List, [], ◌∷◌,
  arith, leb, Bool-cases, length, get_or, All,
}
use smokeping_go.Cycle.{Summary}
use smokeping_go.Stats.{Float64, insert, sort, summarise, compute}

abbrev pub IsSorted : List ℕ → Type 0
IsSorted [] = Unit
IsSorted (x ∷ xs) = All (◌≤◌ x) xs × IsSorted xs

All-insert : (P : ℕ → Type 0) (d : ℕ) (xs : List ℕ) → P d → All P xs → All P (insert d xs)
unfolding insert
All-insert P d [] h all = (h, tt)
All-insert P d (x ∷ xs) h (hx, rest) = elim (Bool-cases (leb d x)) [
  | inl le ↦ rw le (h, (hx, rest))
  | inr gt ↦ rw gt (hx, All-insert P d xs h rest)
]

All-le : (a b : ℕ) (xs : List ℕ) → a ≤ b → All (◌≤◌ b) xs → All (◌≤◌ a) xs
All-le a b [] le all = tt
All-le a b (x ∷ xs) le (h, rest) = (omega (arith, le, h), All-le a b xs le rest)

insert-IsSorted : (d : ℕ) (xs : List ℕ) → IsSorted xs → IsSorted (insert d xs)
unfolding insert
insert-IsSorted d [] s = (tt, tt)
insert-IsSorted d (x ∷ xs) (least, s) = elim (Bool-cases (leb d x)) [
  | inl le ↦
      let below : d ≤ x = ground (arith, le) in
      rw le ((below, All-le d x xs below least), (least, s))
  | inr gt ↦ rw gt (All-insert (◌≤◌ x) d xs (ground (arith, gt)) least, insert-IsSorted d xs s)
]

sort-IsSorted : (xs : List ℕ) → IsSorted (sort xs)
unfolding sort
sort-IsSorted [] = tt
sort-IsSorted (x ∷ xs) = insert-IsSorted x (sort xs) (sort-IsSorted xs)

insert_comm : (a b : ℕ) (xs : List ℕ) → insert a (insert b xs) ≡ insert b (insert a xs)
unfolding insert
insert_comm a b [] = ground arith
insert_comm a b (x ∷ xs) = ground (arith, insert_comm a b xs)

sort-Permᴰ : {xs ys : List ℕ} → Permᴰ xs ys → sort xs ≡ sort ys
unfolding sort
sort-Permᴰ Permᴰ.nil = refl
sort-Permᴰ (Permᴰ.cons e h) = ap₂ insert e (sort-Permᴰ h)
sort-Permᴰ (Permᴰ.swap {l = l} e f) =
    ap₂ (λ a b. insert a (insert b (sort l))) e f ∙ insert_comm _ _ (sort l)
sort-Permᴰ (Permᴰ.trans h k) = sort-Permᴰ h ∙ sort-Permᴰ k

sort-Perm : {xs ys : List ℕ} → Perm xs ys → sort xs ≡ sort ys
sort-Perm h = ∥∥₁_elim h (nats_set _ _) sort-Permᴰ
  where
    nats_set : IsSet (List ℕ)
    nats_set = hlevel ℕ_set

length-insert : (d : ℕ) (xs : List ℕ) → length (insert d xs) ≡ suc (length xs)
unfolding insert
length-insert d [] = refl
length-insert d (x ∷ xs) = ground (arith, length-insert d xs)

-- Whatever holds of the sorted samples holds of the samples.
All-of_insert : (P : ℕ → Type 0) (d : ℕ) (xs : List ℕ) → All P (insert d xs) → P d × All P xs
unfolding insert
All-of_insert P d [] (h, rest) = (h, tt)
All-of_insert P d (x ∷ xs) all = elim (Bool-cases (leb d x)) [
  | inl le ↦ let a : P d × (P x × All P xs) = rw le at all in a
  | inr gt ↦
      let a : P x × All P (insert d xs) = rw gt at all in
      let (h, rest) = All-of_insert P d xs a.1 in (h, (a.0, rest))
]

All-of_sort : (P : ℕ → Type 0) (xs : List ℕ) → All P (sort xs) → All P xs
unfolding sort
All-of_sort P [] all = tt
All-of_sort P (x ∷ xs) all =
    let (h, rest) = All-of_insert P x (sort xs) all in (h, All-of_sort P xs rest)

-- The last of a sorted list is at least every element.
below_last :
    (x : ℕ) (xs : List ℕ)
    → IsSorted (x ∷ xs)
    → All (λ d. d ≤ get_or (x ∷ xs) (length xs) 0) (x ∷ xs)
below_last x [] s = (omega arith, tt)
below_last x (y ∷ ys) ((le, _), s) =
    let (h, rest) = below_last y ys s in (omega (arith, le, h), (h, rest))

abbrev pub Between : ℕ → ℕ → ℕ → Type 0
Between low high d = (low ≤ d) × (d ≤ high)

zip_All :
    (low high : ℕ) (xs : List ℕ)
    → All (◌≤◌ low) xs
    → All (λ d. d ≤ high) xs
    → All (Between low high) xs
zip_All low high [] a b = tt
zip_All low high (x ∷ xs) (h, a) (k, b) = ((h, k), zip_All low high xs a b)

at_least_first : (xs : List ℕ) → IsSorted xs → All (◌≤◌ (get_or xs 0 0)) xs
at_least_first [] s = tt
at_least_first (x ∷ xs) s = (omega arith, s.0)

at_most_last : (xs : List ℕ) → IsSorted xs → All (λ d. d ≤ get_or xs (length xs - 1) 0) xs
at_most_last [] s = tt
at_most_last (x ∷ xs) s =
    let e : length xs ≡ length (x ∷ xs) - 1 = omega arith in
    subst (λ n. All (λ d. d ≤ get_or (x ∷ xs) n 0) (x ∷ xs)) e (below_last x xs s)

sorted_range :
    (xs : List ℕ) → IsSorted xs → All (Between (get_or xs 0 0) (get_or xs (length xs - 1) 0)) xs
sorted_range xs s = zip_All _ _ xs (at_least_first xs s) (at_most_last xs s)

length-sort : (xs : List ℕ) → length (sort xs) ≡ length xs
unfolding sort
length-sort [] = refl
length-sort (x ∷ xs) = omega (arith, length-insert x (sort xs), length-sort xs)

module _ {F : Type 0} (float : Float64 F) (half : F) (ratios : List F) where
  compute_some :
      (x : ℕ) (xs : List ℕ)
      → compute float half ratios (x ∷ xs) ≡ summarise float half ratios (sort (x ∷ xs))
  unfolding compute
  compute_some x xs = let e : nat_beq (length (x ∷ xs)) 0 ≡ false = ground arith in rw e refl

  -- Every sample lies between the summary's Min and Max.
  pub compute_range :
      (xs : List ℕ) → let s = compute float half ratios xs in All (Between s.low s.high) xs
  unfolding summarise
  compute_range [] = tt
  compute_range (x ∷ xs) =
      subst (λ (s : Summary ℕ). All (Between s.low s.high) (x ∷ xs)) (sym (compute_some x xs))
        (All-of_sort _ (x ∷ xs) (sorted_range _ (sort-IsSorted (x ∷ xs))))

  -- The summary does not depend on the order in which the samples came in.
  pub compute_order :
      (xs ys : List ℕ) → Perm xs ys → compute float half ratios xs ≡ compute float half ratios ys
  unfolding compute
  compute_order xs ys same =
      let sorts : sort xs ≡ sort ys = sort-Perm same in
      let lengths : length xs ≡ length ys =
        sym (length-sort xs) ∙ ap length sorts ∙ length-sort ys in
      rw (lengths, sorts) refl
