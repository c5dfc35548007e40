-- ===== src/Common/Sort.antt =====
-- slices.Sort and slices.SortFunc on values that a string names: sorted by name, by insertion. Names
-- that are sorted do not depend on the order in which a map was walked.
use mathlib.Core.List.{Perm, Permᴰ, List, [], ◌∷◌}
use mathlib.Core.List.Perm
use mathlib.Core.Path.{◌≡◌, refl, ap₂, ◌∙◌}
use mathlib.Core.Logic.{inl, inr, ∥∥₁_elim}
use mathlib.Core.Bool.{true, false}
use native.Mathlib.Omega.{arith}
use smokeping_go.Common.Tests.{if◌then◌else◌, Bool-cases}
use smokeping_go.Common.Strings.{Str, str_ltb, str_ltb_irrefl, str_ltb_trans, str_ltb_total}
use smokeping_go.Common.Lists.{All}

-- A value goes before the first that its name is below.
module _ {ℓ} {A : Type ℓ} (key : A → Str) where
  unfoldable pub insert_by : A → List A → List A
  insert_by a [] = a ∷ []
  insert_by a (x ∷ xs) = if str_ltb (key a) (key x) then a ∷ x ∷ xs else x ∷ insert_by a xs

  unfoldable pub sort_by : List A → List A
  unfolding insert_by
  sort_by [] = []
  sort_by (x ∷ xs) = insert_by x (sort_by xs)

  pub insert_by-perm : (a : A) (xs : List A) → Perm (insert_by a xs) (a ∷ xs)
  unfolding insert_by
  insert_by-perm a [] = Perm.refl _
  insert_by-perm a (x ∷ xs) = elim (Bool-cases (str_ltb (key a) (key x))) [
    | inl below ↦ rw below (Perm.refl _)
    | inr above ↦ rw above (Perm.trans (Perm.cons x (insert_by-perm a xs)) (Perm.swap a x xs))
  ]

  pub sort_by-perm : (xs : List A) → Perm (sort_by xs) xs
  unfolding sort_by
  sort_by-perm [] = Perm.refl _
  sort_by-perm (x ∷ xs) = Perm.trans (insert_by-perm x (sort_by xs)) (Perm.cons x (sort_by-perm xs))

  -- Each name is not below those before it.
  abbrev pub IsSorted : List A → Type 0
  IsSorted [] = Unit
  IsSorted (x ∷ xs) = All (λ y. str_ltb (key y) (key x) ≡ false) xs × IsSorted xs

  pub All-insert_by {κ} :
      (P : A → Type κ) (a : A) (xs : List A) → P a → All P xs → All P (insert_by a xs)
  unfolding insert_by
  All-insert_by P a [] pa h = (pa, tt)
  All-insert_by P a (x ∷ xs) pa h = elim (Bool-cases (str_ltb (key a) (key x))) [
    | inl below ↦ rw below (pa, h)
    | inr above ↦ rw above (h.0, All-insert_by P a xs pa h.1)
  ]

  above_less :
      (a x : A) (ys : List A)
      → str_ltb (key a) (key x) ≡ true
      → All (λ y. str_ltb (key y) (key x) ≡ false) ys
      → All (λ y. str_ltb (key y) (key a) ≡ false) ys
  above_less a x [] h k = tt
  above_less a x (y ∷ ys) h k =
      (ground (arith, str_ltb_trans (key y) (key a) (key x)), above_less a x ys h k.1)

  pub insert_by-IsSorted : (a : A) (xs : List A) → IsSorted xs → IsSorted (insert_by a xs)
  unfolding insert_by
  insert_by-IsSorted a [] h = (tt, tt)
  insert_by-IsSorted a (x ∷ xs) h = elim (Bool-cases (str_ltb (key a) (key x))) [
    | inl below ↦ rw below (
      (
        ground (arith, str_ltb_trans (key x) (key a) (key x), str_ltb_irrefl (key x)),
        above_less a x xs below h.0,
      ),
      h,
    )
    | inr above ↦ rw above (All-insert_by _ a xs above h.0, insert_by-IsSorted a xs h.1)
  ]

  pub sort_by-IsSorted : (xs : List A) → IsSorted (sort_by xs)
  unfolding sort_by
  sort_by-IsSorted [] = tt
  sort_by-IsSorted (x ∷ xs) = insert_by-IsSorted x (sort_by xs) (sort_by-IsSorted xs)

-- Names sorted by themselves.
abbrev pub itself : Str → Str
itself s = s

insert_comm :
    (a b : Str) (xs : List Str)
    → insert_by itself a (insert_by itself b xs) ≡ insert_by itself b (insert_by itself a xs)
unfolding insert_by
insert_comm a b [] = ground (arith, str_ltb_total a b, str_ltb_trans a b a, str_ltb_irrefl a)
insert_comm a b (x ∷ xs) = ground (
  arith,
  str_ltb_total a b,
  str_ltb_trans a b a,
  str_ltb_irrefl a,
  str_ltb_trans a b x,
  str_ltb_trans b a x,
  insert_comm a b xs,
)

sort-Permᴰ : {xs ys : List Str} → Permᴰ xs ys → sort_by itself xs ≡ sort_by itself ys
unfolding sort_by
sort-Permᴰ Permᴰ.nil = refl
sort-Permᴰ (Permᴰ.cons e h) = ap₂ (insert_by itself) e (sort-Permᴰ h)
sort-Permᴰ (Permᴰ.swap {l = l} e f) =
    ap₂ (λ a b. insert_by itself a (insert_by itself b (sort_by itself l))) e f
    ∙ insert_comm _ _ (sort_by itself l)
sort-Permᴰ (Permᴰ.trans h k) = sort-Permᴰ h ∙ sort-Permᴰ k

pub Str_set : IsSet Str
Str_set = hlevel

-- Names come out the same in whatever order they went in.
pub sort-Perm : {xs ys : List Str} → Perm xs ys → sort_by itself xs ≡ sort_by itself ys
sort-Perm h = ∥∥₁_elim h (strs_set _ _) sort-Permᴰ
  where
    strs_set : IsSet (List Str)
    strs_set = hlevel Str_set
