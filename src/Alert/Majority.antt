-- ===== src/Alert/Majority.antt =====
-- What the tally counts, whom the events name, and what a quorum decides.
use mathlib.Core.List.{Perm, Permᴰ}
use mathlib.Core.List.Perm
use mathlib.Core.Logic.{∥∥₁_elim}
use smokeping_go.Common.{
  ℕ, suc, ◌+◌, ◌*◌, ◌≤◌, ◌<◌, ◌≡◌, ◌↔◌, subst, refl, ap, ◌∙◌, inl, inr, Bool, true, ◌&&◌, List, [],
  ◌∷◌, arith, if◌then◌else◌, Bool-cases, length, Str, str_eq, str_beq, leb,
}
use smokeping_go.Common.Sort.{
  sort_by, insert_by, sort_by-IsSorted, IsSorted, itself, sort-Perm, Str_set,
}
use smokeping_go.Alert.State.{firing, state_beq, AlertState}
use smokeping_go.Alert.Sources.{
  Sources, Tally, tally, expire, firing_names, firing_sources, is_firing_now,
}
use smokeping_go.Alert.Queue.{Quorum, threshold}
use smokeping_go.Alert.Evaluate.{decide}

-- It was heard, and no more than the window ago.
abbrev pub is_live : ℕ → ℕ → AlertState → Bool
is_live now window st = leb now (st.last_seen + window)

-- The sources that pass a test.
abbrev pub count : (Str → AlertState → Bool) → Sources → ℕ
count p [] = 0
count p ((src, st) ∷ rest) = if p src st then suc (count p rest) else count p rest

abbrev pub live_and_firing : ℕ → ℕ → AlertState → Bool
live_and_firing now window st = is_live now window st && state_beq st.state firing

-- The tally counts the sources that were heard within the window, and those of them that are firing.
pub tally_counts :
    (sources : Sources) (now window : ℕ)
    → ((tally sources now window).live_count ≡ count (λ src st. is_live now window st) sources)
      × ((tally sources now window).firing_count
          ≡ count (λ src st. live_and_firing now window st) sources)
      × ((tally sources now window).firing_count ≤ (tally sources now window).live_count)
unfolding tally expire
tally_counts [] now window = (refl, refl, omega arith)
tally_counts ((src, st) ∷ rest) now window = ground (arith, tally_counts rest now window)

-- Among the live and firing sources, the one without a name.
abbrev pub unnamed : ℕ → ℕ → Sources → ℕ
unnamed now window sources =
    count (λ src st. str_beq src [] && live_and_firing now window st) sources

length-insert_by : (a : Str) (xs : List Str) → length (insert_by itself a xs) ≡ suc (length xs)
unfolding insert_by
length-insert_by a [] = refl
length-insert_by a (x ∷ xs) = ground (arith, length-insert_by a xs)

length-sort_by : (xs : List Str) → length (sort_by itself xs) ≡ length xs
unfolding sort_by
length-sort_by [] = refl
length-sort_by (x ∷ xs) = length-insert_by x (sort_by itself xs) ∙ ap suc (length-sort_by xs)

names_count :
    (sources : Sources) (now window : ℕ)
    → length (firing_names (tally sources now window).sources now window)
        + unnamed now window sources
      ≡ (tally sources now window).firing_count
unfolding tally expire firing_names
names_count [] now window = refl
names_count ((src, st) ∷ rest) now window = ground (arith, names_count rest now window)

-- A quorum's event names each firing source that the tally counted, but for one without a name.
pub firing_sources_named :
    (sources : Sources) (now window : ℕ)
    → length (firing_sources (tally sources now window).sources now window)
        + unnamed now window sources
      ≡ (tally sources now window).firing_count
unfolding firing_sources
firing_sources_named sources now window =
    ap (λ n. n + unnamed now window sources)
      (length-sort_by (firing_names (tally sources now window).sources now window))
    ∙ names_count sources now window

-- On a majority quorum: it fires exactly if, of the sources that were heard no more than the window
-- ago, more than half are firing.
pub majority_decides :
    (q : Quorum) (sources : Sources) (now window : ℕ)
    → q.majority ≡ true
    → (decide q (tally sources now window) ≡ firing) ↔ (
        count (λ src st. leb now (st.last_seen + window)) sources
        < 2
          * count (λ src st. leb now (st.last_seen + window) && state_beq st.state firing) sources)
unfolding decide threshold
majority_decides q sources now window h =
    let (live, fires, le) = tally_counts sources now window in
    decided (tally sources now window) _ _ le live fires
  where
    decided :
        (t : Tally) (m n : ℕ)
        → t.firing_count ≤ t.live_count
        → t.live_count ≡ m
        → t.firing_count ≡ n
        → (decide q t ≡ firing) ↔ (m < 2 * n)
    decided t m n le i j = (λ f. ground arith, λ f. ground arith)

abbrev add : ℕ → ℕ → Str × AlertState → List Str → List Str
add now window p names = if is_firing_now now window p.0 p.1 then p.0 ∷ names else names

add-Perm :
    (now window : ℕ) (p : Str × AlertState) (xs ys : List Str)
    → Perm xs ys
    → Perm (add now window p xs) (add now window p ys)
add-Perm now window p xs ys h = elim (Bool-cases (is_firing_now now window p.0 p.1)) [
  | inl named ↦ rw named (Perm.cons p.0 h)
  | inr other ↦ rw other h
]

add_comm :
    (now window : ℕ) (p q : Str × AlertState) (xs : List Str)
    → Perm (add now window p (add now window q xs)) (add now window q (add now window p xs))
add_comm now window p q xs = elim (Bool-cases (is_firing_now now window p.0 p.1)) [
  | inl named ↦ elim (Bool-cases (is_firing_now now window q.0 q.1)) [
    | inl also ↦ rw (named, also) (Perm.swap q.0 p.0 xs)
    | inr other ↦ rw (named, other) (Perm.refl _)
  ]
  | inr other ↦ rw other (Perm.refl _)
]

names-Permᴰ :
    (now window : ℕ) {xs ys : Sources}
    → Permᴰ xs ys
    → Perm (firing_names xs now window) (firing_names ys now window)
unfolding firing_names
names-Permᴰ now window Permᴰ.nil = Perm.refl []
names-Permᴰ now window (Permᴰ.cons {a = a} {l₁ = xs} {l₂ = ys} e h) =
    subst
      (λ b.
        Perm (add now window a (firing_names xs now window))
          (add now window b (firing_names ys now window)))
      e (add-Perm now window a _ _ (names-Permᴰ now window h))
names-Permᴰ now window (Permᴰ.swap {a = a} {b = b} {a' = c} {l = l} e f) =
    let names = firing_names l now window in
    subst
      (λ d.
        Perm (add now window a (add now window b names))
          (add now window c (add now window d names)))
      e
      (subst
        (λ c.
          Perm (add now window a (add now window b names))
            (add now window c (add now window a names)))
        f (add_comm now window a b names))
names-Permᴰ now window (Permᴰ.trans h k) =
    Perm.trans (names-Permᴰ now window h) (names-Permᴰ now window k)

-- The sources that an event names are the same, and sorted, in whatever order the map was walked.
pub firing_sources_stable :
    (now window : ℕ) (xs ys : Sources)
    → Perm xs ys
    → (firing_sources xs now window ≡ firing_sources ys now window)
      × IsSorted itself (firing_sources xs now window)
unfolding firing_sources
firing_sources_stable now window xs ys h = (
  ∥∥₁_elim h (names_set _ _) (λ d. sort-Perm (names-Permᴰ now window d)),
  sort_by-IsSorted itself (firing_names xs now window),
)
  where
    names_set : IsSet (List Str)
    names_set = hlevel Str_set
