-- ===== src/Stats.antt =====
-- internal/stats/stats.go and percentiles.go: Compute. Go's float64 is a parameter: a type with the
-- operations that the code uses, of which nothing is assumed. The durations are not negative, and
-- their sum is the int64's bits.
pub mod Order
use smokeping_go.Common.{
  ℕ, suc, ◌+◌, ◌-◌, ◌%◌, Bool, List, [], ◌∷◌, map, nat_beq, leb, if◌then◌else◌, length, get_or,
}
use smokeping_go.Cycle.{Summary}
use smokeping_go.Limits.{u64_mod}

-- float64, and the conversions from and to int64 and int.
pub record Float64 (F : Type 0) : Type 0 where
  pub of_int : ℕ → F
  pub of_bits : ℕ → F  -- of an int64 by its bits
  pub to_int : F → ℕ
  pub add : F → F → F
  pub sub : F → F → F
  pub mul : F → F → F
  pub div : F → F → F
  pub sqrt : F → F
  pub floor : F → F
  pub ceil : F → F
  pub not_positive : F → Bool  -- p <= 0
  pub at_least_one : F → Bool  -- p >= 1

-- slices.Sort, by insertion.
unfoldable pub insert : ℕ → List ℕ → List ℕ
insert d [] = d ∷ []
insert d (x ∷ xs) = if leb d x then d ∷ x ∷ xs else x ∷ insert d xs

unfoldable pub sort : List ℕ → List ℕ
unfolding insert
sort [] = []
sort (x ∷ xs) = insert x (sort xs)

-- The loop over sorted, summing int64s.
unfoldable pub sum_bits : ℕ → List ℕ → ℕ
sum_bits sum [] = sum
sum_bits sum (v ∷ vs) = sum_bits ((sum + v) % u64_mod) vs

abbrev pub zero_summary : Summary ℕ
zero_summary = record { low = 0; high = 0; mean = 0; median = 0; std_dev = 0; percentiles = [] }

module _ {F : Type 0} (float : Float64 F) (half : F) (ratios : List F) where
  unfoldable pub square_sum : F → F → List ℕ → F
  square_sum mean sum [] = sum
  square_sum mean sum (v ∷ vs) =
      let d = float.sub (float.of_int v) mean in square_sum mean (float.add sum (float.mul d d)) vs

  abbrev pub interpolate : List ℕ → F → ℕ
  interpolate sorted pos =
      let lo = float.to_int (float.floor pos) in
      let hi = float.to_int (float.ceil pos) in
      let at_lo = get_or sorted lo 0 in
      if nat_beq lo hi
      then at_lo
      else (let frac = float.sub pos (float.of_int lo) in
          at_lo + float.to_int (float.mul frac (float.of_int (get_or sorted hi 0 - at_lo))))

  unfoldable pub percentile : List ℕ → F → ℕ
  percentile sorted p =
      let n = length sorted in
      if nat_beq n 1
      then get_or sorted 0 0
      else if float.not_positive p
      then get_or sorted 0 0
      else if float.at_least_one p
      then get_or sorted (n - 1) 0
      else interpolate sorted (float.mul p (float.of_int (n - 1)))

  -- The summary of the sorted samples.
  unfoldable pub summarise : List ℕ → Summary ℕ
  unfolding sum_bits square_sum percentile
  summarise sorted =
      let n = float.of_int (length sorted) in
      let mean = float.div (float.of_bits (sum_bits 0 sorted)) n in
      record {
        low = get_or sorted 0 0;
        high = get_or sorted (length sorted - 1) 0;
        mean = float.to_int mean;
        median = percentile sorted half;
        std_dev = float.to_int (float.sqrt (float.div (square_sum mean (float.of_int 0) sorted) n));
        percentiles = map (percentile sorted) ratios;
      }

  unfoldable pub compute : List ℕ → Summary ℕ
  unfolding summarise sort
  compute rtts =
      if nat_beq (length rtts) 0
      then record zero_summary { percentiles = map (λ (_ : F). 0) ratios }
      else summarise (sort rtts)
