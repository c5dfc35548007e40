-- ===== src/Cache/Calls.antt =====
-- internal/storage/cache.go: no caller waits for a call that nobody answers.
use smokeping_go.Common.{ℕ, ◌<◌, ◌≡◌, refl, ◌⊎◌, some, Eq, nat_eq}
use smokeping_go.Common.Map
use smokeping_go.Cache.{Cache, Outcome, lookup}

module _ {K V : Type 0} ⦃e : Eq K⦄ where
  -- A call has its answer, or its leader still has the slot.
  abbrev pub Settled : ℕ → Cache K V → Type 0
  Settled n c =
      ((o : Outcome V) × (Map.lookup n c.answers ≡ some o))
      ⊎ ((k : K) × (Map.lookup k c.inflight ≡ some n))

  abbrev AllSettled : Cache K V → Type 0
  AllSettled c = (n : ℕ) → n < c.misses → Settled n c

  -- The two caches differ in their entries and hits alone.
  pub record SameCalls (c d : Cache K V) : Type 0 where
    pub inflight : c.inflight ≡ d.inflight
    pub answers : c.answers ≡ d.answers
    pub misses : c.misses ≡ d.misses

  abbrev unchanged : (c : Cache K V) → SameCalls c c
  unchanged c = record { inflight = refl; answers = refl; misses = refl }
