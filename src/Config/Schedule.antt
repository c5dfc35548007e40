-- ===== src/Config/Schedule.antt =====
-- internal/config/config.go: which intervals and ping counts a schedule may have, and the time that one
-- echo gets. Times are nanoseconds.
use native.Mathlib.Nat.{mul-div-le}
use smokeping_go.Common.Checks.{ltb_iff}
use smokeping_go.Common.{
  sym, subst, ℕ, ◌+◌, ◌-◌, ◌*◌, ◌/◌, ◌≤◌, ◌<◌, ◌≡◌, refl, ◌⊎◌, inl, inr, ℤ, pos, negsuc, Bool, true,
  false, Option, none, some, List, [], ◌∷◌, arith, ltb, nat_beq, if◌then◌else◌, Bool-cases, Str,
  bytes, str_beq,
}
use smokeping_go.Limits.{max_probe_interval, max_pings_per_cycle}
use smokeping_go.Config.{Probe}

pub data ScheduleError : Type 0 where
  interval_not_positive : ScheduleError
  interval_too_long : ScheduleError
  pings_not_positive : ScheduleError
  too_many_pings : ScheduleError
  pings_overrun_interval : ScheduleError
  budget_too_small : ScheduleError

abbrev pub icmp_ping_spacing : ℕ
icmp_ping_spacing = 200000000

abbrev pub min_ping_budget : ℕ
min_ping_budget = 50000000

unfoldable pub validate_interval : ℤ → Option ScheduleError
validate_interval (negsuc n) = some interval_not_positive
validate_interval (pos n) =
    if nat_beq n 0
    then some interval_not_positive
    else if ltb max_probe_interval n
    then some interval_too_long
    else none

unfoldable pub validate_ping_count : ℤ → Option ScheduleError
validate_ping_count (negsuc n) = some pings_not_positive
validate_ping_count (pos n) =
    if nat_beq n 0
    then some pings_not_positive
    else if ltb max_pings_per_cycle n
    then some too_many_pings
    else none

-- ICMPPingBudget of an interval that is not negative, with what both results say: an error or the
-- deadline.
unfoldable pub icmp_ping_budget : ℕ → ℤ → ScheduleError ⊎ ℕ
icmp_ping_budget interval (negsuc n) = inl pings_not_positive
icmp_ping_budget interval (pos pings) =
    if nat_beq pings 0
    then inl pings_not_positive
    else if ltb (interval / icmp_ping_spacing + 1) pings
    then inl pings_overrun_interval
    else if ltb max_pings_per_cycle pings
    then inl too_many_pings
    else (let budget = (interval - (pings - 1) * icmp_ping_spacing) / pings in
        if ltb budget min_ping_budget then inl budget_too_small else inr budget)

unfoldable pub has_probe_type : Str → List (Str × Probe) → Bool
has_probe_type type [] = false
has_probe_type type ((name, p) ∷ ps) = if str_beq p.type type then true else has_probe_type type ps

abbrev pub has_icmp_probe : List (Str × Probe) → Bool
has_icmp_probe = has_probe_type (bytes "icmp")

abbrev pub has_mtr_probe : List (Str × Probe) → Bool
has_mtr_probe = has_probe_type (bytes "mtr")

abbrev budget_of : ℕ → ℕ → ℕ
budget_of interval pings = (interval - (pings - 1) * icmp_ping_spacing) / pings

-- The conditions behind a granted budget.
granted :
    (interval budget pings : ℕ)
    → icmp_ping_budget interval (pos pings) ≡ inr budget
    → (0 < pings)
      × (pings ≤ interval / icmp_ping_spacing + 1)
      × (pings ≤ max_pings_per_cycle)
      × (budget ≡ budget_of interval pings)
      × (min_ping_budget ≤ budget)
unfolding icmp_ping_budget
granted interval budget pings h = elim (Bool-cases (nat_beq pings 0)) [
  | inl zero ↦ absurd (ground (arith, h, zero))
  | inr some_pings ↦ elim (Bool-cases (ltb (interval / icmp_ping_spacing + 1) pings)) [
    | inl over ↦ absurd (ground (arith, h, some_pings, over))
    | inr within ↦ elim (Bool-cases (ltb max_pings_per_cycle pings)) [
      | inl many ↦ absurd (ground (arith, h, some_pings, within, many))
      | inr few ↦ elim (Bool-cases (ltb (budget_of interval pings) min_ping_budget)) [
        | inl small ↦ absurd (ground (arith, h, some_pings, within, few, small))
        | inr large ↦
            let e : ◌≡◌ {A = ScheduleError ⊎ ℕ} (inr (budget_of interval pings)) (inr budget) =
              rw (some_pings, within, few, large) at h in
            let e' : budget_of interval pings ≡ budget = cc in
            (
              ground (arith, some_pings),
              ground (arith, within),
              ground (arith, few),
              sym e',
              subst (λ b. min_ping_budget ≤ b) e'
                  ((ltb_iff (budget_of interval pings) min_ping_budget).0 large),
            )
      ]
    ]
  ]
]

-- A budget that is granted fits: the pings are sent one spacing apart, each may take the whole
-- budget, which is at least the smallest, and the cycle ends within its interval; the pings are at
-- least one and at most MaxPingsPerCycle.
pub icmp_ping_budget_fits :
    (interval budget : ℕ) (pings : ℤ)
    → icmp_ping_budget interval pings ≡ inr budget
    → (n : ℕ) × (pings ≡ pos n)
      × (0 < n)
      × (n ≤ max_pings_per_cycle)
      × (min_ping_budget ≤ budget)
      × ((n - 1) * icmp_ping_spacing + n * budget ≤ interval)
unfolding icmp_ping_budget
icmp_ping_budget_fits interval budget (negsuc n) h = absurd (ground (arith, h))
icmp_ping_budget_fits interval budget (pos n) h =
    let (some_pings, within, few, e, large) = granted interval budget n h in
    let spaced : (n - 1) * icmp_ping_spacing ≤ interval = omega (arith, within) in
    let shared : n * budget ≤ interval - (n - 1) * icmp_ping_spacing =
      rw e (mul-div-le (interval - (n - 1) * icmp_ping_spacing) n) in
    (n, refl, some_pings, few, large, omega (arith, spaced, shared))
