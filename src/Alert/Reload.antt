-- ===== src/Alert/Reload.antt =====
-- What a reload of the config does to the evaluator's maps.
use smokeping_go.Common.{
  ◌≡◌, refl, sym, subst, ◌⊎◌, inl, inr, Bool, false, not, ◌&&◌, ◌||◌, Option, none, some, List, map,
  arith, if◌then◌else◌, Bool-cases, Option-cases, Str, str_eq,
}
use smokeping_go.Common.Map
use smokeping_go.Cycle.{Cycle}
use smokeping_go.Alert.Key.{AggKey, key_eq}
use smokeping_go.Alert.Queue.{enabled}
use smokeping_go.Alert.Evaluate.{
  Config, Evaluator, validate_conditions, refresh_conditions, is_stale, prune_stale_aggregates,
  refresh, survives, prune_departed,
}

-- PruneDeparted removes from every map the keys of states that the config names no longer, and no
-- other key from any map.
pub prune_departed_lem :
    (cfg : Config) (e : Evaluator) (k : AggKey)
    → let e' = prune_departed cfg e in
      let goes = Map.has k e.states && not (survives cfg k) in
      (Map.lookup k e'.states ≡ (if goes then none else Map.lookup k e.states))
      × (Map.lookup k e'.agg ≡ (if goes then none else Map.lookup k e.agg))
      × (Map.lookup k e'.warmup ≡ (if goes then none else Map.lookup k e.warmup))
unfolding prune_departed
prune_departed_lem cfg e k = (states_part, others e.agg, others e.warmup)
  where
    states_part :
        Map.lookup k (Map.retain (λ key v. survives cfg key) e.states)
        ≡ (if Map.has k e.states && not (survives cfg k) then none else Map.lookup k e.states)
    states_part = elim (Option-cases (Map.lookup k e.states)) [
      | inl missing ↦ ground (arith, Map.lookup-retain_by_key k (survives cfg) e.states, missing)
      | inr (m, found) ↦ ground (
        arith,
        Map.lookup-retain_by_key k (survives cfg) e.states,
        found,
        Map.lookup-has k m e.states found,
      )
    ]

    others :
        {V : Type 0} (m : List (AggKey × V))
        → Map.lookup k (Map.retain (λ key v. not (Map.has key e.states) || survives cfg key) m)
          ≡ (if Map.has k e.states && not (survives cfg k) then none else Map.lookup k m)
    others m =
        ground
          (arith, Map.lookup-retain_by_key k (λ j. not (Map.has j e.states) || survives cfg j) m)

-- Either the alert has the quorum mode that it had, and its aggregate and warm-up stand, or both are
-- gone.
abbrev pub Swept : Evaluator → Evaluator → AggKey → Type 0
Swept e e' k =
    ((b : Bool) × (Map.lookup k.1 e.quorum_enabled ≡ some b)
      × (Map.lookup k.1 e'.quorum_enabled ≡ some b)
      × (Map.lookup k e'.agg ≡ Map.lookup k e.agg)
      × (Map.lookup k e'.warmup ≡ Map.lookup k e.warmup))
    ⊎ ((Map.lookup k e'.agg ≡ none) × (Map.lookup k e'.warmup ≡ none))

not_stale :
    (old new : List (Str × Bool)) (alert : Str)
    → is_stale old new alert ≡ false
    → (b : Bool) × (Map.lookup alert old ≡ some b) × (Map.lookup alert new ≡ some b)
not_stale old new alert h = elim (Option-cases (Map.lookup alert old)) [
  | inl missing ↦ absurd (ground (arith, missing, h))
  | inr (b, was) ↦ elim (Option-cases (Map.lookup alert new)) [
    | inl missing ↦ absurd (ground (arith, was, missing, h))
    | inr (c, now) ↦ (b, was, ground (arith, was, now, h))
  ]
]

prune_stale-Swept :
    (old : List (Str × Bool)) (e : Evaluator) (k : AggKey)
    → Swept (record e { quorum_enabled = old }) (prune_stale_aggregates old e) k
unfolding prune_stale_aggregates
prune_stale-Swept old e k =
    let agg = Map.lookup-retain_by_key k (λ j. not (is_stale old e.quorum_enabled j.1)) e.agg in
    let warmup =
      Map.lookup-retain_by_key k (λ j. not (is_stale old e.quorum_enabled j.1)) e.warmup in
    elim (Bool-cases (is_stale old e.quorum_enabled k.1)) [
      | inl stale ↦ inr (ground (arith, agg, stale), ground (arith, warmup, stale))
      | inr kept ↦
          let (b, was, now) = not_stale old e.quorum_enabled k.1 kept in
          inl (b, was, now, ground (arith, agg, kept), ground (arith, warmup, kept))
    ]

abbrev Reloaded : Evaluator → AggKey → Option Evaluator → Type 0
Reloaded e k none = Unit
Reloaded e k (some e') = (e'.states ≡ e.states) × (e'.queues ≡ e.queues) × Swept e e' k

prune_stale-Reloaded :
    (e f : Evaluator) (k : AggKey)
    → f.states ≡ e.states
    → f.queues ≡ e.queues
    → Swept e (prune_stale_aggregates e.quorum_enabled f) k
    → Reloaded e k (some (prune_stale_aggregates e.quorum_enabled f))
unfolding prune_stale_aggregates
prune_stale-Reloaded e f k s q w = (s, q, w)

refresh-Reloaded : (cfg : Config) (e : Evaluator) (k : AggKey) → Reloaded e k (refresh cfg e)
unfolding refresh refresh_conditions
refresh-Reloaded cfg e k = elim (Option-cases (validate_conditions cfg.alerts)) [
  | inl bad ↦ subst (Reloaded e k) (sym (invalid bad)) tt
  | inr (conds, good) ↦ subst (Reloaded e k) (sym (valid conds good)) (
      prune_stale-Reloaded e (renewed conds) k refl refl
        (prune_stale-Swept e.quorum_enabled (renewed conds) k))
]
  where
    renewed : List (Str × (Cycle → Bool)) → Evaluator
    renewed conds = record e {
      conds = conds;
      quorum_enabled = map (λ entry. (entry.0, enabled entry.1.quorum)) cfg.alerts;
    }

    invalid : validate_conditions cfg.alerts ≡ none → refresh cfg e ≡ none
    invalid bad = rw (bad, refresh, refresh_conditions) refl

    valid :
        (conds : List (Str × (Cycle → Bool)))
        → validate_conditions cfg.alerts ≡ some conds
        → refresh cfg e ≡ some (prune_stale_aggregates e.quorum_enabled (renewed conds))
    valid conds good = rw (good, refresh, refresh_conditions) refl

-- A refresh that is accepted leaves the states of all sources and the queues as they are, and of an
-- aggregate and its warm-up it keeps those whose alert has the quorum mode that it had.
pub refresh-Swept :
    (cfg : Config) (e e' : Evaluator) (k : AggKey)
    → refresh cfg e ≡ some e'
    → (e'.states ≡ e.states) × (e'.queues ≡ e.queues) × Swept e e' k
refresh-Swept cfg e e' k h = subst (Reloaded e k) h (refresh-Reloaded cfg e k)
