-- ===== src/Alert/Reporters.antt =====
-- internal/alert/evaluator.go: the warm-up lists of all aggregates over a history of OnCycle calls.
use smokeping_go.Common.{
  ℕ, ◌≡◌, subst, inl, inr, Bool, some, List, [], ◌∷◌, nat_beq, Bool-cases, Option-cases, length,
  Str, str_eq,
}
use smokeping_go.Common.Map
use smokeping_go.Cycle.{Cycle, id}
use smokeping_go.Alert.Key.{AggKey, key_eq}
use smokeping_go.Alert.Window.{older, alert_freshness}
use smokeping_go.Alert.State.{State, state_beq, admits, Warmup}
use smokeping_go.Alert.Sources.{Sources, tally}
use smokeping_go.Alert.Queue.{Event, Queues, Outcome, accepted, refused, AlertConfig, enabled}
use smokeping_go.Alert.Evaluate.{
  Config, Evaluator, conclude, settle_source, settle_quorum, judge, evaluate_alert, evaluate,
  on_cycle, sight, gate, decide, window, state_or_ok, warmup_or_new, state_or_new, sources_or_new,
}
use smokeping_go.Alert.Warm.{Once, sight-Once}
use smokeping_go.Alert.Notices.{Delivery, run}

-- No warm-up list has a source twice.
abbrev pub Counted : Evaluator → Type 0
Counted e = (k : AggKey) (w : Warmup) → Map.lookup k e.warmup ≡ some w → Once w.sources_seen

conclude-Counted :
    (ev : Event) (offered : Queues × Outcome) (done undone : Evaluator)
    → Counted done
    → Counted undone
    → Counted (conclude ev offered done undone).0
conclude-Counted ev (q, accepted) done undone d u = d
conclude-Counted ev (q, refused r) done undone d u = u

module _ (cfg : Config) (cy : Cycle) (now : ℕ) where
  settle_source-Counted :
      (e : Evaluator) (name : Str) (a : AlertConfig) (sources : Sources) (prev next : State)
      → Counted e
      → Counted (settle_source cfg cy now e name a sources prev next).0
  unfolding settle_source
  settle_source-Counted e name a sources prev next h = elim (Bool-cases (state_beq prev next)) [
    | inl same ↦ rw same h
    | inr other ↦ rw other (conclude-Counted _ _ _ _ h h)
  ]

  pub stored-Once :
      (e : Evaluator) (k : AggKey)
      → Counted e
      → Once (warmup_or_new cfg cy now (Map.lookup k e.warmup)).sources_seen
  stored-Once e k h = elim (Option-cases (Map.lookup k e.warmup)) [
    | inl missing ↦ rw missing tt
    | inr (w, found) ↦ rw found (h k w found)
  ]

  settle_quorum-Counted :
      (e : Evaluator) (name : Str) (a : AlertConfig) (sources : Sources)
      → Counted e
      → Counted (settle_quorum cfg cy now e name a sources).0
  unfolding settle_quorum
  settle_quorum-Counted e name a sources h = elim (Bool-cases (state_beq prev next)) [
    | inl same ↦ rw same stored
    | inr other ↦ rw other (conclude-Counted _ _ _ _ stored stored)
  ]
    where
      prev : State
      prev = state_or_ok (Map.lookup (id cy.target, name) e.agg)

      next : State
      next =
          gate cfg cy now prev (decide a.quorum (tally sources now (window cfg cy now)))
            (sight cfg cy now (warmup_or_new cfg cy now (Map.lookup (id cy.target, name) e.warmup)))

      key : AggKey
      key = (id cy.target, name)

      w : Warmup
      w = sight cfg cy now (warmup_or_new cfg cy now (Map.lookup key e.warmup))

      stored :
          (k : AggKey) (v : Warmup)
          → Map.lookup k (Map.insert key w e.warmup) ≡ some v
          → Once v.sources_seen
      stored k v found = elim (Map.lookup-insert-some k key w v e.warmup found) [
        | inl (_, same) ↦
            subst (λ u. Once u.sources_seen) same
              (sight-Once cfg cy now e name a _ (stored-Once e key h))
        | inr (_, there) ↦ h k v there
      ]

  judge-Counted :
      (e : Evaluator) (name : Str) (a : AlertConfig) (cond : Cycle → Bool)
      → Counted e
      → Counted (judge cfg cy now e name a cond).0
  unfolding judge
  judge-Counted e name a cond h =
      elim (Bool-cases (
        admits
          (state_or_new
            (Map.lookup cy.source (sources_or_new (Map.lookup (id cy.target, name) e.states))))
          cy.time now)) [
            | inr old ↦ rw old h
            | inl new ↦ elim (Bool-cases (enabled a.quorum)) [
              | inl on ↦ rw (new, on) (settle_quorum-Counted e name a _ h)
              | inr off ↦ rw (new, off) (settle_source-Counted e name a _ _ _ h)
            ]
          ]

  evaluate_alert-Counted :
      (e : Evaluator) (n : Str) → Counted e → Counted (evaluate_alert cfg cy now e n).0
  unfolding evaluate_alert
  evaluate_alert-Counted e n h = elim (Option-cases (Map.lookup n cfg.alerts)) [
    | inl missing ↦ rw (missing, evaluate_alert) h
    | inr (a, found) ↦ elim (Option-cases (Map.lookup n e.conds)) [
      | inl missing ↦ rw (found, missing, evaluate_alert) h
      | inr (cond, parsed) ↦ rw (found, parsed, evaluate_alert) (judge-Counted e n a cond h)
    ]
  ]

  evaluate-Counted :
      (names : List Str) (e : Evaluator) → Counted e → Counted (evaluate cfg cy now e names).0
  unfolding evaluate
  evaluate-Counted [] e h = h
  evaluate-Counted (n ∷ names) e h = evaluate-Counted names _ (evaluate_alert-Counted e n h)

  on_cycle-Counted : (e : Evaluator) → Counted e → Counted (on_cycle cfg now e cy).0
  unfolding on_cycle
  on_cycle-Counted e h = elim (Bool-cases (nat_beq cy.sent 0)) [
    | inl empty ↦ rw empty h
    | inr sent ↦ elim (Bool-cases (nat_beq (length cy.target.target.alerts) 0)) [
      | inl none' ↦ rw (sent, none') h
      | inr some' ↦ elim (Bool-cases (older (alert_freshness cfg.interval) now cy.time)) [
        | inl old ↦ rw (sent, some', old) h
        | inr fresh ↦ rw (sent, some', fresh) (evaluate-Counted cy.target.target.alerts e h)
      ]
    ]
  ]

-- Whatever cycles reach OnCycle, no warm-up list comes to have a source twice.
pub run-Counted :
    (cfg : Config) (history : List Delivery) (e : Evaluator)
    → Counted e
    → Counted (run cfg e history).0
run-Counted cfg [] e h = h
run-Counted cfg (d ∷ later) e h = run-Counted cfg later _ (on_cycle-Counted cfg d.cycle d.clock e h)
