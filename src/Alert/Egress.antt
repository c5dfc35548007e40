-- ===== src/Alert/Egress.antt =====
-- What evaluation does to the delivery queues, whatever the history.
use smokeping_go.Common.{
  ℕ, ◌≡◌, ◌≢◌, sym, subst, inl, inr, Bool, Option, List, [], ◌∷◌, nat_beq, Bool-cases, Option-cases,
  length, Str, str_eq, All, All-append,
}
use smokeping_go.Common.Map
use smokeping_go.Cycle.{Cycle}
use smokeping_go.Alert.Window.{older, alert_freshness}
use smokeping_go.Alert.Queue.{
  Event, Queues, Action, AlertConfig, Outcome, accepted, refused, enqueue_dispatch,
}
use smokeping_go.Alert.State.{State}
use smokeping_go.Alert.Evaluate.{
  Config, Evaluator, Verdict, unknown, replayed, unchanged, committed, reverted, judge,
  evaluate_alert, evaluate, on_cycle,
}
use smokeping_go.Alert.Commit.{Agrees, judge_commits_what_is_queued}
use smokeping_go.Alert.Notices.{Delivery, run}

-- A property of the queues and of the verdicts that every offer keeps.
pub record Kept (P : Queues → Type 0) (V : Verdict → Type 0) : Type 0 where
  pub keeps :
      (actions : List (Str × Action)) (wants : Option (Event → Bool)) (q : Queues) (ev : Event)
      (q' : Queues) (o : Outcome)
      → P q
      → enqueue_dispatch actions wants q ev ≡ (q', o)
      → P q'
  pub commits :
      (actions : List (Str × Action)) (wants : Option (Event → Bool)) (q : Queues) (ev : Event)
      (q' : Queues)
      → P q
      → enqueue_dispatch actions wants q ev ≡ (q', accepted)
      → V (committed ev)
  pub otherwise : (v : Verdict) → ((ev : Event) → v ≢ committed ev) → V v

module _ (P : Queues → Type 0) (V : Verdict → Type 0) (kept : Kept P V) (cfg : Config) where
  Holds : Evaluator × Verdict → Type 0
  Holds r = P r.0.queues × V r.1

  judge-kept :
      (cy : Cycle) (now : ℕ) (e : Evaluator) (name : Str) (a : AlertConfig) (cond : Cycle → Bool)
      → P e.queues
      → Holds (judge cfg cy now e name a cond)
  unfolding Holds
  judge-kept cy now e name a cond h =
      go (judge cfg cy now e name a cond).0.queues _ _ (judge cfg cy now e name a cond).1
        (judge_commits_what_is_queued cfg cy now e name a cond)
    where
      go :
          (q' : Queues) (s t : State) (v : Verdict)
          → Agrees (enqueue_dispatch cfg.actions e.wants e.queues) e.queues q' s t v
          → P q' × V v
      go q' s t (committed ev) (_, _, _, o) = (
        kept.keeps cfg.actions e.wants e.queues ev q' accepted h o,
        kept.commits cfg.actions e.wants e.queues ev q' h o,
      )
      go q' s t (reverted ev r) (_, _, o) = (
        kept.keeps cfg.actions e.wants e.queues ev q' (refused r) h o,
        kept.otherwise _ (λ ev p. cc p),
      )
      go q' s t unknown (_, same) = (subst P (sym same) h, kept.otherwise _ (λ ev p. cc p))
      go q' s t (replayed d) (_, same) = (subst P (sym same) h, kept.otherwise _ (λ ev p. cc p))
      go q' s t unchanged (_, same) = (subst P (sym same) h, kept.otherwise _ (λ ev p. cc p))

  evaluate_alert-kept :
      (cy : Cycle) (now : ℕ) (e : Evaluator) (n : Str)
      → P e.queues
      → Holds (evaluate_alert cfg cy now e n)
  unfolding evaluate_alert Holds
  evaluate_alert-kept cy now e n h = elim (Option-cases (Map.lookup n cfg.alerts)) [
    | inl missing ↦ rw (missing, evaluate_alert) idle
    | inr (b, found) ↦ elim (Option-cases (Map.lookup n e.conds)) [
      | inl missing ↦ rw (found, missing, evaluate_alert) idle
      | inr (cond, parsed) ↦ rw (found, parsed, evaluate_alert) (judge-kept cy now e n b cond h)
    ]
  ]
    where
      idle : P e.queues × V unknown
      idle = (h, kept.otherwise unknown (λ ev p. cc p))

  AllHold : Evaluator × List Verdict → Type 0
  AllHold r = P r.0.queues × All V r.1

  evaluate-kept :
      (cy : Cycle) (now : ℕ) (names : List Str) (e : Evaluator)
      → P e.queues
      → AllHold (evaluate cfg cy now e names)
  unfolding evaluate AllHold Holds
  evaluate-kept cy now [] e h = (h, tt)
  evaluate-kept cy now (n ∷ names) e h =
      let first = evaluate_alert-kept cy now e n h in
      let rest = evaluate-kept cy now names _ first.0 in (rest.0, (first.1, rest.1))

  on_cycle-kept :
      (cy : Cycle) (now : ℕ) (e : Evaluator) → P e.queues → AllHold (on_cycle cfg now e cy)
  unfolding on_cycle AllHold
  on_cycle-kept cy now e h = elim (Bool-cases (nat_beq cy.sent 0)) [
    | inl empty ↦ rw empty (h, tt)
    | inr sent ↦ elim (Bool-cases (nat_beq (length cy.target.target.alerts) 0)) [
      | inl none' ↦ rw (sent, none') (h, tt)
      | inr some' ↦ elim (Bool-cases (older (alert_freshness cfg.interval) now cy.time)) [
        | inl old ↦ rw (sent, some', old) (h, tt)
        | inr fresh ↦ rw (sent, some', fresh) (evaluate-kept cy now cy.target.target.alerts e h)
      ]
    ]
  ]

  pub run-kept :
      (history : List Delivery) (e : Evaluator)
      → P e.queues
      → P (run cfg e history).0.queues × All V (run cfg e history).1
  unfolding AllHold
  run-kept [] e h = (h, tt)
  run-kept (d ∷ later) e h =
      let first = on_cycle-kept d.cycle d.clock e h in
      let rest = run-kept later _ first.0 in (rest.0, All-append V _ _ first.1 rest.1)
