-- ===== src/Alert/Notices.antt =====
-- OnCycle over a history: the notifications of a quorum alert, and an evaluator that is closed.
use smokeping_go.Common.{
  ℕ, ◌≡◌, refl, sym, ap, ◌∙◌, subst, inl, inr, Bool, true, none, some, List, [], ◌∷◌, ◌++◌, arith,
  nat_beq, Bool-cases, Option-cases, length, Str, str_eq, append_assoc,
}
use smokeping_go.Common.Map
use smokeping_go.Cycle.{Cycle, id}
use smokeping_go.Alert.Key.{AggKey, key_eq, key_beq, key_beq_iff}
use smokeping_go.Alert.Window.{older, alert_freshness}
use smokeping_go.Alert.Queue.{AlertConfig, enabled}
use smokeping_go.Alert.Evaluate.{
  Config, Evaluator, Verdict, unknown, judge, evaluate_alert, evaluate, on_cycle,
}
use smokeping_go.Alert.Chain.{
  own_events, events_of, aggregate, Chain, Chain-append, judge-Local, judge-Chain, other-Chain,
}

pub record Delivery : Type 0 where
  pub clock : ℕ
  pub cycle : Cycle

-- The cycles in the order in which they reach OnCycle.
abbrev pub run : Config → Evaluator → List Delivery → Evaluator × List Verdict
run cfg e [] = (e, [])
run cfg e (d ∷ later) =
    let first = on_cycle cfg d.clock e d.cycle in
    let rest = run cfg first.0 later in (rest.0, first.1 ++ rest.1)

events_of-append :
    (k : AggKey) (xs ys : List Verdict) → events_of k (xs ++ ys) ≡ events_of k xs ++ events_of k ys
events_of-append k [] ys = refl
events_of-append k (x ∷ xs) ys =
    ap (◌++◌ (own_events k x)) (events_of-append k xs ys)
    ∙ sym (append_assoc (own_events k x) (events_of k xs) (events_of k ys))

module _ (cfg : Config) (target name : Str) (a : AlertConfig)
    (known : Map.lookup name cfg.alerts ≡ some a) (on : enabled a.quorum ≡ true) where
  abbrev this : AggKey
  this = (target, name)

  abbrev Linked : Evaluator → Evaluator × Verdict → Type 0
  Linked e r = Chain (aggregate this e) (own_events this r.1) (aggregate this r.0)

  same_alert :
      (n : Str) (b : AlertConfig)
      → name ≡ n
      → Map.lookup n cfg.alerts ≡ some b
      → enabled b.quorum ≡ true
  same_alert n b p found =
      ground (arith, on, sym known ∙ ap (λ m. Map.lookup m cfg.alerts) p ∙ found)

  judge-Linked :
      (cy : Cycle) (now : ℕ) (e : Evaluator) (n : Str) (b : AlertConfig) (cond : Cycle → Bool)
      → Map.lookup n cfg.alerts ≡ some b
      → Linked e (judge cfg cy now e n b cond)
  judge-Linked cy now e n b cond found = elim (Bool-cases (key_beq (id cy.target, n) this)) [
    | inl same ↦
        let p = (key_beq_iff (id cy.target, n) this).0 same in
        subst
          (λ k.
            Chain (aggregate k e) (own_events k (judge cfg cy now e n b cond).1)
              (aggregate k (judge cfg cy now e n b cond).0))
          p (judge-Chain cfg cy now e n b cond (same_alert n b (sym (ap (λ k. k.1) p)) found))
    | inr other ↦
        other-Chain cfg cy now e n b (judge cfg cy now e n b cond) this
          (λ p. ground (arith, (key_beq_iff (id cy.target, n) this).1 p))
          (judge-Local cfg cy now e n b cond)
  ]

  evaluate_alert-Chain :
      (cy : Cycle) (now : ℕ) (e : Evaluator) (n : Str) → Linked e (evaluate_alert cfg cy now e n)
  unfolding evaluate_alert
  evaluate_alert-Chain cy now e n = elim (Option-cases (Map.lookup n cfg.alerts)) [
    | inl missing ↦ subst (Linked e) (sym (unknown_alert missing)) refl
    | inr (b, found) ↦ elim (Option-cases (Map.lookup n e.conds)) [
      | inl missing ↦ subst (Linked e) (sym (unknown_cond b found missing)) refl
      | inr (cond, parsed) ↦
          subst (Linked e) (sym (judged b cond found parsed)) (judge-Linked cy now e n b cond found)
    ]
  ]
    where
      unknown_alert : Map.lookup n cfg.alerts ≡ none → evaluate_alert cfg cy now e n ≡ (e, unknown)
      unknown_alert h = rw (h, evaluate_alert) refl

      unknown_cond :
          (b : AlertConfig)
          → Map.lookup n cfg.alerts ≡ some b
          → Map.lookup n e.conds ≡ none
          → evaluate_alert cfg cy now e n ≡ (e, unknown)
      unknown_cond b h k = rw (h, k, evaluate_alert) refl

      judged :
          (b : AlertConfig) (cond : Cycle → Bool)
          → Map.lookup n cfg.alerts ≡ some b
          → Map.lookup n e.conds ≡ some cond
          → evaluate_alert cfg cy now e n ≡ judge cfg cy now e n b cond
      judged b cond h k = rw (h, k, evaluate_alert) refl

  evaluate-Chain :
      (cy : Cycle) (now : ℕ) (names : List Str) (e : Evaluator)
      → let r = evaluate cfg cy now e names in
        Chain (aggregate this e) (events_of this r.1) (aggregate this r.0)
  unfolding evaluate
  evaluate-Chain cy now [] e = refl
  evaluate-Chain cy now (n ∷ names) e =
      let e' = (evaluate_alert cfg cy now e n).0 in
      Chain-append (own_events this (evaluate_alert cfg cy now e n).1) _ _ _ _
        (evaluate_alert-Chain cy now e n) (evaluate-Chain cy now names e')

  on_cycle-Chain :
      (cy : Cycle) (now : ℕ) (e : Evaluator)
      → let r = on_cycle cfg now e cy in
        Chain (aggregate this e) (events_of this r.1) (aggregate this r.0)
  unfolding on_cycle
  on_cycle-Chain cy now e = elim (Bool-cases (nat_beq cy.sent 0)) [
    | inl empty ↦ rw empty refl
    | inr sent ↦ elim (Bool-cases (nat_beq (length cy.target.target.alerts) 0)) [
      | inl none' ↦ rw (sent, none') refl
      | inr some' ↦ elim (Bool-cases (older (alert_freshness cfg.interval) now cy.time)) [
        | inl old ↦ rw (sent, some', old) refl
        | inr fresh ↦ rw (sent, some', fresh) (evaluate-Chain cy now cy.target.target.alerts e)
      ]
    ]
  ]

  -- Over any history of cycles of any targets and sources, the notifications that a quorum alert has
  -- committed for a target lead without a gap from the first state of the aggregate to its last one:
  -- each reports a change, and begins in the state that the one before it announced.
  pub run-Chain :
      (history : List Delivery) (e : Evaluator)
      → let r = run cfg e history in
        Chain (aggregate this e) (events_of this r.1) (aggregate this r.0)
  run-Chain [] e = refl
  run-Chain (d ∷ later) e =
      let first = on_cycle cfg d.clock e d.cycle in
      rw (events_of-append this first.1 (run cfg first.0 later).1) (
        Chain-append (events_of this first.1) _ _ _ _ (on_cycle-Chain d.cycle d.clock e)
          (run-Chain later first.0))
