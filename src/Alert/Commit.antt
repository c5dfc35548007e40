-- ===== src/Alert/Commit.antt =====
-- A transition is committed exactly when its notification was queued.
use smokeping_go.Common.{
  ℕ, ◌≡◌, refl, sym, ap, ◌∙◌, inl, inr, Bool, true, false, some, arith, if◌then◌else◌, Bool-cases,
  Str, str_eq,
}
use smokeping_go.Common.Map
use smokeping_go.Cycle.{Cycle, id}
use smokeping_go.Alert.Key.{AggKey, key_eq}
use smokeping_go.Alert.State.{State, state_beq, AlertState, advance, admits}
use smokeping_go.Alert.Sources.{Sources, tally, prune_quiet_sources}
use smokeping_go.Alert.Queue.{
  Event, Queues, Outcome, accepted, refused, AlertConfig, enqueue_dispatch, enabled,
}
use smokeping_go.Alert.Evaluate.{
  Config, Evaluator, Verdict, committed, reverted, window, state_or_ok, sources_or_new,
  state_or_new, revert, settle_source, settle_quorum, measured, judge, decide, gate, sight,
  warmup_or_new, put_sources, conclude,
}

abbrev pub source_state : AggKey → Str → Evaluator → State
source_state key src e =
    (state_or_new (Map.lookup src (sources_or_new (Map.lookup key e.states)))).state

-- The state that the alert's notifications tell of: the aggregate's under a quorum, else the source's.
abbrev pub told : Cycle → Str → AlertConfig → Evaluator → State
told cy name a e =
    if enabled a.quorum
    then state_or_ok (Map.lookup (id cy.target, name) e.agg)
    else source_state (id cy.target, name) cy.source e

-- A verdict against the queues and the told state, before and after.
abbrev pub Agrees : (Event → Queues × Outcome) → Queues → Queues → State → State → Verdict → Type 0
Agrees offer q q' before after (committed ev) =
    (ev.prev ≡ before)
    × (ev.next ≡ after)
    × (state_beq before after ≡ false)
    × (offer ev ≡ (q', accepted))
Agrees offer q q' before after (reverted ev r) =
    (ev.prev ≡ before) × (after ≡ before) × (offer ev ≡ (q', refused r))
Agrees offer q q' before after _ = (after ≡ before) × (q' ≡ q)

state_beq→≡ : (s t : State) → state_beq s t ≡ true → s ≡ t
state_beq→≡ s t h = ground arith

module _ (cfg : Config) (cy : Cycle) (now : ℕ) (e : Evaluator) (name : Str) (a : AlertConfig) where
  abbrev key : AggKey
  key = (id cy.target, name)

  abbrev offering : Event → Queues × Outcome
  offering ev = enqueue_dispatch cfg.actions e.wants e.queues ev

  revert-state :
      (prev : State) (sources : Sources) (st : AlertState)
      → Map.lookup cy.source sources ≡ some st
      → (state_or_new (Map.lookup cy.source (revert cfg cy now prev sources))).state ≡ prev
  unfolding revert Map.lookup
  revert-state prev sources st h =
      rw (h, state_or_new)
        (ap (λ o. (state_or_new o).state)
          (Map.lookup-insert_self cy.source (record st { state = prev }) sources))

  put_sources-state :
      (sources : Sources)
      → source_state key cy.source (put_sources cfg cy now name sources e)
        ≡ (state_or_new (Map.lookup cy.source sources)).state
  put_sources-state sources =
      ap (λ o. (state_or_new (Map.lookup cy.source (sources_or_new o))).state)
        (Map.lookup-insert_self key sources e.states)

  conclude-Agrees :
      (state_of : Evaluator → State) (ev : Event) (offered : Queues × Outcome)
      (done undone : Evaluator)
      → ((q : Queues) (e : Evaluator) → state_of (record e { queues = q }) ≡ state_of e)
      → offering ev ≡ offered
      → state_beq ev.prev ev.next ≡ false
      → state_of done ≡ ev.next
      → state_of undone ≡ ev.prev
      → let r = conclude ev offered done undone in
        Agrees offering e.queues r.0.queues ev.prev (state_of r.0) r.1
  conclude-Agrees state_of ev (q, accepted) done undone free o differ d u =
      (refl, sym (free q done ∙ d), rw (free q done, d) differ, o)
  conclude-Agrees state_of ev (q, refused r) done undone free o differ d u =
      (refl, free q undone ∙ u, o)

  quiet : Sources → Sources
  quiet sources = prune_quiet_sources sources now (window cfg cy now)

  lookup-quiet :
      (sources : Sources) (st : AlertState)
      → Map.lookup cy.source sources ≡ some st
      → st.last_seen ≡ now
      → Map.lookup cy.source (quiet sources) ≡ some st
  unfolding quiet prune_quiet_sources
  lookup-quiet sources st h seen = Map.lookup-retain cy.source st _ sources h (ground arith)

  settle_source-Agrees :
      (sources : Sources) (prev : State) (st : AlertState)
      → Map.lookup cy.source sources ≡ some st
      → st.last_seen ≡ now
      → let r = settle_source cfg cy now e name a sources prev st.state in
        Agrees offering e.queues r.0.queues prev (source_state key cy.source r.0) r.1
  unfolding settle_source quiet
  settle_source-Agrees sources prev st h seen =
      let stays = lookup-quiet sources st h seen in
      let is_next = put_sources-state (quiet sources) ∙ ap (λ o. (state_or_new o).state) stays in
      elim (Bool-cases (state_beq prev st.state)) [
        | inl same ↦ rw same (is_next ∙ sym (state_beq→≡ prev st.state same), refl)
        | inr other ↦ rw other (
            conclude-Agrees (source_state key cy.source) _ _ _ _ (λ q e. refl) refl other is_next
              (put_sources-state (revert cfg cy now prev (quiet sources))
                ∙ revert-state prev (quiet sources) st stays))
      ]

  settle_quorum-Agrees :
      (sources : Sources)
      → let r = settle_quorum cfg cy now e name a sources in
        Agrees offering e.queues r.0.queues
          (state_or_ok (Map.lookup key e.agg))
          (state_or_ok (Map.lookup key r.0.agg))
          r.1
  unfolding settle_quorum
  settle_quorum-Agrees sources =
      let prev = state_or_ok (Map.lookup key e.agg) in
      let w = sight cfg cy now (warmup_or_new cfg cy now (Map.lookup key e.warmup)) in
      let next = gate cfg cy now prev (decide a.quorum (tally sources now (window cfg cy now))) w in
      elim (Bool-cases (state_beq prev next)) [
        | inl same ↦ rw same (refl, refl)
        | inr other ↦ rw other (
            conclude-Agrees (λ e. state_or_ok (Map.lookup key e.agg)) _ _ _ _ (λ q e. refl) refl
              other (ap state_or_ok (Map.lookup-insert_self key next e.agg))
              (ap state_or_ok (Map.lookup-insert_self key prev e.agg)))
      ]

  measured-last_seen :
      (cond : Cycle → Bool) (st : AlertState) → (measured cfg cy now a cond st).last_seen ≡ now
  unfolding measured advance
  measured-last_seen cond st = elim (Bool-cases (cond cy)) [
    | inl hit ↦ rw hit refl
    | inr calm ↦ rw calm refl
  ]

  -- When an alert judges a cycle, the state that its notifications tell of changes if and only if the
  -- delivery queue took the transition's event: a committed verdict carries the event that was
  -- accepted, from the old state to the new one; under a refusal the state is the old one; otherwise
  -- neither the state nor the queues changed.
  pub judge_commits_what_is_queued :
      (cond : Cycle → Bool)
      → let r = judge cfg cy now e name a cond in
        Agrees offering e.queues r.0.queues (told cy name a e) (told cy name a r.0) r.1
  unfolding judge
  judge_commits_what_is_queued cond = elim (Bool-cases (admits st cy.time now)) [
    | inl new ↦ rw new (elim (Bool-cases (enabled a.quorum)) [
      | inl on ↦ rw on (settle_quorum-Agrees _)
      | inr off ↦ rw off (
          settle_source-Agrees _ _ _ (Map.lookup-insert_self cy.source _ sources)
            (measured-last_seen cond st))
    ])
    | inr old ↦ rw old (elim (Bool-cases (enabled a.quorum)) [
      | inl on ↦ rw on (refl, refl)
      | inr off ↦ rw off (
        put_sources-state _
            ∙ ap (λ o. (state_or_new o).state) (Map.lookup-insert_self cy.source st sources),
        refl,
      )
    ])
  ]
    where
      sources : Sources
      sources = sources_or_new (Map.lookup key e.states)

      st : AlertState
      st = state_or_new (Map.lookup cy.source sources)
